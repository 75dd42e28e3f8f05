-- ===== src/Auth/SweepTests.antt =====
-- Sweeps of a file store and of a table.
use gimme.Base.{codes, List, [], ◌∷◌, none, some, ◌≡◌, arith}
use gimme.Tokens.FileStore.{purge_expired}
use gimme.Tokens.Tests.{codec}
use gimme.Tokens.PurgeLoop.{Turn, ticked, stopped, purge_loop}
use gimme.Tokens.Postgres.{Row, pg_purge_expired, pg_store}
use gimme.Tokens.Postgres.Tests.{
  Table, table_pool, table_pool-PoolLaws, table_pool-Reachable, table_pool-PurgeLaws, microseconds,
}
use gimme.Auth.{authenticate}
use gimme.Auth.Laws.{admitted}
use gimme.Auth.Tests.{digest, issued_store, issued-Valid, header}
use gimme.Auth.Sweeps.{authenticate-purge_loop, authenticate-pg_purge_expired}

abbrev turns : List Turn
turns = ticked 15 ∷ ticked 18 ∷ stopped ∷ ticked 19 ∷ []

authenticate-purge_loop_example :
    admitted codec digest 20 header (purge_loop (purge_expired codec) turns issued_store)
    ≡ admitted codec digest 20 header issued_store
authenticate-purge_loop_example =
    authenticate-purge_loop codec digest 20 header turns issued_store issued-Valid
      (omega arith, (omega arith, (tt, (omega arith, tt))))

-- A row that has expired by the clock of the table.
abbrev dead_row : Row
dead_row = record {
  id = codes "1";
  name = codes "ci";
  token_hash = codes "h1";
  created_at = 1;
  expires_at = some 20;
  revoked_at = none;
}

abbrev table : Table
table = (dead_row ∷ [], (tt, tt))

authenticate-pg_purge_expired_example :
    authenticate digest (pg_store table_pool) 40 header (pg_purge_expired table_pool table)
    ≡ authenticate digest (pg_store table_pool) 40 header table
authenticate-pg_purge_expired_example =
    authenticate-pg_purge_expired digest table_pool (λ t. t.0) (λ t. 30) microseconds 40 header
      table table_pool-PoolLaws table_pool-Reachable table_pool-PurgeLaws (omega arith)
      ((λ h. cc), tt)
