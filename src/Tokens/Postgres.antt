-- ===== src/Tokens/Postgres.antt =====
-- internal/auth/pg-token-store.go. The pool is the interface `PgPool`: its statements are the texts of
-- SQL in the source, with their arguments, and the database behind it is a parameter.
pub mod Laws
pub mod Purge
pub mod Tests
use gimme.Base.{
  ℕ, Bytes, text_eq, ltb, leb, ◌==◌, if◌then◌else◌, Bool, true, false, not, List, [], ◌∷◌, Option,
  none, some,
}
use gimme.Tokens.{Time, is_zero, TokenEntry, TokenStore}

-- A row of gimme_tokens; a column that may be NULL is an option.
pub record Row : Type 0 where
  pub id : Bytes
  pub name : Bytes
  pub token_hash : Bytes
  pub created_at : Time
  pub expires_at : Option Time
  pub revoked_at : Option Time

pub data Statement : Type 0 where
  create_table : Statement
  insert_token : Row → Statement
  update_revoked_at : Time → Bytes → Statement
  delete_by_id : Bytes → Statement
  delete_expired : Statement

pub record PgPool (T : Type 0) : Type 0 where
  -- The number of rows affected; `none` is an error.
  pub exec : Statement → T → Option ℕ × T
  -- The row of a hash: `none` is an error, pgx.ErrNoRows among them.
  pub query_row : Bytes → T → Option Row
  -- All rows, newest first; an error, or a row that cannot be read, is `none`.
  pub query : T → Option (List (Option Row))

unfoldable pub nullable_time : Time → Option Time
nullable_time t = if is_zero t then none else some t

abbrev pub or_zero : Option Time → Time
or_zero none = 0
or_zero (some t) = t

unfoldable pub scan_row : Row → TokenEntry
scan_row r = record {
  id = r.id;
  name = r.name;
  token_hash = r.token_hash;
  created_at = r.created_at;
  expires_at = or_zero r.expires_at;
  revoked_at = or_zero r.revoked_at;
}

unfoldable pub row_of : TokenEntry → Row
unfolding nullable_time
row_of e = record {
  id = e.id;
  name = e.name;
  token_hash = e.token_hash;
  created_at = e.created_at;
  expires_at = nullable_time e.expires_at;
  revoked_at = nullable_time e.revoked_at;
}

abbrev pub scanned : Option Row → Option TokenEntry
scanned none = none
scanned (some r) = some (scan_row r)

-- The loop over the rows; one that cannot be read ends it with no entries.
unfoldable pub scan_rows : List (Option Row) → Option (List TokenEntry)
unfolding scan_row
scan_rows [] = some []
scan_rows (none ∷ rows) = none
scan_rows (some r ∷ rows) = elim (scan_rows rows) [ none ↦ none | some es ↦ some (scan_row r ∷ es) ]

abbrev or_nil : Option (List TokenEntry) → List TokenEntry
or_nil none = []
or_nil (some es) = es

module _ {T : Type 0} (pool : PgPool T) where
  abbrev pub succeeded : Option ℕ × T → Bool × T
  succeeded (none, t) = (false, t)
  succeeded (some n, t) = (true, t)

  -- RowsAffected() > 0
  abbrev pub affected : Option ℕ × T → Bool × T
  affected (none, t) = (false, t)
  affected (some n, t) = (ltb 0 n, t)

  -- `NewPGTokenStore`, without the start of the purge.
  unfoldable pub new_pg_token_store : T → Bool × T
  new_pg_token_store t = succeeded (pool.exec create_table t)

  unfoldable pub pg_save : TokenEntry → T → Bool × T
  unfolding row_of
  pg_save e t = succeeded (pool.exec (insert_token (row_of e)) t)

  unfoldable pub pg_get_by_hash : Bytes → T → Option TokenEntry
  unfolding scan_row
  pg_get_by_hash hash t = scanned (pool.query_row hash t)

  unfoldable pub pg_list : T → List TokenEntry
  unfolding scan_rows
  pg_list t = elim (pool.query t) [ none ↦ [] | some rows ↦ or_nil (scan_rows rows) ]

  unfoldable pub pg_revoke : Time → Bytes → T → Bool × T
  pg_revoke now id t = affected (pool.exec (update_revoked_at now id) t)

  unfoldable pub pg_delete : Bytes → T → Bool × T
  pg_delete id t = affected (pool.exec (delete_by_id id) t)

  unfoldable pub pg_purge_expired : T → T
  pg_purge_expired t = (pool.exec delete_expired t).1

  abbrev pub pg_store : TokenStore T
  pg_store = record {
    save = pg_save;
    get_by_hash = pg_get_by_hash;
    looked_up = λ hash t. t;
    list = pg_list;
    listed = λ t. t;
    revoke = pg_revoke;
    delete = pg_delete;
  }
