-- ===== src/Auth/Sweeps.antt =====
-- Proofs about the middleware beside the purges that run in the background.
use gimme.Base.{
  ◌≤◌, Bytes, text_eq, if◌then◌else◌, false, List, [], Option, none, some, All, ◌≡◌, refl, sym, ap,
  ◌∙◌,
}
use gimme.Tokens.{Time, TokenEntry}
use gimme.Tokens.Files.{Codec}
use gimme.Tokens.FileStore.{FileTokenStore, purge_expired}
use gimme.Tokens.Reach.{Valid, purged, Step-Valid}
use gimme.Tokens.PurgeLoop.{Turn, Before, purge_loop, purge_loop-same}
use gimme.Tokens.Postgres.{Row, PgPool, pg_get_by_hash, pg_purge_expired, pg_store}
use gimme.Tokens.Postgres.Laws.{PoolLaws, Reachable}
use gimme.Tokens.Postgres.Purge.{PurgeLaws, Nullable, valid_at, pg_purge_expired-valid_at}
use gimme.Auth.{authenticate, hash_token, extract_token, admits}
use gimme.Auth.Revocation.{authenticate-purge_expired}
use gimme.Auth.Laws.{admitted}

-- In a valid file store, however many sweeps the background loop makes until the store is closed, if
-- none is made after the present, a header is admitted after them exactly if it was before.
pub authenticate-purge_loop :
    (codec : Codec) (sha256 : Bytes → Bytes) (now : Time) (header : Bytes) (turns : List Turn)
    (s : FileTokenStore)
    → Valid s
    → All (Before now) turns
    → admitted codec sha256 now header (purge_loop (purge_expired codec) turns s)
      ≡ admitted codec sha256 now header s
authenticate-purge_loop codec sha256 now header turns s v before =
    (purge_loop-same (purge_expired codec) Valid (admitted codec sha256 now header) now
      (λ t s b i. (
        Step-Valid codec s i (purged t),
        authenticate-purge_expired codec sha256 now t header s i b,
      ))
      turns s before v).1

module _ (sha256 : Bytes → Bytes) {T : Type 0} (pool : PgPool T) where
  admits-valid_at :
      (now : Time) (o : Option TokenEntry) → admits sha256 (pg_store pool) now o ≡ valid_at now o
  admits-valid_at now none = refl
  admits-valid_at now (some e) = refl

  -- If PostgreSQL keeps its laws and is reached by every query, a sweep by a clock of the database that is not ahead of the present,
  -- over rows in which no expiry is the zero time, changes no admission, whether or not its statement
  -- succeeds.
  pub authenticate-pg_purge_expired :
      (rows : T → List Row) (clock : T → Time) (kept : Time → Time) (now : Time) (header : Bytes)
      (t : T)
      → PoolLaws pool rows kept
      → Reachable pool rows
      → PurgeLaws pool rows clock
      → clock t ≤ now
      → All Nullable (rows t)
      → authenticate sha256 (pg_store pool) now header (pg_purge_expired pool t)
        ≡ authenticate sha256 (pg_store pool) now header t
  unfolding authenticate
  authenticate-pg_purge_expired rows clock kept now header t laws reachable purging h w =
      let raw = extract_token header in
      let hash = hash_token sha256 raw in
      let same =
        admits-valid_at now (pg_get_by_hash pool hash (pg_purge_expired pool t))
        ∙ pg_purge_expired-valid_at pool rows clock kept laws reachable purging now hash t h w
        ∙ sym (admits-valid_at now (pg_get_by_hash pool hash t)) in
      ap (λ b. if text_eq raw [] then false else b) same
