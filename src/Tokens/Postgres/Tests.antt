-- ===== src/Tokens/Postgres/Tests.antt =====
-- A table of rows with unique hashes as the database, and the store's theorems over it.
use gimme.Base.{
  ◌*◌, ◌/◌, ℕ, Bytes, text_eq, text_eq_iff, Bool, true, false, List, [], ◌∷◌, Option, none, some,
  any, map, keep, length, All, Distinct, ◌≡◌, ◌≢◌, ◌⊎◌, refl, sym, subst, arith, Bool-cases, inl,
  inr,
}
use gimme.Tokens.{Time}
use gimme.Tokens.Contract.{Contract}
use gimme.Tokens.Postgres.{
  Row, Statement, insert_token, update_revoked_at, delete_by_id, create_table, delete_expired,
  PgPool, pg_store,
}
use gimme.Tokens.Postgres.Purge.{alive, PurgeLaws}
use gimme.Tokens.Postgres.Laws.{
  find_row, set_revoked, other_id, hashes, PoolLaws, Reachable, kept_row, pg_store-Contract,
}

pub any-absent : (h : Bytes) (hs : List Bytes) → any (text_eq h) hs ≡ false → All (λ k. h ≢ k) hs
any-absent h [] e = tt
any-absent h (k ∷ hs) e = elim (Bool-cases (text_eq h k)) [
  | inl q ↦ absurd (ground (arith, q, e))
  | inr q ↦ (λ p. cc (q, (text_eq_iff h k).1 p), any-absent h hs (ground (arith, q, e)))
]

abbrev pub Table : Type 0
Table = (rows : List Row) × Distinct (hashes rows)

pub hashes-set_revoked :
    (now : Time) (id : Bytes) (rows : List Row)
    → hashes (map (set_revoked now id) rows) ≡ hashes rows
hashes-set_revoked now id [] = refl
hashes-set_revoked now id (r ∷ rows) =
    let rest = hashes-set_revoked now id rows in
    elim (Bool-cases (text_eq r.id id)) [ inl q ↦ rw (q, rest) refl | inr q ↦ rw (q, rest) refl ]

All-hashes-kept :
    (h : Bytes) (p : Row → Bool) (rows : List Row)
    → All (λ k. h ≢ k) (hashes rows)
    → All (λ k. h ≢ k) (hashes (keep p rows))
All-hashes-kept h p [] a = tt
All-hashes-kept h p (r ∷ rows) (n, a) = elim (Bool-cases (p r)) [
  | inl q ↦ rw q (n, All-hashes-kept h p rows a)
  | inr q ↦ rw q (All-hashes-kept h p rows a)
]

pub Distinct-kept :
    (p : Row → Bool) (rows : List Row) → Distinct (hashes rows) → Distinct (hashes (keep p rows))
Distinct-kept p [] d = tt
Distinct-kept p (r ∷ rows) (n, d) = elim (Bool-cases (p r)) [
  | inl q ↦ rw q (All-hashes-kept r.token_hash p rows n, Distinct-kept p rows d)
  | inr q ↦ rw q (Distinct-kept p rows d)
]

-- Times in whole microseconds.
abbrev pub microseconds : Time → Time
microseconds t = t / 1000 * 1000

-- The answer to an insertion, once it is known whether the hash is taken.
abbrev inserted_by :
    (r : Row) (rows : List Row)
    → Distinct (hashes rows)
    → (any (text_eq r.token_hash) (hashes rows) ≡ true)
      ⊎ (any (text_eq r.token_hash) (hashes rows) ≡ false)
    → Option ℕ × Table
inserted_by r rows d (inl e) = (none, (rows, d))
inserted_by r rows d (inr e) =
    (some 1, (kept_row microseconds r ∷ rows, (any-absent r.token_hash (hashes rows) e, d)))

abbrev inserted : Row → Table → Option ℕ × Table
inserted r (rows, d) = inserted_by r rows d (Bool-cases (any (text_eq r.token_hash) (hashes rows)))

abbrev executed : Statement → Table → Option ℕ × Table
executed create_table t = (some 0, t)
executed (insert_token r) t = inserted r t
executed (update_revoked_at now id) (rows, d) = (
  some (length rows),
  (
    map (set_revoked (microseconds now) id) rows,
    subst Distinct (sym (hashes-set_revoked (microseconds now) id rows)) d,
  ),
)
executed (delete_by_id id) (rows, d) =
    (some (length rows), (keep (other_id id) rows, Distinct-kept (other_id id) rows d))
executed delete_expired (rows, d) =
    (some (length rows), (keep (alive 30) rows, Distinct-kept (alive 30) rows d))

-- Its clock stands at 30.
abbrev pub table_pool : PgPool Table
table_pool = record {
  exec = executed;
  query_row = λ h t. find_row h t.0;
  query = λ t. some (map some t.0);
}

inserted_by-rows :
    (r : Row) (rows : List Row) (d : Distinct (hashes rows)) (n : ℕ)
    → (c : (any (text_eq r.token_hash) (hashes rows) ≡ true)
        ⊎ (any (text_eq r.token_hash) (hashes rows) ≡ false))
    → (inserted_by r rows d c).0 ≡ some n
    → (inserted_by r rows d c).1.0 ≡ kept_row microseconds r ∷ rows
inserted_by-rows r rows d n (inl e) h = cc
inserted_by-rows r rows d n (inr e) h = refl

pub table_pool-PoolLaws : PoolLaws table_pool (λ t. t.0) microseconds
table_pool-PoolLaws = record {
  kept_zero = refl;
  unique = λ t. t.1;
  insert = λ r t n h.
      inserted_by-rows r t.0 t.1 n (Bool-cases (any (text_eq r.token_hash) (hashes t.0))) h;
  update = λ now id t n h. refl;
  delete = λ id t n h. refl;
}

pub table_pool-Reachable : Reachable table_pool (λ t. t.0)
table_pool-Reachable = record { select = λ h t. refl }

failed_purge : (n : ℕ) → some n ≢ none
failed_purge n h = cc

pub table_pool-PurgeLaws : PurgeLaws table_pool (λ t. t.0) (λ t. 30)
table_pool-PurgeLaws = record {
  purge = λ t n h. refl;
  failed = λ t h. absurd (failed_purge (length t.0) h);
}

pg_store-Contract_example : Contract microseconds (pg_store table_pool) (λ t. Unit) (λ e t. Unit)
pg_store-Contract_example =
    pg_store-Contract table_pool (λ t. t.0) microseconds table_pool-PoolLaws table_pool-Reachable
