-- ===== src/Tokens/Postgres/Purge.antt =====
-- What is relied on of the statement that deletes expired rows, and proofs about it.
use gimme.Base.{
  ℕ, ◌≤◌, Bytes, text_eq, text_eq_iff, ltb, Bool, true, false, not, List, [], ◌∷◌, Option, none,
  some, keep, All, Distinct, ◌≡◌, ◌≢◌, refl, sym, ap, ◌∙◌, subst, arith, Bool-cases, Option-cases,
  inl, inr,
}
use gimme.Tokens.{Time, TokenEntry, is_valid, is_expired}
use gimme.Tokens.Postgres.{
  Row, delete_expired, PgPool, scan_row, scanned, pg_get_by_hash, pg_purge_expired,
}
use gimme.Tokens.Postgres.Laws.{find_row, hashes, PoolLaws, Reachable}

-- `expires_at IS NOT NULL AND expires_at < NOW()`
abbrev pub past : Time → Option Time → Bool
past now none = false
past now (some t) = ltb t now

abbrev pub alive : Time → Row → Bool
alive now r = not (past now r.expires_at)

-- By the clock of the database, a statement that succeeds deletes the rows that have expired, and one that
-- fails deletes none.
pub record PurgeLaws {T : Type 0} (pool : PgPool T) (rows : T → List Row) (clock : T → Time)
    : Type 0 where
  pub purge :
      (t : T) (n : ℕ)
      → (pool.exec delete_expired t).0 ≡ some n
      → rows (pool.exec delete_expired t).1 ≡ keep (alive (clock t)) (rows t)
  pub failed :
      (t : T) → (pool.exec delete_expired t).0 ≡ none → rows (pool.exec delete_expired t).1 ≡ rows t

-- An expiry that is set is not the zero time, as `nullable_time` writes it.
abbrev pub Nullable : Row → Type 0
Nullable r = r.expires_at ≢ some 0

-- What the middleware makes of the entry that it finds.
abbrev pub valid_at : Time → Option TokenEntry → Bool
valid_at now none = false
valid_at now (some e) = is_valid now e

find_row-dropped :
    (hash : Bytes) (p : Row → Bool) (rows : List Row)
    → All (λ h. hash ≢ h) (hashes rows)
    → find_row hash (keep p rows) ≡ none
find_row-dropped hash p [] h = refl
find_row-dropped hash p (r ∷ rows) (n, h) =
    ground (arith, find_row-dropped hash p rows h, n, text_eq_iff r.token_hash hash)

-- A row that has expired is no valid entry from then on.
expired_row :
    (t now : Time) (r : Row)
    → t ≤ now
    → Nullable r
    → alive t r ≡ false
    → is_valid now (scan_row r) ≡ false
unfolding scan_row is_valid is_expired
expired_row t now r h n e = elim (Option-cases r.expires_at) [
  | inl q ↦ absurd (ground (arith, q, e))
  | inr (x, q) ↦
      let later : ltb x t ≡ true = ground (arith, q, e) in
      let set : x ≢ 0 = λ z. n (q ∙ ap some z) in rw (q) ground (arith, later, set, h)
]

valid_at-kept :
    (t now : Time) (hash : Bytes) (rows : List Row)
    → t ≤ now
    → All Nullable rows
    → Distinct (hashes rows)
    → valid_at now (scanned (find_row hash (keep (alive t) rows)))
      ≡ valid_at now (scanned (find_row hash rows))
valid_at-kept t now hash [] h w d = refl
valid_at-kept t now hash (r ∷ rows) h (n, w) (apart, d) =
    let rest = valid_at-kept t now hash rows h w d in
    elim (Bool-cases (text_eq r.token_hash hash)) [
      | inr q ↦ elim (Bool-cases (alive t r)) [ inl a ↦ rw (a, q) rest | inr a ↦ rw (a, q) rest ]
      | inl q ↦ elim (Bool-cases (alive t r)) [
        | inl a ↦ rw (a, q) refl
        | inr a ↦
            let same : r.token_hash ≡ hash = (text_eq_iff r.token_hash hash).0 q in
            let gone =
              find_row-dropped hash (alive t) rows
                (subst (λ k. All (λ h. k ≢ h) (hashes rows)) same apart) in
            rw (a, q, gone, expired_row t now r h n a) refl
      ]
    ]

module _ {T : Type 0} (pool : PgPool T) (rows : T → List Row) (clock : T → Time)
    (kept : Time → Time) (laws : PoolLaws pool rows kept) (reachable : Reachable pool rows)
    (purging : PurgeLaws pool rows clock) where
  pub pg_purge_expired-valid_at :
      (now : Time) (hash : Bytes) (t : T)
      → clock t ≤ now
      → All Nullable (rows t)
      → valid_at now (pg_get_by_hash pool hash (pg_purge_expired pool t))
        ≡ valid_at now (pg_get_by_hash pool hash t)
  unfolding pg_purge_expired pg_get_by_hash
  pg_purge_expired-valid_at now hash t h w =
      let after = reachable.select hash (pool.exec delete_expired t).1 in
      let left : valid_at now (scanned (find_row hash (rows (pool.exec delete_expired t).1)))
          ≡ valid_at now (scanned (find_row hash (rows t))) =
        elim (Option-cases (pool.exec delete_expired t).0) [
          | inl q ↦ ap (λ x. valid_at now (scanned (find_row hash x))) (purging.failed t q)
          | inr (n, q) ↦
              ap (λ x. valid_at now (scanned (find_row hash x))) (purging.purge t n q)
              ∙ valid_at-kept (clock t) now hash (rows t) h w (laws.unique t)
        ] in
      ap (λ x. valid_at now (scanned x)) after
      ∙ left
      ∙ sym (ap (λ x. valid_at now (scanned x)) (reachable.select hash t))
