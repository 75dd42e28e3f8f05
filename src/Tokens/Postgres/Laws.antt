-- ===== src/Tokens/Postgres/Laws.antt =====
-- What is relied on of PostgreSQL, and proofs about the store over it.
use gimme.Base.{
  ==_iff, ℕ, Bytes, text_eq, text_eq_iff, if◌then◌else◌, Bool, true, not, List, [], ◌∷◌, Option,
  none, some, map, keep, All, Distinct, ◌≡◌, ◌≢◌, refl, sym, ap, ◌∙◌, subst, arith, Bool-cases, inl,
  inr,
}
use gimme.Tokens.{Time, TokenEntry, is_zero}
use gimme.Tokens.Contract.{Contract, stored_as, marked, without}
use gimme.Tokens.Postgres.{
  Row, insert_token, update_revoked_at, delete_by_id, PgPool, nullable_time, or_zero, scan_row,
  row_of, scanned, succeeded, affected, pg_save, pg_get_by_hash, pg_revoke, pg_delete, pg_store,
}

abbrev pub find_row : Bytes → List Row → Option Row
find_row hash [] = none
find_row hash (r ∷ rows) =
    let rest = find_row hash rows in if text_eq r.token_hash hash then some r else rest

abbrev pub set_revoked : Time → Bytes → Row → Row
set_revoked now id r = if text_eq r.id id then record r { revoked_at = some now } else r

abbrev pub other_id : Bytes → Row → Bool
other_id id r = not (text_eq r.id id)

abbrev pub hashes : List Row → List Bytes
hashes = map (λ (r : Row). r.token_hash)

abbrev kept_time : (Time → Time) → Option Time → Option Time
kept_time kept none = none
kept_time kept (some t) = some (kept t)

-- A row as TIMESTAMPTZ keeps its times.
abbrev pub kept_row : (Time → Time) → Row → Row
kept_row kept r = record r {
  created_at = kept r.created_at;
  expires_at = kept_time kept r.expires_at;
  revoked_at = kept_time kept r.revoked_at;
}

-- The table as a list of rows, and what is kept of a time, in whole microseconds. A statement that
-- succeeds does what its text says, with the times as they are kept; the hashes of the rows are unique.
pub record PoolLaws {T : Type 0} (pool : PgPool T) (rows : T → List Row) (kept : Time → Time)
    : Type 0 where
  pub kept_zero : kept 0 ≡ 0
  pub unique : (t : T) → Distinct (hashes (rows t))
  pub insert :
      (r : Row) (t : T) (n : ℕ)
      → (pool.exec (insert_token r) t).0 ≡ some n
      → rows (pool.exec (insert_token r) t).1 ≡ kept_row kept r ∷ rows t
  pub update :
      (now : Time) (id : Bytes) (t : T) (n : ℕ)
      → (pool.exec (update_revoked_at now id) t).0 ≡ some n
      → rows (pool.exec (update_revoked_at now id) t).1 ≡ map (set_revoked (kept now) id) (rows t)
  pub delete :
      (id : Bytes) (t : T) (n : ℕ)
      → (pool.exec (delete_by_id id) t).0 ≡ some n
      → rows (pool.exec (delete_by_id id) t).1 ≡ keep (other_id id) (rows t)

-- The database is reached by every query of a hash.
pub record Reachable {T : Type 0} (pool : PgPool T) (rows : T → List Row) : Type 0 where
  pub select : (hash : Bytes) (t : T) → pool.query_row hash t ≡ find_row hash (rows t)

or_zero-kept_time :
    (kept : Time → Time) (t : Time)
    → kept 0 ≡ 0
    → or_zero (kept_time kept (nullable_time t)) ≡ kept t
unfolding nullable_time
or_zero-kept_time kept t z = elim (Bool-cases (is_zero t)) [
  | inl q ↦ let zero_time : t ≡ 0 = (==_iff t 0).0 q in rw (q) (sym (ap kept zero_time ∙ z))
  | inr q ↦ rw (q) refl
]

-- A row that was written reads back as the entry with its times as they are kept, with zero times as NULL.
pub scan_row-row_of :
    (kept : Time → Time) (e : TokenEntry)
    → kept 0 ≡ 0
    → scan_row (kept_row kept (row_of e)) ≡ stored_as kept e
unfolding scan_row row_of
scan_row-row_of kept e z =
    rw (or_zero-kept_time kept e.expires_at z, or_zero-kept_time kept e.revoked_at z) refl

find_row-set_revoked :
    (now : Time) (id hash : Bytes) (rows : List Row)
    → scanned (find_row hash (map (set_revoked now id) rows))
      ≡ marked now id (scanned (find_row hash rows))
unfolding scan_row
find_row-set_revoked now id hash [] = refl
find_row-set_revoked now id hash (r ∷ rows) = ground (arith, find_row-set_revoked now id hash rows)

find_row-absent :
    (id hash : Bytes) (rows : List Row)
    → All (λ h. hash ≢ h) (hashes rows)
    → find_row hash (keep (other_id id) rows) ≡ none
find_row-absent id hash [] h = refl
find_row-absent id hash (r ∷ rows) (p, h) =
    ground (arith, find_row-absent id hash rows h, p, text_eq_iff r.token_hash hash)

find_row-other_id :
    (id hash : Bytes) (rows : List Row)
    → Distinct (hashes rows)
    → scanned (find_row hash (keep (other_id id) rows)) ≡ without id (scanned (find_row hash rows))
unfolding scan_row
find_row-other_id id hash [] d = refl
find_row-other_id id hash (r ∷ rows) (apart, d) =
    let later = find_row-other_id id hash rows d in
    elim (Bool-cases (text_eq r.token_hash hash)) [
      | inr q ↦ ground (arith, later)
      | inl q ↦
          let same : r.token_hash ≡ hash = (text_eq_iff r.token_hash hash).0 q in
          let gone =
            find_row-absent id hash rows (subst (λ k. All (λ h. k ≢ h) (hashes rows)) same apart) in
          ground (arith, gone)
    ]

succeeded_inv :
    {T : Type 0} (pool : PgPool T) (o : Option ℕ × T)
    → (succeeded pool o).0 ≡ true
    → ((n : ℕ) × (o.0 ≡ some n)) × ((succeeded pool o).1 ≡ o.1)
succeeded_inv pool (none, t) h = cc
succeeded_inv pool (some n, t) h = ((n, refl), refl)

affected_inv :
    {T : Type 0} (pool : PgPool T) (o : Option ℕ × T)
    → (affected pool o).0 ≡ true
    → ((n : ℕ) × (o.0 ≡ some n)) × ((affected pool o).1 ≡ o.1)
affected_inv pool (none, t) h = cc
affected_inv pool (some n, t) h = ((n, refl), refl)

module _ {T : Type 0} (pool : PgPool T) (rows : T → List Row) (kept : Time → Time)
    (laws : PoolLaws pool rows kept) (reachable : Reachable pool rows) where
  get_by_hash_rows : (h : Bytes) (t : T) → pg_get_by_hash pool h t ≡ scanned (find_row h (rows t))
  unfolding pg_get_by_hash
  get_by_hash_rows h t = ap scanned (reachable.select h t)

  get_by_hash_moved :
      (h : Bytes) (t : T) (rs : List Row)
      → rows t ≡ rs
      → pg_get_by_hash pool h t ≡ scanned (find_row h rs)
  get_by_hash_moved h t rs e = get_by_hash_rows h t ∙ ap (λ x. scanned (find_row h x)) e

  found-row_of :
      (e : TokenEntry) (h : Bytes) (t : T)
      → scanned (find_row h (kept_row kept (row_of e) ∷ rows t))
        ≡ (if text_eq e.token_hash h then some (stored_as kept e) else pg_get_by_hash pool h t)
  unfolding row_of
  found-row_of e h t = elim (Bool-cases (text_eq e.token_hash h)) [
    | inl q ↦ rw (q) (ap some (scan_row-row_of kept e laws.kept_zero))
    | inr q ↦ rw (q) (sym (get_by_hash_rows h t))
  ]

  -- If PostgreSQL keeps its laws and is reached by every query, the store over it keeps the contract of
  -- a token store, in every state, with the times as the table keeps them.
  pub pg_store-Contract : Contract kept (pg_store pool) (λ t. Unit) (λ e t. Unit)
  unfolding pg_save pg_revoke pg_delete
  pg_store-Contract = record {
    get-save = λ e t _ _ saved.
        let ((n, done), state) = succeeded_inv pool (pool.exec (insert_token (row_of e)) t) saved in
        (
          tt,
          λ h.
              get_by_hash_moved h _ _ (ap rows state ∙ laws.insert (row_of e) t n done)
              ∙ found-row_of e h t,
        );
    get-revoke = λ now id t _ answer.
        let ((n, done), state) =
          affected_inv pool (pool.exec (update_revoked_at now id) t) answer in
        (
          tt,
          λ h.
              get_by_hash_moved h _ _ (ap rows state ∙ laws.update now id t n done)
              ∙ find_row-set_revoked (kept now) id h (rows t)
              ∙ ap (marked (kept now) id) (sym (get_by_hash_rows h t)),
        );
    get-delete = λ id t _ answer.
        let ((n, done), state) = affected_inv pool (pool.exec (delete_by_id id) t) answer in
        (
          tt,
          λ h.
              get_by_hash_moved h _ _ (ap rows state ∙ laws.delete id t n done)
              ∙ find_row-other_id id h (rows t) (laws.unique t)
              ∙ ap (without id) (sym (get_by_hash_rows h t)),
        );
    get-looked_up = λ hash t _. (tt, λ h. refl);
    get-listed = λ t _. (tt, λ h. refl);
  }
