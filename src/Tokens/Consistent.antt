-- ===== src/Tokens/Consistent.antt =====
-- The invariant of the two maps of internal/auth/file-token-store.go, and proofs about `Save`.
use gimme.Base.{
  ℕ, ◌≤◌, Bytes, ◌==◌, ==_iff, text_eq, text_eq_iff, text_eq_refl, false, Distinct, none, some, ◌≡◌,
  refl, arith, Bool-cases, inl, inr,
}
use gimme.Dict.{lookup, lookup-insert, keys, insert-Distinct}
use gimme.Tokens.{TokenEntry}
use gimme.Tokens.FileStore.{Maps, empty_maps, put}

-- The binding of `id` leads to an entry of that id, which its hash leads to as well.
pub record IdLinked (m : Maps) (id : Bytes) (p : ℕ) : Type 0 where
  pub entry : TokenEntry
  pub stored : m.heap.cell p ≡ some entry
  pub same_id : entry.id ≡ id
  pub by_hash : lookup entry.token_hash m.by_hash ≡ some p

pub record HashLinked (m : Maps) (hash : Bytes) (p : ℕ) : Type 0 where
  pub entry : TokenEntry
  pub stored : m.heap.cell p ≡ some entry
  pub same_hash : entry.token_hash ≡ hash
  pub by_id : lookup entry.id m.by_id ≡ some p

pub record IsConsistent (m : Maps) : Type 0 where
  pub ids : (id : Bytes) (p : ℕ) → lookup id m.by_id ≡ some p → IdLinked m id p
  pub hashes : (hash : Bytes) (p : ℕ) → lookup hash m.by_hash ≡ some p → HashLinked m hash p
  pub unused : (p : ℕ) → m.heap.next ≤ p → m.heap.cell p ≡ none
  pub distinct : Distinct (keys m.by_id)

-- Neither key of the entry is bound.
pub record IsFresh (e : TokenEntry) (m : Maps) : Type 0 where
  pub id : lookup e.id m.by_id ≡ none
  pub hash : lookup e.token_hash m.by_hash ≡ none

pub empty_maps-IsConsistent : IsConsistent empty_maps
unfolding lookup
empty_maps-IsConsistent = record {
  ids = λ id p h. cc;
  hashes = λ hash p h. cc;
  unused = λ p h. refl;
  distinct = tt;
}

module _ (m : Maps) (c : IsConsistent m) where
  -- A stored entry lies below the next pointer.
  pub stored-ne-next :
      (p : ℕ) {e : TokenEntry} → m.heap.cell p ≡ some e → (m.heap.next == p) ≡ false
  stored-ne-next p h = elim (Bool-cases (m.heap.next == p)) [
    | inl e ↦ absurd (cc (h, c.unused p (ground (arith, ==_iff m.heap.next p))))
    | inr e ↦ e
  ]

  module _ (e : TokenEntry) (new : IsFresh e m) where
    put_ids : (id : Bytes) (p : ℕ) → lookup id (put e m).by_id ≡ some p → IdLinked (put e m) id p
    unfolding put
    put_ids id p h = elim (Bool-cases (text_eq e.id id)) [
      | inl q ↦
          let same : m.heap.next ≡ p = ground (arith, lookup-insert e.id id m.heap.next m.by_id) in
          record {
            entry = e;
            stored = ground arith;
            same_id = (text_eq_iff e.id id).0 q;
            by_hash = ground (
              arith,
              lookup-insert e.token_hash e.token_hash m.heap.next m.by_hash,
              text_eq_refl e.token_hash,
            );
          }
      | inr q ↦
          let old = c.ids id p (ground (arith, lookup-insert e.id id m.heap.next m.by_id)) in
          record {
            entry = old.entry;
            stored = ground (arith, old.stored, stored-ne-next p old.stored);
            same_id = old.same_id;
            by_hash = ground (
              arith,
              old.by_hash,
              new.hash,
              lookup-insert e.token_hash old.entry.token_hash m.heap.next m.by_hash,
              text_eq_iff e.token_hash old.entry.token_hash,
            );
          }
    ]

    put_hashes :
        (hash : Bytes) (p : ℕ)
        → lookup hash (put e m).by_hash ≡ some p
        → HashLinked (put e m) hash p
    unfolding put
    put_hashes hash p h = elim (Bool-cases (text_eq e.token_hash hash)) [
      | inl q ↦
          let same : m.heap.next ≡ p =
            ground (arith, lookup-insert e.token_hash hash m.heap.next m.by_hash) in
          record {
            entry = e;
            stored = ground arith;
            same_hash = (text_eq_iff e.token_hash hash).0 q;
            by_id = ground (arith, lookup-insert e.id e.id m.heap.next m.by_id, text_eq_refl e.id);
          }
      | inr q ↦
          let old =
            c.hashes hash p
              (ground (arith, lookup-insert e.token_hash hash m.heap.next m.by_hash)) in
          record {
            entry = old.entry;
            stored = ground (arith, old.stored, stored-ne-next p old.stored);
            same_hash = old.same_hash;
            by_id = ground (
              arith,
              old.by_id,
              new.id,
              lookup-insert e.id old.entry.id m.heap.next m.by_id,
              text_eq_iff e.id old.entry.id,
            );
          }
    ]

    pub put-IsConsistent : IsConsistent (put e m)
    put-IsConsistent = record {
      ids = put_ids;
      hashes = put_hashes;
      unused = unfold put in λ p h. ground (arith, c.unused p);
      distinct = unfold put in insert-Distinct e.id m.heap.next m.by_id c.distinct;
    }
