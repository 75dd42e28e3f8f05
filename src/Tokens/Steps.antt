-- ===== src/Tokens/Steps.antt =====
-- Proofs about `Revoke` and `Delete` of internal/auth/file-token-store.go.
use gimme.Base.{
  ℕ, Bytes, ◌==◌, ==_iff, text_eq, text_eq_iff, false, some, ◌≡◌, ap, ◌∙◌, arith, Bool-cases, inl,
  inr,
}
use gimme.Dict.{lookup, remove, lookup-remove, remove-Distinct}
use gimme.Tokens.{Time, TokenEntry}
use gimme.Tokens.FileStore.{Maps, write_cell, mark_revoked, take_out}
use gimme.Tokens.Consistent.{IdLinked, HashLinked, IsConsistent}

-- What a known id leads to.
pub record Known (m : Maps) (id : Bytes) : Type 0 where
  pub at : ℕ
  pub found : lookup id m.by_id ≡ some at
  pub link : IdLinked m id at

module _ (m : Maps) (c : IsConsistent m) where
  pub known_of_lookup : (id : Bytes) (p : ℕ) → lookup id m.by_id ≡ some p → Known m id
  known_of_lookup id p h = record { at = p; found = h; link = c.ids id p h }

  module _ (now : Time) (id : Bytes) (k : Known m id) where
    abbrev pub revoked_entry : TokenEntry
    revoked_entry = record k.link.entry { revoked_at = now }

    abbrev pub revoked_maps : Maps
    revoked_maps = record m { heap = write_cell k.at revoked_entry m.heap }

    pub mark_revoked-eq : mark_revoked now id m ≡ some revoked_maps
    unfolding mark_revoked
    mark_revoked-eq = ground (arith, k.found, k.link.stored)

    revoked_ids : (j : Bytes) (p : ℕ) → lookup j m.by_id ≡ some p → IdLinked revoked_maps j p
    revoked_ids j p h =
        let old = c.ids j p h in
        elim (Bool-cases (k.at == p)) [
          | inl q ↦
              let same : k.at ≡ p = (==_iff k.at p).0 q in
              let one : k.link.entry ≡ old.entry = cc (k.link.stored, old.stored, same) in
              record {
                entry = revoked_entry;
                stored = rw q;
                same_id = ap (λ (e : TokenEntry). e.id) one ∙ old.same_id;
                by_hash = cc (k.link.by_hash, same);
              }
          | inr q ↦ record {
            entry = old.entry;
            stored = rw q old.stored;
            same_id = old.same_id;
            by_hash = old.by_hash;
          }
        ]

    revoked_hashes : (j : Bytes) (p : ℕ) → lookup j m.by_hash ≡ some p → HashLinked revoked_maps j p
    revoked_hashes j p h =
        let old = c.hashes j p h in
        elim (Bool-cases (k.at == p)) [
          | inl q ↦
              let same : k.at ≡ p = (==_iff k.at p).0 q in
              let one : k.link.entry ≡ old.entry = cc (k.link.stored, old.stored, same) in
              record {
                entry = revoked_entry;
                stored = rw q;
                same_hash = ap (λ (e : TokenEntry). e.token_hash) one ∙ old.same_hash;
                by_id = cc (k.link.same_id, k.found, same);
              }
          | inr q ↦ record {
            entry = old.entry;
            stored = rw q old.stored;
            same_hash = old.same_hash;
            by_id = old.by_id;
          }
        ]

    pub revoked_maps-IsConsistent : IsConsistent revoked_maps
    revoked_maps-IsConsistent = record {
      ids = revoked_ids;
      hashes = revoked_hashes;
      unused = λ p h. ground (arith, c.unused p, k.link.stored, c.unused k.at);
      distinct = c.distinct;
    }

  module _ (id : Bytes) (k : Known m id) where
    abbrev pub deleted_maps : Maps
    deleted_maps = record m {
      by_id = remove id m.by_id;
      by_hash = remove k.link.entry.token_hash m.by_hash;
    }

    pub take_out-eq : take_out id m ≡ some deleted_maps
    unfolding take_out
    take_out-eq = ground (arith, k.found, k.link.stored)

    deleted_ids :
        (j : Bytes) (p : ℕ) → lookup j deleted_maps.by_id ≡ some p → IdLinked deleted_maps j p
    deleted_ids j p h =
        let kept : lookup j m.by_id ≡ some p = ground (arith, lookup-remove id j m.by_id) in
        let other : text_eq id j ≡ false = ground (arith, lookup-remove id j m.by_id) in
        let old = c.ids j p kept in
        elim (Bool-cases (text_eq k.link.entry.token_hash old.entry.token_hash)) [
          | inl q ↦
              let one : k.at ≡ p = ground (
                arith,
                k.link.by_hash,
                old.by_hash,
                text_eq_iff k.link.entry.token_hash old.entry.token_hash,
              ) in
              let same : id ≡ j =
                cc (k.link.stored, old.stored, one, k.link.same_id, old.same_id) in
              absurd (cc (other, (text_eq_iff id j).1 same))
          | inr q ↦ record {
            entry = old.entry;
            stored = old.stored;
            same_id = old.same_id;
            by_hash = ground (
              arith,
              old.by_hash,
              lookup-remove k.link.entry.token_hash old.entry.token_hash m.by_hash,
            );
          }
        ]

    deleted_hashes :
        (j : Bytes) (p : ℕ) → lookup j deleted_maps.by_hash ≡ some p → HashLinked deleted_maps j p
    deleted_hashes j p h =
        let kept : lookup j m.by_hash ≡ some p =
          ground (arith, lookup-remove k.link.entry.token_hash j m.by_hash) in
        let other : text_eq k.link.entry.token_hash j ≡ false =
          ground (arith, lookup-remove k.link.entry.token_hash j m.by_hash) in
        let old = c.hashes j p kept in
        elim (Bool-cases (text_eq id old.entry.id)) [
          | inl q ↦
              let one : k.at ≡ p =
                ground (arith, k.found, old.by_id, text_eq_iff id old.entry.id) in
              let same : k.link.entry.token_hash ≡ j =
                cc (k.link.stored, old.stored, one, old.same_hash) in
              absurd (cc (other, (text_eq_iff k.link.entry.token_hash j).1 same))
          | inr q ↦ record {
            entry = old.entry;
            stored = old.stored;
            same_hash = old.same_hash;
            by_id = ground (arith, old.by_id, lookup-remove id old.entry.id m.by_id);
          }
        ]

    pub deleted_maps-IsConsistent : IsConsistent deleted_maps
    deleted_maps-IsConsistent = record {
      ids = deleted_ids;
      hashes = deleted_hashes;
      unused = c.unused;
      distinct = remove-Distinct id m.by_id c.distinct;
    }
