-- ===== src/Tokens/Views.antt =====
-- The file store as its clients see it: a function from hashes to entries, and what each operation
-- does to it.
use gimme.Base.{
  ℕ, Bytes, ◌==◌, ==_iff, ==_refl, text_eq, text_eq_iff, if◌then◌else◌, none, some, ◌≡◌, sym, ap,
  ◌∙◌, arith, Bool-cases, Option-cases, inl, inr,
}
use gimme.Dict.{lookup, lookup-remove, lookup-insert}
use gimme.Tokens.{Time, TokenEntry}
use gimme.Tokens.FileStore.{Maps, put, get_by_hash}
use gimme.Tokens.Consistent.{IsConsistent, stored-ne-next}
use gimme.Tokens.Steps.{Known, revoked_entry, revoked_maps, deleted_maps}

module _ (m : Maps) (c : IsConsistent m) where
  -- An entry that is found has the hash it was asked for, and its id is known.
  pub get_by_hash-HashLinked :
      (j : Bytes) (e : TokenEntry)
      → get_by_hash j m ≡ some e
      → (p : ℕ) × (lookup j m.by_hash ≡ some p)
        × (m.heap.cell p ≡ some e)
        × (e.token_hash ≡ j)
        × (lookup e.id m.by_id ≡ some p)
  unfolding get_by_hash
  get_by_hash-HashLinked j e h = elim (Option-cases (lookup j m.by_hash)) [
    | inl q ↦ absurd (ground arith)
    | inr (p, q) ↦
        let link = c.hashes j p q in
        let same : link.entry ≡ e = ground (arith, link.stored) in
        (
          p,
          q,
          ground arith,
          ap (λ (x : TokenEntry). x.token_hash) (sym same) ∙ link.same_hash,
          ap (λ (x : TokenEntry). lookup x.id m.by_id) (sym same) ∙ link.by_id,
        )
  ]

  pub get_by_hash-put :
      (e : TokenEntry) (j : Bytes)
      → get_by_hash j (put e m) ≡ (if text_eq e.token_hash j then some e else get_by_hash j m)
  unfolding get_by_hash put
  get_by_hash-put e j = elim (Bool-cases (text_eq e.token_hash j)) [
    | inl q ↦ rw (lookup-insert e.token_hash j m.heap.next m.by_hash, q, ==_refl m.heap.next)
    | inr q ↦ elim (Option-cases (lookup j m.by_hash)) [
      | inl a ↦ rw (lookup-insert e.token_hash j m.heap.next m.by_hash, q, a)
      | inr (p, a) ↦
          let link = c.hashes j p a in
          rw (
            lookup-insert e.token_hash j m.heap.next m.by_hash,
            q,
            a,
            stored-ne-next m c p link.stored,
          )
    ]
  ]

  module _ (id : Bytes) (k : Known m id) where
    abbrev entry : TokenEntry
    entry = k.link.entry

    pub get_by_hash_known : get_by_hash entry.token_hash m ≡ some entry
    unfolding get_by_hash
    get_by_hash_known = ground (arith, k.link.by_hash, k.link.stored)

    pub get_by_hash-revoked :
        (now : Time) (j : Bytes)
        → get_by_hash j (revoked_maps m c now id k) ≡ (
            if text_eq entry.token_hash j
            then some (revoked_entry m c now id k)
            else get_by_hash j m)
    unfolding get_by_hash
    get_by_hash-revoked now j = elim (Bool-cases (text_eq entry.token_hash j)) [
      | inl q ↦
          let at : lookup j m.by_hash ≡ some k.at =
            ap (λ x. lookup x m.by_hash) (sym ((text_eq_iff entry.token_hash j).0 q))
            ∙ k.link.by_hash in
          rw (q, at, ==_refl k.at)
      | inr q ↦ elim (Option-cases (lookup j m.by_hash)) [
        | inl a ↦ rw (q, a)
        | inr (p, a) ↦ elim (Bool-cases (k.at == p)) [
          | inl b ↦
              let link = c.hashes j p a in
              let one : entry ≡ link.entry = cc (k.link.stored, link.stored, (==_iff k.at p).0 b) in
              absurd (
                cc (
                  q,
                  (text_eq_iff entry.token_hash j).1
                      (ap (λ (x : TokenEntry). x.token_hash) one ∙ link.same_hash),
                ))
          | inr b ↦ rw (q, a, b)
        ]
      ]
    ]

    pub get_by_hash-deleted :
        (j : Bytes)
        → get_by_hash j (deleted_maps m c id k)
          ≡ (if text_eq entry.token_hash j then none else get_by_hash j m)
    unfolding get_by_hash
    get_by_hash-deleted j = rw (lookup-remove entry.token_hash j m.by_hash) (ground arith)
