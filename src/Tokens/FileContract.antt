-- ===== src/Tokens/FileContract.antt =====
-- Proofs about the file store as a token store.
use gimme.Base.{
  Bytes, text_eq, text_eq_iff, true, false, some, ◌≡◌, refl, sym, ap, ◌∙◌, subst, Bool-cases,
  Option-cases, inl, inr,
}
use gimme.Dict.{lookup}
use gimme.Tokens.{Time, TokenEntry}
use gimme.Tokens.Files.{Codec}
use gimme.Tokens.FileStore.{Maps, get_by_hash, file_store}
use gimme.Tokens.Consistent.{IsConsistent, IsFresh, put-IsConsistent}
use gimme.Tokens.Steps.{
  Known, known_of_lookup, revoked_maps, deleted_maps, revoked_maps-IsConsistent,
  deleted_maps-IsConsistent,
}
use gimme.Tokens.Views.{
  get_by_hash-put, get_by_hash-revoked, get_by_hash-deleted, get_by_hash-HashLinked,
  get_by_hash_known,
}
use gimme.Tokens.Reach.{
  Valid, maps-save, maps-revoke, maps-delete, maps-revoke_unknown, maps-delete_unknown,
}
use gimme.Tokens.Contract.{Contract, marked, without}

module _ (m : Maps) (c : IsConsistent m) (id : Bytes) (k : Known m id) where
  -- The entry of the identifier is found under its hash alone.
  found_own :
      (h : Bytes) → text_eq k.link.entry.token_hash h ≡ true → get_by_hash h m ≡ some k.link.entry
  found_own h q =
      ap (λ x. get_by_hash x m) (sym ((text_eq_iff k.link.entry.token_hash h).0 q))
      ∙ get_by_hash_known m c id k

  found_other :
      (h : Bytes) (e : TokenEntry)
      → text_eq k.link.entry.token_hash h ≡ false
      → get_by_hash h m ≡ some e
      → text_eq e.id id ≡ false
  found_other h e q seen = elim (Bool-cases (text_eq e.id id)) [
    | inr r ↦ r
    | inl r ↦
        let (p, _, cell, hashed, at) = get_by_hash-HashLinked m c h e seen in
        let same : e.id ≡ id = (text_eq_iff e.id id).0 r in
        let one : k.link.entry ≡ e = cc (k.link.stored, cell, at, k.found, same) in
        absurd (
          cc (
            q,
            (text_eq_iff k.link.entry.token_hash h).1
                (ap (λ (x : TokenEntry). x.token_hash) one ∙ hashed),
          ))
  ]

  own_id : text_eq k.link.entry.id id ≡ true
  own_id = (text_eq_iff k.link.entry.id id).1 k.link.same_id

  marked-revoked :
      (now : Time) (h : Bytes)
      → get_by_hash h (revoked_maps m c now id k) ≡ marked now id (get_by_hash h m)
  marked-revoked now h = elim (Bool-cases (text_eq k.link.entry.token_hash h)) [
    | inl q ↦ get_by_hash-revoked m c id k now h ∙ rw (q, found_own h q, own_id) refl
    | inr q ↦ elim (Option-cases (get_by_hash h m)) [
      | inl e ↦ get_by_hash-revoked m c id k now h ∙ rw (q, e) refl
      | inr (e, seen) ↦
          get_by_hash-revoked m c id k now h ∙ rw (q, seen, found_other h e q seen) refl
    ]
  ]

  without-deleted :
      (h : Bytes) → get_by_hash h (deleted_maps m c id k) ≡ without id (get_by_hash h m)
  without-deleted h = elim (Bool-cases (text_eq k.link.entry.token_hash h)) [
    | inl q ↦ get_by_hash-deleted m c id k h ∙ rw (q, found_own h q, own_id) refl
    | inr q ↦ elim (Option-cases (get_by_hash h m)) [
      | inl e ↦ get_by_hash-deleted m c id k h ∙ rw (q, e) refl
      | inr (e, seen) ↦ get_by_hash-deleted m c id k h ∙ rw (q, seen, found_other h e q seen) refl
    ]
  ]

module _ (codec : Codec) where
  -- The file store keeps the contract of a token store, in its valid states and for entries whose
  -- identifier and hash it does not hold.
  pub file_store-Contract : Contract (λ t. t) (file_store codec) Valid (λ e s. IsFresh e s.maps)
  file_store-Contract = record {
    get-save = λ e s c f saved.
        let state = maps-save codec s e in
        (
          subst IsConsistent (sym state) (put-IsConsistent s.maps c e f),
          λ h. ap (get_by_hash h) state ∙ get_by_hash-put s.maps c e h,
        );
    get-revoke = λ now id s c done. elim (Option-cases (lookup id s.maps.by_id)) [
      | inl q ↦ absurd (cc (done, maps-revoke_unknown codec s now id q))
      | inr (p, q) ↦
          let k = known_of_lookup s.maps c id p q in
          let state = (maps-revoke codec s c id k now).1 in
          (
            subst IsConsistent (sym state) (revoked_maps-IsConsistent s.maps c now id k),
            λ h. ap (get_by_hash h) state ∙ marked-revoked s.maps c id k now h,
          )
    ];
    get-delete = λ id s c done. elim (Option-cases (lookup id s.maps.by_id)) [
      | inl q ↦ absurd (cc (done, maps-delete_unknown codec s id q))
      | inr (p, q) ↦
          let k = known_of_lookup s.maps c id p q in
          let state = (maps-delete codec s c id k).1 in
          (
            subst IsConsistent (sym state) (deleted_maps-IsConsistent s.maps c id k),
            λ h. ap (get_by_hash h) state ∙ without-deleted s.maps c id k h,
          )
    ];
    get-looked_up = λ hash s c. (c, λ h. refl);
    get-listed = λ s c. (c, λ h. refl);
  }
