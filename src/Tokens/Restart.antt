-- ===== src/Tokens/Restart.antt =====
-- Proofs about a file store that is opened on the file of another.
use gimme.Base.{
  ℕ, Bytes, text_eq, text_eq_iff, true, List, [], ◌∷◌, none, some, All, Distinct, ◌≡◌, ◌≢◌, refl,
  sym, ap, ◌∙◌, subst, arith, Bool-cases, Option-cases, inl, inr,
}
use gimme.Dict.{lookup, keys, Listed, Distinct-Listed}
use gimme.Tokens.{TokenEntry}
use gimme.Tokens.Files.{Codec, CodecLaws, Disk, flush, read_file, flush-Atomic}
use gimme.Tokens.FileStore.{
  FileTokenStore, Maps, empty_maps, put, put_all, entries_of, get_by_hash, flush_maps,
  new_file_token_store, save,
}
use gimme.Tokens.Consistent.{IsConsistent, IsFresh, empty_maps-IsConsistent, put-IsConsistent}
use gimme.Tokens.Views.{get_by_hash-HashLinked}
use gimme.Tokens.Reach.{Valid, maps-save}
use gimme.Tokens.Loading.{
  find_hash, ids, token_hashes, put_all-found, found_or_none, empty_maps-AllFresh,
}

module _ (m : Maps) (c : IsConsistent m) where
  ids-entries_of :
      (bs : List (Bytes × ℕ)) → Listed m.by_id bs → ids (entries_of m.heap bs) ≡ keys bs
  unfolding entries_of
  ids-entries_of [] l = refl
  ids-entries_of ((k, p) ∷ bs) (at, l) =
      let link = c.ids k p at in rw (link.stored, link.same_id, ids-entries_of bs l) refl

  -- The entry of a binding shares its hash with no entry of a binding of another key.
  apart_hashes :
      (k : Bytes) (p : ℕ) (e : TokenEntry) (bs : List (Bytes × ℕ))
      → lookup e.token_hash m.by_hash ≡ some p
      → m.heap.cell p ≡ some e
      → e.id ≡ k
      → All (λ j. k ≢ j) (keys bs)
      → Listed m.by_id bs
      → All (λ h. e.token_hash ≢ h) (token_hashes (entries_of m.heap bs))
  unfolding entries_of
  apart_hashes k p e [] hashed stored same a l = tt
  apart_hashes k p e ((j, q) ∷ bs) hashed stored same (n, a) (at, l) =
      let link = c.ids j q at in
      let rest = apart_hashes k p e bs hashed stored same a l in
      let apart : e.token_hash ≢ link.entry.token_hash = λ x.
        let one : p ≡ q = ground (arith, hashed, link.by_hash, x) in
        let entry : e ≡ link.entry = cc (stored, link.stored, one) in
        n (sym same ∙ ap (λ (y : TokenEntry). y.id) entry ∙ link.same_id) in
      rw (link.stored) (apart, rest)

  hashes-entries_of :
      (bs : List (Bytes × ℕ))
      → Distinct (keys bs)
      → Listed m.by_id bs
      → Distinct (token_hashes (entries_of m.heap bs))
  unfolding entries_of
  hashes-entries_of [] d l = tt
  hashes-entries_of ((k, p) ∷ bs) (n, d) (at, l) =
      let link = c.ids k p at in
      let rest = hashes-entries_of bs d l in
      let apart = apart_hashes k p link.entry bs link.by_hash link.stored link.same_id n l in
      rw (link.stored) (apart, rest)

  -- An entry that is listed under a hash is what the hash leads to.
  find_hash-entries_of :
      (h : Bytes) (e : TokenEntry) (bs : List (Bytes × ℕ))
      → Listed m.by_id bs
      → find_hash h (entries_of m.heap bs) ≡ some e
      → get_by_hash h m ≡ some e
  unfolding entries_of get_by_hash
  find_hash-entries_of h e [] l f = cc
  find_hash-entries_of h e ((k, p) ∷ bs) (at, l) f =
      let link = c.ids k p at in
      ground (
        arith,
        link.stored,
        link.by_hash,
        find_hash-entries_of h e bs l,
        text_eq_iff link.entry.token_hash h,
      )

  -- What a hash leads to is listed.
  find_hash_listed :
      (h : Bytes) (e : TokenEntry) (p : ℕ) (bs : List (Bytes × ℕ))
      → lookup e.id bs ≡ some p
      → m.heap.cell p ≡ some e
      → e.token_hash ≡ h
      → find_hash h (entries_of m.heap bs) ≢ none
  unfolding entries_of lookup
  find_hash_listed h e p [] at stored same = λ f. cc
  find_hash_listed h e p ((k, q) ∷ bs) at stored same = elim (Bool-cases (text_eq k e.id)) [
    | inl s ↦
        let here : m.heap.cell q ≡ some e = ground (arith, at, stored, s) in
        let own : text_eq e.token_hash h ≡ true = (text_eq_iff e.token_hash h).1 same in
        rw (here, own) (λ f. cc)
    | inr s ↦
        let behind : lookup e.id bs ≡ some p = ground (arith, at, s) in
        let rest = find_hash_listed h e p bs behind stored same in
        elim (Option-cases (m.heap.cell q)) [
          | inl n ↦ rw (n) rest
          | inr (f, n) ↦ elim (Bool-cases (text_eq f.token_hash h)) [
            | inl t ↦ rw (n, t) (λ x. cc)
            | inr t ↦ rw (n, t) rest
          ]
        ]
  ]

  -- The entries of the maps, searched by hash, are the maps.
  pub find_hash_maps : (h : Bytes) → find_hash h (entries_of m.heap m.by_id) ≡ get_by_hash h m
  find_hash_maps h =
      let listed = Distinct-Listed m.by_id c.distinct in
      elim (Option-cases (find_hash h (entries_of m.heap m.by_id))) [
        | inr (e, f) ↦ f ∙ sym (find_hash-entries_of h e m.by_id listed f)
        | inl f ↦ elim (Option-cases (get_by_hash h m)) [
          | inl g ↦ f ∙ sym g
          | inr (e, g) ↦
              let (p, _, stored, same, at) = get_by_hash-HashLinked m c h e g in
              absurd (find_hash_listed h e p m.by_id at stored same f)
        ]
      ]

  -- The maps that the entries of consistent maps are loaded into.
  pub put_all-entries_of :
      IsConsistent (put_all (entries_of m.heap m.by_id) empty_maps)
      × ((h : Bytes)
          → get_by_hash h (put_all (entries_of m.heap m.by_id) empty_maps) ≡ get_by_hash h m)
  put_all-entries_of =
      let listed = Distinct-Listed m.by_id c.distinct in
      let es = entries_of m.heap m.by_id in
      let (consistent, found) =
        put_all-found es empty_maps empty_maps-IsConsistent
          (subst Distinct (sym (ids-entries_of m.by_id listed)) c.distinct)
          (hashes-entries_of m.by_id c.distinct listed) (empty_maps-AllFresh es) in
      (consistent, λ h. found h ∙ found_or_none (find_hash h es) h ∙ find_hash_maps h)

-- What a store that is opened on a disk has to be: valid, and the same function of hashes.
pub record Reopened (codec : Codec) (m : Maps) (d : Disk) : Type 0 where
  pub store : FileTokenStore
  pub opened : new_file_token_store codec d ≡ some store
  pub valid : Valid store
  pub same : (h : Bytes) → get_by_hash h store.maps ≡ get_by_hash h m

opened_on :
    (codec : Codec) (d : Disk) (es : List TokenEntry)
    → read_file codec d ≡ some es
    → new_file_token_store codec d ≡ some (record { maps = put_all es empty_maps; disk = d })
unfolding new_file_token_store
opened_on codec d es h = rw (h, new_file_token_store) refl

module _ (codec : Codec) (laws : CodecLaws codec) where
  flush_maps-Reopened :
      (m : Maps) (d : Disk)
      → IsConsistent m
      → (flush_maps codec m d).0 ≡ true
      → Reopened codec m (flush_maps codec m d).1.disk
  unfolding flush_maps
  flush_maps-Reopened m d c done = elim (flush-Atomic codec laws (entries_of m.heap m.by_id) d).0 [
    | inr (failed, _) ↦ absurd (cc (failed, done))
    | inl (_, read) ↦
        let (consistent, same) = put_all-entries_of m c in
        record {
          store = record {
            maps = put_all (entries_of m.heap m.by_id) empty_maps;
            disk = (flush codec (entries_of m.heap m.by_id) d).1;
          };
          opened = opened_on codec _ _ read;
          valid = consistent;
          same = same;
        }
  ]

  -- With the laws of the codec, from a valid store: when a new entry is saved
  -- and the save reports success, a store that is opened on the file is valid and finds under every hash
  -- what the saved store finds.
  pub save-Reopened :
      (e : TokenEntry) (s : FileTokenStore)
      → Valid s
      → IsFresh e s.maps
      → (save codec e s).0 ≡ true
      → Reopened codec (save codec e s).1.maps (save codec e s).1.disk
  unfolding save
  save-Reopened e s v new done =
      subst (λ m. Reopened codec m (save codec e s).1.disk) (sym (maps-save codec s e))
        (flush_maps-Reopened (put e s.maps) s.disk (put-IsConsistent s.maps v e new) done)
