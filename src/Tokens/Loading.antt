-- ===== src/Tokens/Loading.antt =====
-- Proofs about the maps that the entries of a file are loaded into.
use gimme.Base.{
  Bytes, text_eq, text_eq_iff, if◌then◌else◌, List, [], ◌∷◌, Option, none, some, map, All, Distinct,
  ◌≡◌, ◌≢◌, refl, ◌∙◌, subst, arith, Bool-cases, inl, inr,
}
use gimme.Dict.{lookup, lookup-insert, text_eq-ne}
use gimme.Tokens.{TokenEntry}
use gimme.Tokens.FileStore.{Maps, empty_maps, put, put_all, get_by_hash}
use gimme.Tokens.Consistent.{IsConsistent, IsFresh, put-IsConsistent}
use gimme.Tokens.Views.{get_by_hash-put}

-- The first of the entries that has the hash.
abbrev pub find_hash : Bytes → List TokenEntry → Option TokenEntry
find_hash h [] = none
find_hash h (e ∷ es) = let rest = find_hash h es in if text_eq e.token_hash h then some e else rest

abbrev pub ids : List TokenEntry → List Bytes
ids = map (λ (e : TokenEntry). e.id)

abbrev pub token_hashes : List TokenEntry → List Bytes
token_hashes = map (λ (e : TokenEntry). e.token_hash)

abbrev pub AllFresh : List TokenEntry → Maps → Type 0
AllFresh es m = All (λ e. IsFresh e m) es

IsFresh-put :
    (e f : TokenEntry) (m : Maps)
    → e.id ≢ f.id
    → e.token_hash ≢ f.token_hash
    → IsFresh f m
    → IsFresh f (put e m)
unfolding put
IsFresh-put e f m i h new = record {
  id = lookup-insert e.id f.id m.heap.next m.by_id ∙ rw (text_eq-ne e.id f.id i) new.id;
  hash =
      lookup-insert e.token_hash f.token_hash m.heap.next m.by_hash
      ∙ rw (text_eq-ne e.token_hash f.token_hash h) new.hash;
}

AllFresh-put :
    (e : TokenEntry) (es : List TokenEntry) (m : Maps)
    → All (λ i. e.id ≢ i) (ids es)
    → All (λ h. e.token_hash ≢ h) (token_hashes es)
    → AllFresh es m
    → AllFresh es (put e m)
AllFresh-put e [] m i h new = tt
AllFresh-put e (f ∷ es) m (i, is) (h, hs) (new, more) =
    (IsFresh-put e f m i h new, AllFresh-put e es m is hs more)

abbrev pub found_or : Option TokenEntry → Option TokenEntry → Option TokenEntry
found_or none o = o
found_or (some e) o = some e

pub find_hash-absent :
    (h : Bytes) (es : List TokenEntry) → All (λ j. h ≢ j) (token_hashes es) → find_hash h es ≡ none
find_hash-absent h [] a = refl
find_hash-absent h (e ∷ es) (n, a) =
    ground (arith, find_hash-absent h es a, n, text_eq_iff e.token_hash h)

pub found_or_none : (o : Option TokenEntry) (h : Bytes) → found_or o (get_by_hash h empty_maps) ≡ o
unfolding get_by_hash lookup
found_or_none none h = refl
found_or_none (some e) h = refl

pub empty_maps-AllFresh : (es : List TokenEntry) → AllFresh es empty_maps
unfolding lookup
empty_maps-AllFresh [] = tt
empty_maps-AllFresh (e ∷ es) = (record { id = refl; hash = refl }, empty_maps-AllFresh es)

-- Entries with distinct keys, loaded into maps that know none of them, are found by their hashes.
pub put_all-found :
    (es : List TokenEntry) (m : Maps)
    → IsConsistent m
    → Distinct (ids es)
    → Distinct (token_hashes es)
    → AllFresh es m
    → IsConsistent (put_all es m)
      × ((h : Bytes) → get_by_hash h (put_all es m) ≡ found_or (find_hash h es) (get_by_hash h m))
unfolding put_all
put_all-found [] m c di dh new = (c, λ h. refl)
put_all-found (e ∷ es) m c (i, di) (n, dh) (new, more) =
    let (consistent, found) =
      put_all-found es (put e m) (put-IsConsistent m c e new) di dh
        (AllFresh-put e es m i n more) in
    (
      consistent,
      λ h. found h ∙ elim (Bool-cases (text_eq e.token_hash h)) [
        | inl q ↦
            let same : e.token_hash ≡ h = (text_eq_iff e.token_hash h).0 q in
            let gone =
              find_hash-absent h es (subst (λ k. All (λ j. k ≢ j) (token_hashes es)) same n) in
            rw (gone, get_by_hash-put m c e h, q) refl
        | inr q ↦ rw (get_by_hash-put m c e h, q) refl
      ],
    )
