-- ===== src/Content/Paging.antt =====
-- The reference for `GetFiles`, and proofs about one page of the store.
use gimme.Base.{
  ℕ, zero, suc, ◌<◌, ◌==◌, Bytes, text_eq, text_eq_iff, ltb, if◌then◌else◌, Bool, true, false, ◌||◌,
  List, [], ◌∷◌, ◌++◌, length, length-append, All, ◌≡◌, inl, inr, refl, sym, ap, ◌∙◌, subst, arith,
  Bool-cases, Option-cases,
}
use gimme.Strings.{cut_suffix, cut_suffix-eq_some}
use gimme.Storage.{ObjectInfo, keys_of, take_page}
use gimme.Storage.Laws.{holds}
use gimme.Content.{brotli, gzip, Libraries, suffix}
use gimme.Content.Listing.{PagedFile, encodes, is_encoded_variant}

-- The order of the bytes, in which an object store lists its keys.
abbrev pub precedes : Bytes → Bytes → Bool
precedes [] [] = false
precedes [] (d ∷ t) = true
precedes (c ∷ s) [] = false
precedes (c ∷ s) (d ∷ t) =
    let rest = precedes s t in if ltb c d then true else if c == d then rest else false

abbrev pub Ordered : List ObjectInfo → Type 0
Ordered [] = Unit
Ordered (o ∷ os) = All (λ p. precedes o.key p.key ≡ true) os × Ordered os

-- The key at the end of a run of objects.
abbrev pub cursor_of : Bytes → List ObjectInfo → Bytes
cursor_of c [] = c
cursor_of c (o ∷ os) = cursor_of o.key os

abbrev pub seen_after : List ObjectInfo → List Bytes → List Bytes
seen_after [] seen = seen
seen_after (o ∷ os) seen = seen_after os (o.key ∷ seen)

abbrev pub first : ℕ → List PagedFile → List PagedFile
first zero fs = []
first (suc n) [] = []
first (suc n) (f ∷ fs) = f ∷ first n fs

-- The objects that are no encoded variant of one that came before, each with the key before it.
unfoldable pub shown : Libraries → Bytes → List Bytes → List ObjectInfo → List PagedFile
shown libs c seen [] = []
shown libs c seen (o ∷ os) =
    let rest = shown libs o.key (o.key ∷ seen) os in
    if is_encoded_variant libs o.key seen then rest else record { object = o; cursor = c } ∷ rest

-- What one page of a listing without failures is.
pub record PageOf (n : ℕ) (os : List ObjectInfo) (r : List ObjectInfo × Bool) : Type 0 where
  pub rest : List ObjectInfo
  pub whole : os ≡ r.0 ++ rest
  pub last : r.1 ≡ false → rest ≡ []
  pub progress : 0 < n → r.0 ≡ [] → os ≡ []

pub take_page-PageOf :
    (n : ℕ) (os : List ObjectInfo)
    → All (λ (o : ObjectInfo). o.failed ≡ false) os
    → PageOf n os (take_page n os)
unfolding take_page
take_page-PageOf n [] h = record {
  rest = [];
  whole = refl;
  last = λ q. refl;
  progress = λ q e. refl;
}
take_page-PageOf zero (o ∷ os) (p, h) =
    let shape : take_page zero (o ∷ os) ≡ ([], true) = ground (arith, p) in
    subst (PageOf zero (o ∷ os)) (sym shape) (record {
      rest = o ∷ os;
      whole = refl;
      last = λ q. absurd (cc);
      progress = λ q e. absurd (omega arith);
    })
take_page-PageOf (suc n) (o ∷ os) (p, h) =
    let r = take_page-PageOf n os h in
    let shape : take_page (suc n) (o ∷ os) ≡ (o ∷ (take_page n os).0, (take_page n os).1) =
      ground (arith, p) in
    subst (PageOf (suc n) (o ∷ os)) (sym shape) (record {
      rest = r.rest;
      whole = ap (λ x. o ∷ x) r.whole;
      last = r.last;
      progress = λ q e. absurd (cc);
    })

precedes_append : (s x : Bytes) → precedes (s ++ x) s ≡ false
precedes_append [] [] = refl
precedes_append [] (c ∷ x) = refl
precedes_append (c ∷ s) x = ground (arith, precedes_append s x)

text_eq_longer : (s x : Bytes) (c : ℕ) → text_eq (s ++ (c ∷ x)) s ≡ false
text_eq_longer s x c = elim (Bool-cases (text_eq (s ++ (c ∷ x)) s)) [
  | inr e ↦ e
  | inl e ↦
      let same = ap (λ (t : Bytes). length t) ((text_eq_iff (s ++ (c ∷ x)) s).0 e) in
      absurd (omega (arith, same, length-append {0} s (c ∷ x)))
]

-- No later key is what the key of an object encodes.
none_behind :
    (s x : Bytes) (os : List ObjectInfo)
    → All (λ p. precedes (s ++ x) p.key ≡ true) os
    → holds s (keys_of os) ≡ false
unfolding keys_of
none_behind s x [] h = refl
none_behind s x (o ∷ os) (p, h) = elim (Bool-cases (text_eq o.key s)) [
  | inr e ↦ rw e (none_behind s x os h)
  | inl e ↦
      let same : precedes (s ++ x) o.key ≡ precedes (s ++ x) s =
        ap (precedes (s ++ x)) ((text_eq_iff o.key s).0 e) in
      absurd (cc (p, same, precedes_append s x))
]

-- `known` has the keys of the rest of the page besides those seen.
abbrev pub Covers : List Bytes → List ObjectInfo → List Bytes → Type 0
Covers known os seen = (j : Bytes) → holds j known ≡ (holds j (keys_of os) || holds j seen)

pub Covers-step :
    (known seen : List Bytes) (o : ObjectInfo) (os : List ObjectInfo)
    → Covers known (o ∷ os) seen
    → Covers known os (o.key ∷ seen)
unfolding keys_of
Covers-step known seen o os h j = ground (arith, h j)

module _ (libs : Libraries) where
  encodes-same :
      (known seen : List Bytes) (o : ObjectInfo) (os : List ObjectInfo) (c : ℕ) (x : Bytes)
      → All (λ p. precedes o.key p.key ≡ true) os
      → Covers known (o ∷ os) seen
      → encodes libs (cut_suffix o.key (c ∷ x)) known ≡ encodes libs (cut_suffix o.key (c ∷ x)) seen
  unfolding keys_of
  encodes-same known seen o os c x up h = elim (Option-cases (cut_suffix o.key (c ∷ x))) [
    | inl e ↦ rw e refl
    | inr (s, e) ↦
        let split : o.key ≡ s ++ (c ∷ x) = cut_suffix-eq_some o.key (c ∷ x) s e in
        let later : holds s (keys_of os) ≡ false =
          none_behind s (c ∷ x) os
            (subst (λ k. All (λ (p : ObjectInfo). precedes k p.key ≡ true) os) split up) in
        let apart : text_eq o.key s ≡ false = ap (λ k. text_eq k s) split ∙ text_eq_longer s x c in
        rw e (ground (arith, h s, later, apart))
  ]

  pub is_encoded_variant-same :
      (known seen : List Bytes) (o : ObjectInfo) (os : List ObjectInfo)
      → All (λ p. precedes o.key p.key ≡ true) os
      → Covers known (o ∷ os) seen
      → is_encoded_variant libs o.key known ≡ is_encoded_variant libs o.key seen
  unfolding is_encoded_variant suffix
  is_encoded_variant-same known seen o os up h =
      ap (λ b. b || encodes libs (cut_suffix o.key (suffix gzip)) known)
        (encodes-same known seen o os b'.' (b'b' ∷ b'r' ∷ []) up h)
      ∙ ap (λ b. encodes libs (cut_suffix o.key (suffix brotli)) seen || b)
          (encodes-same known seen o os b'.' (b'g' ∷ b'z' ∷ []) up h)
