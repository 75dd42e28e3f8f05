-- ===== src/Strings/Split.antt =====
-- strings.Cut, Split, SplitN(…, 2) and Join at a one-byte separator.
use gimme.Base.{
  ℕ, Bytes, ◌==◌, ==_refl, if◌then◌else◌, ◌≡◌, refl, ap, ◌∙◌, ◌≢◌, inl, inr, Bool, true, false,
  List, [], ◌∷◌, ◌++◌, arith, All, Bool-cases,
}

-- The part before the first separator, the part behind it, and whether there is one.
unfoldable pub cut : Bytes → ℕ → Bytes × Bytes × Bool
cut [] sep = ([], [], false)
cut (c ∷ s) sep =
    let (before, after, found) = cut s sep in
    if c == sep then ([], s, true) else (c ∷ before, after, found)

abbrev pub before : Bytes → ℕ → Bytes
before s sep = (cut s sep).0

-- strings.SplitN(s, sep, 2)
unfoldable pub split_two : Bytes → ℕ → List Bytes
unfolding cut
split_two s sep = let (head, rest, found) = cut s sep in if found then head ∷ rest ∷ [] else s ∷ []

unfoldable pub push_head : ℕ → List Bytes → List Bytes
push_head c [] = (c ∷ []) ∷ []
push_head c (p ∷ ps) = (c ∷ p) ∷ ps

unfoldable pub split : Bytes → ℕ → List Bytes
unfolding push_head
split [] sep = [] ∷ []
split (c ∷ s) sep = let rest = split s sep in if c == sep then [] ∷ rest else push_head c rest

unfoldable pub join : List Bytes → ℕ → Bytes
join [] sep = []
join (p ∷ []) sep = p
join (p ∷ q ∷ ps) sep = p ++ (sep ∷ join (q ∷ ps) sep)

-- The byte does not occur.
abbrev pub Lacks : ℕ → Bytes → Type 0
Lacks b = All (λ c. c ≢ b)

push_head-Lacks :
    (c sep : ℕ) (ps : List Bytes) → c ≢ sep → All (Lacks sep) ps → All (Lacks sep) (push_head c ps)
unfolding push_head
push_head-Lacks c sep [] n h = ((n, tt), tt)
push_head-Lacks c sep (p ∷ ps) n (hp, hps) = ((n, hp), hps)

-- No part holds the separator.
pub split-Lacks : (s : Bytes) (sep : ℕ) → All (Lacks sep) (split s sep)
unfolding split
split-Lacks [] sep = (tt, tt)
split-Lacks (c ∷ s) sep = elim (Bool-cases (c == sep)) [
  | inl e ↦ rw e (tt, split-Lacks s sep)
  | inr e ↦ rw e (push_head-Lacks c sep (split s sep) (λ q. ground arith) (split-Lacks s sep))
]

pub cut-append : (s t : Bytes) (sep : ℕ) → Lacks sep s → cut (s ++ (sep ∷ t)) sep ≡ (s, t, true)
unfolding cut
cut-append [] t sep h = rw (==_refl sep)
cut-append (c ∷ s) t sep (n, h) = ground (arith, cut-append s t sep h)

pub cut-eq_Lacks : (s : Bytes) (sep : ℕ) → Lacks sep s → cut s sep ≡ (s, [], false)
unfolding cut
cut-eq_Lacks [] sep h = refl
cut-eq_Lacks (c ∷ s) sep (n, h) = ground (arith, cut-eq_Lacks s sep h)

split-cons_cut :
    (s t : Bytes) (sep : ℕ) → Lacks sep s → split (s ++ (sep ∷ t)) sep ≡ s ∷ split t sep
unfolding split
split-cons_cut [] t sep h = rw (==_refl sep)
split-cons_cut (c ∷ s) t sep (n, h) = ground (arith, split-cons_cut s t sep h)

pub split-eq_Lacks : (s : Bytes) (sep : ℕ) → Lacks sep s → split s sep ≡ s ∷ []
unfolding split
split-eq_Lacks [] sep h = refl
split-eq_Lacks (c ∷ s) sep (n, h) = ground (arith, split-eq_Lacks s sep h)

-- Splitting a join gives the parts back.
pub split-join :
    (p : Bytes) (ps : List Bytes) (sep : ℕ)
    → All (Lacks sep) (p ∷ ps)
    → split (join (p ∷ ps) sep) sep ≡ p ∷ ps
unfolding join
split-join p [] sep (h, _) = split-eq_Lacks p sep h
split-join p (q ∷ ps) sep (h, hs) =
    split-cons_cut p (join (q ∷ ps) sep) sep h ∙ ap (λ r. p ∷ r) (split-join q ps sep hs)

pub join-cons :
    (p : Bytes) (ps : List Bytes) (sep : ℕ) → ps ≢ [] → join (p ∷ ps) sep ≡ p ++ (sep ∷ join ps sep)
unfolding join
join-cons p [] sep h = absurd (h refl)
join-cons p (q ∷ ps) sep h = refl
