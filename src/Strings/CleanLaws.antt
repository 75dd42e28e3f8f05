-- ===== src/Strings/CleanLaws.antt =====
-- What a cleaned relative path that does not climb is made of.
use mathlib.Core.List.{reverse_aux}
use gimme.Base.{
  Bytes, codes, text_eq, text_eq_iff, Bool, true, false, ◌||◌, List, [], ◌∷◌, reverse, ◌≡◌, ◌≢◌,
  ◌⊎◌, inl, inr, refl, All, arith, Bool-cases,
}
use gimme.Strings.Affix.{has_prefix, has_prefix-append}
use gimme.Strings.Split.{split, split-Lacks, join, Lacks}
use gimme.Strings.Clean.{slash, dot, dot_dot, leave, resolve, resolve_all, is_rooted, or_dot, clean}

-- A path segment that names something inside its directory.
abbrev pub IsSafe : Bytes → Type 0
IsSafe s = (s ≢ []) × (s ≢ dot) × (s ≢ dot_dot) × Lacks slash s

-- Safe segments above a run of `..`, none of them under a safe one.
data Shape : List Bytes → Type 0 where
  empty : Shape []
  climb : (st : List Bytes) → All (λ s. s ≡ dot_dot) st → Shape (dot_dot ∷ st)
  enter : (s : Bytes) (st : List Bytes) → IsSafe s → Shape st → Shape (s ∷ st)

leave-Shape : (st : List Bytes) → Shape st → Shape (leave false st)
unfolding leave
leave-Shape [] h = climb [] tt
leave-Shape (top ∷ st) (climb _ h) =
    rw ((text_eq_iff dot_dot dot_dot).1 refl) (climb (dot_dot ∷ st) (refl, h))
leave-Shape (top ∷ st) (enter _ _ h sh) = elim (Bool-cases (text_eq top dot_dot)) [
  | inl e ↦ absurd (h.2 ((text_eq_iff top dot_dot).0 e))
  | inr e ↦ rw e sh
]

resolve-Shape :
    (st : List Bytes) (s : Bytes) → Shape st → Lacks slash s → Shape (resolve false st s)
unfolding resolve
resolve-Shape st s h n = elim (Bool-cases (text_eq s [])) [
  | inl e ↦ rw e h
  | inr e ↦ elim (Bool-cases (text_eq s dot)) [
    | inl e' ↦ rw (e, e') h
    | inr e' ↦ elim (Bool-cases (text_eq s dot_dot)) [
      | inl e'' ↦ rw (e, e', e'') (leave-Shape st h)
      | inr e'' ↦
          rw (e, e', e'')
            (enter s st
              (
                λ q. ground (arith, text_eq_iff s []),
                λ q. ground (arith, text_eq_iff s dot),
                λ q. ground (arith, text_eq_iff s dot_dot),
                n,
              )
              h)
    ]
  ]
]

resolve_all-Shape :
    (st ss : List Bytes) → Shape st → All (Lacks slash) ss → Shape (resolve_all false st ss)
unfolding resolve_all
resolve_all-Shape st [] h _ = h
resolve_all-Shape st (s ∷ ss) h (n, ns) =
    resolve_all-Shape (resolve false st s) ss (resolve-Shape st s h n) ns

-- The path as it is written climbs, or all its segments are safe.
abbrev Climbs : List Bytes → Type 0
Climbs segs = (rest : List Bytes) × (segs ≡ dot_dot ∷ rest)

reverse_dots :
    (st out : List Bytes) → All (λ s. s ≡ dot_dot) st → Climbs (reverse_aux st (dot_dot ∷ out))
reverse_dots [] out h = (out, refl)
reverse_dots (s ∷ st) out (e, h) = rw e (reverse_dots st (dot_dot ∷ out) h)

reverse-Shape :
    (st out : List Bytes)
    → Shape st
    → All IsSafe out
    → All IsSafe (reverse_aux st out) ⊎ Climbs (reverse_aux st out)
reverse-Shape [] out h k = inl k
reverse-Shape (s ∷ st) out (climb _ h) k = inr (reverse_dots st out h)
reverse-Shape (s ∷ st) out (enter _ _ h sh) k = reverse-Shape st (s ∷ out) sh (h, k)

-- The tests of `validatedEntries` on a cleaned name.
unfoldable pub escapes : Bytes → Bool
escapes cleaned =
    text_eq cleaned dot
    || text_eq cleaned dot_dot
    || has_prefix cleaned (codes "../")
    || has_prefix cleaned (codes "/")

-- A name written as safe segments.
abbrev pub Nested : Bytes → Type 0
Nested name = (segs : List Bytes) × (segs ≢ []) × All IsSafe segs × (name ≡ join segs slash)

climb-escapes : (rest : List Bytes) → escapes (join (dot_dot ∷ rest) slash) ≡ true
unfolding escapes join
climb-escapes [] = ground (arith, text_eq_iff dot_dot dot_dot)
climb-escapes (q ∷ rest) = ground (arith, has_prefix-append (codes "../") (join (q ∷ rest) slash))

or_dot_cases : (s : Bytes) → (or_dot s ≡ dot) ⊎ (or_dot s ≡ s)
unfolding or_dot
or_dot_cases [] = inl refl
or_dot_cases (c ∷ s) = inr refl

escapes-dot : escapes dot ≡ true
unfolding escapes
escapes-dot = ground (arith, text_eq_iff dot dot)

escapes_rooted : (s : Bytes) → escapes (slash ∷ s) ≡ true
unfolding escapes
escapes_rooted s = ground (arith, has_prefix-append (slash ∷ []) s)

relative-Nested :
    (segs : List Bytes)
    → All IsSafe segs ⊎ Climbs segs
    → escapes (or_dot (join segs slash)) ≡ false
    → Nested (or_dot (join segs slash))
unfolding or_dot
relative-Nested [] h e = unfold join in absurd (cc escapes-dot)
relative-Nested (s ∷ ss) h e = elim (or_dot_cases (join (s ∷ ss) slash)) [
  | inl q ↦ absurd (cc (escapes-dot, q))
  | inr q ↦ elim h [
    | inl safe ↦ (s ∷ ss, λ p. cc, safe, q)
    | inr (rest, p) ↦ absurd (cc (climb-escapes rest, p, q))
  ]
]

-- A cleaned path that passes the tests is made of safe segments.
pub clean-Nested : (path : Bytes) → escapes (clean path) ≡ false → Nested (clean path)
unfolding clean
clean-Nested path h = elim (Bool-cases (is_rooted path)) [
  | inl e ↦ absurd (
      cc
        (escapes_rooted (join (reverse (resolve_all true [] (split path slash))) slash), rw e at h))
  | inr e ↦ rw e (
      relative-Nested (reverse (resolve_all false [] (split path slash)))
        (reverse-Shape (resolve_all false [] (split path slash)) []
          (resolve_all-Shape [] (split path slash) empty (split-Lacks path slash)) tt)
        (rw e at h))
]
