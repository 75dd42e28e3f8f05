-- ===== src/Strings/Affix.antt =====
-- strings.CutPrefix, CutSuffix, HasPrefix, HasSuffix, TrimPrefix, TrimSuffix and Contains.
use mathlib.Core.Option
use gimme.Base.{
  ℕ, Bytes, length, length-append, text_eq, text_eq_iff, text_eq_refl, ◌==◌, if◌then◌else◌, ◌≡◌,
  refl, ap, inl, inr, Bool, true, false, ◌||◌, Option, none, some, [], ◌∷◌, ◌++◌, arith, Bool-cases,
  Option-cases,
}

unfoldable pub cut_prefix : Bytes → Bytes → Option Bytes
cut_prefix s [] = some s
cut_prefix [] (p ∷ ps) = none
cut_prefix (c ∷ s) (p ∷ ps) = if c == p then cut_prefix s ps else none

abbrev pub is_found : Option Bytes → Bool
is_found none = false
is_found (some _) = true

abbrev pub found_or : Bytes → Option Bytes → Bytes
found_or s none = s
found_or s (some r) = r

unfoldable pub has_prefix : Bytes → Bytes → Bool
unfolding cut_prefix
has_prefix s p = is_found (cut_prefix s p)

unfoldable pub trim_prefix : Bytes → Bytes → Bytes
unfolding cut_prefix
trim_prefix s p = found_or s (cut_prefix s p)

unfoldable pub cut_suffix : Bytes → Bytes → Option Bytes
unfolding text_eq
cut_suffix [] x = if text_eq [] x then some [] else none
cut_suffix (c ∷ s) x =
    let shorter = Option.map (λ r. c ∷ r) (cut_suffix s x) in
    if text_eq (c ∷ s) x then some [] else shorter

unfoldable pub has_suffix : Bytes → Bytes → Bool
unfolding cut_suffix
has_suffix s x = is_found (cut_suffix s x)

unfoldable pub trim_suffix : Bytes → Bytes → Bytes
unfolding cut_suffix
trim_suffix s x = found_or s (cut_suffix s x)

-- strings.Contains
unfoldable pub contains : Bytes → Bytes → Bool
unfolding has_prefix
contains [] x = has_prefix [] x
contains (c ∷ s) x = has_prefix (c ∷ s) x || contains s x

pub cut_prefix-eq_some : (s p r : Bytes) → cut_prefix s p ≡ some r → s ≡ p ++ r
unfolding cut_prefix
cut_prefix-eq_some s [] r h = ground arith
cut_prefix-eq_some [] (p ∷ ps) r h = cc
cut_prefix-eq_some (c ∷ s) (p ∷ ps) r h = ground (arith, cut_prefix-eq_some s ps r)

pub cut_prefix-append : (p r : Bytes) → cut_prefix (p ++ r) p ≡ some r
unfolding cut_prefix
cut_prefix-append [] r = refl
cut_prefix-append (c ∷ p) r = ground (arith, cut_prefix-append p r)

pub has_prefix-append : (p r : Bytes) → has_prefix (p ++ r) p ≡ true
unfolding has_prefix
has_prefix-append p r = rw (cut_prefix-append p r)

pub trim_prefix-append : (p r : Bytes) → trim_prefix (p ++ r) p ≡ r
unfolding trim_prefix
trim_prefix-append p r = rw (cut_prefix-append p r)

pub trim_prefix-absent : (s p : Bytes) → has_prefix s p ≡ false → trim_prefix s p ≡ s
unfolding has_prefix trim_prefix
trim_prefix-absent s p h = elim (Option-cases (cut_prefix s p)) [
  | inl e ↦ rw e refl
  | inr (r, e) ↦ absurd (cc (e, h))
]

pub has_prefix-true : (s p : Bytes) → has_prefix s p ≡ true → (r : Bytes) × (s ≡ p ++ r)
unfolding has_prefix
has_prefix-true s p h = elim (Option-cases (cut_prefix s p)) [
  | inl e ↦ absurd (ground arith)
  | inr (r, e) ↦ (r, cut_prefix-eq_some s p r e)
]

pub cut_suffix-eq_some : (s x r : Bytes) → cut_suffix s x ≡ some r → s ≡ r ++ x
unfolding cut_suffix
cut_suffix-eq_some [] x r h = ground (arith, text_eq_iff [] x)
cut_suffix-eq_some (c ∷ s) x r h = elim (Bool-cases (text_eq (c ∷ s) x)) [
  | inl e ↦ ground (arith, text_eq_iff (c ∷ s) x)
  | inr e ↦ elim (Option-cases (cut_suffix s x)) [
    | inl e' ↦ absurd (ground arith)
    | inr (r', e') ↦ ground (arith, cut_suffix-eq_some s x r')
  ]
]

text_eq-longer : (c : ℕ) (r x : Bytes) → text_eq (c ∷ (r ++ x)) x ≡ false
text_eq-longer c r x = elim (Bool-cases (text_eq (c ∷ (r ++ x)) x)) [
  | inl e ↦
      absurd
        (omega (arith, ap (λ (t : Bytes). length t) ((text_eq_iff _ _).0 e), length-append {0} r x))
  | inr e ↦ e
]

pub cut_suffix-append : (r x : Bytes) → cut_suffix (r ++ x) x ≡ some r
unfolding cut_suffix
cut_suffix-append [] [] = refl
cut_suffix-append [] (c ∷ x) = ground (arith, text_eq_refl (c ∷ x))
cut_suffix-append (c ∷ r) x = rw (text_eq-longer c r x, cut_suffix-append r x)

pub trim_suffix-append : (r x : Bytes) → trim_suffix (r ++ x) x ≡ r
unfolding trim_suffix
trim_suffix-append r x = rw (cut_suffix-append r x)
