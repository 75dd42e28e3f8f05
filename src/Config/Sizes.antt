-- ===== src/Config/Sizes.antt =====
-- `parseSize`, its pattern and its multipliers, of configs/config.go. The floats of strconv are the
-- interface `Floats`; the pattern is matched by hand, greedily, which is the only way it matches.
use gimme.Base.{
  ℕ, ℤ, pos, ◌^◌, ◌-◌, Bytes, codes, text_eq, leb, ◌==◌, if◌then◌else◌, Bool, true, false, not,
  ◌&&◌, ◌||◌, List, [], ◌∷◌, ◌++◌, Option, none, some,
}
use gimme.Config.{Size}

-- `parse` is ParseFloat for 64 bits; `in_range` says that a float lies strictly between the bounds of
-- int64, and `to_int64` truncates it.
pub record Floats : Type 1 where
  pub F : Type 0
  pub parse : Bytes → Option F
  pub times : F → ℕ → F
  pub in_range : F → Bool
  pub to_int64 : F → ℤ

abbrev pub is_digit : ℕ → Bool
is_digit c = leb b'0' c && leb c b'9'

abbrev pub is_upper : ℕ → Bool
is_upper c = leb b'A' c && leb c b'Z'

abbrev pub is_lower : ℕ → Bool
is_lower c = leb b'a' c && leb c b'z'

abbrev pub is_alpha : ℕ → Bool
is_alpha c = is_upper c || is_lower c

-- The class \s of the pattern.
abbrev pub is_blank : ℕ → Bool
is_blank c = c == 32 || (c == 9 || (c == 10 || (c == 12 || c == 13)))

-- The longest prefix of such bytes, and the rest.
unfoldable pub span : (ℕ → Bool) → Bytes → Bytes × Bytes
span p [] = ([], [])
span p (c ∷ s) = let rest = span p s in if p c then (c ∷ rest.0, rest.1) else ([], c ∷ s)

abbrev after_sign : Bytes → Bytes × Bytes
after_sign [] = ([], [])
after_sign (c ∷ s) = if c == b'+' || c == b'-' then (c ∷ [], s) else ([], c ∷ s)

-- A dot with digits behind it; without them nothing is taken.
unfoldable pub fraction : Bytes → Bytes × Bytes
unfolding span text_eq
fraction [] = ([], [])
fraction (c ∷ s) =
    let (digits, rest) = span is_digit s in
    if c == b'.' && not (text_eq digits []) then (c ∷ digits, rest) else ([], c ∷ s)

-- The number and the unit of the text, if the pattern matches it.
unfoldable pub find_size : Bytes → Option (Bytes × Bytes)
unfolding span fraction text_eq
find_size raw =
    let (sign, unsigned) = after_sign (span is_blank raw).1 in
    let (digits, behind) = span is_digit unsigned in
    let (decimals, tail) = fraction behind in
    let (unit, ending) = span is_alpha (span is_blank tail).1 in
    if not (text_eq digits []) && text_eq (span is_blank ending).1 []
    then some (sign ++ (digits ++ decimals), unit)
    else none

abbrev pub upper : ℕ → ℕ
upper c = if is_lower c then c - 32 else c

abbrev pub to_upper : Bytes → Bytes
to_upper [] = []
to_upper (c ∷ s) = upper c ∷ to_upper s

abbrev size_multipliers : List (Bytes × ℕ)
size_multipliers =
    ([], 1)
    ∷ (codes "B", 1)
    ∷ (codes "KB", 2 ^ 10)
    ∷ (codes "KIB", 2 ^ 10)
    ∷ (codes "MB", 2 ^ 20)
    ∷ (codes "MIB", 2 ^ 20)
    ∷ (codes "GB", 2 ^ 30)
    ∷ (codes "GIB", 2 ^ 30)
    ∷ (codes "TB", 2 ^ 40)
    ∷ (codes "TIB", 2 ^ 40)
    ∷ []

abbrev multiplier_in : Bytes → List (Bytes × ℕ) → Option ℕ
multiplier_in unit [] = none
multiplier_in unit ((name, m) ∷ rest) =
    let later = multiplier_in unit rest in if text_eq name unit then some m else later

unfoldable pub multiplier_of : Bytes → Option ℕ
unfolding text_eq
multiplier_of unit = multiplier_in (to_upper unit) size_multipliers

module _ (floats : Floats) where
  abbrev pub fitting : floats.F → Option ℤ
  fitting f = if floats.in_range f then some (floats.to_int64 f) else none

  abbrev pub scaled : ℕ → Option floats.F → Option ℤ
  scaled m none = none
  scaled m (some f) = fitting (floats.times f m)

  abbrev pub scaled_by : Bytes → Option ℕ → Option ℤ
  scaled_by number none = none
  scaled_by number (some m) = scaled m (floats.parse number)

  abbrev pub parsed : Option (Bytes × Bytes) → Option ℤ
  parsed none = none
  parsed (some (number, unit)) = scaled_by number (multiplier_of unit)

  -- `none` stands for each of the errors.
  unfoldable pub parse_size : Bytes → Option ℤ
  unfolding find_size multiplier_of
  parse_size raw = parsed (find_size raw)

  abbrev size_of : Bytes → Option ℤ → Size
  size_of raw none = record { bytes = pos 0; raw = raw; failed = true }
  size_of raw (some n) = record { bytes = n; raw = raw; failed = false }

  -- `readSize` on the text of its key.
  unfoldable pub read_size : Bytes → Size
  unfolding parse_size
  read_size raw = size_of raw (parse_size raw)
