-- ===== src/Strings/Space.antt =====
-- strings.TrimSpace, TrimLeft, ToLower and EqualFold on ASCII bytes.
use gimme.Base.{
  ℕ, ◌+◌, Bytes, ◌==◌, leb, text_eq, if◌then◌else◌, Bool, ◌&&◌, ◌||◌, [], ◌∷◌, reverse, map,
}

-- The ASCII white space of unicode.IsSpace.
unfoldable pub is_space : ℕ → Bool
is_space c = (leb 9 c && leb c 13) || c == 32

-- strings.TrimLeftFunc
unfoldable pub trim_left : (ℕ → Bool) → Bytes → Bytes
trim_left p [] = []
trim_left p (c ∷ s) = let rest = trim_left p s in if p c then rest else c ∷ s

unfoldable pub trim_right : (ℕ → Bool) → Bytes → Bytes
unfolding trim_left
trim_right p s = reverse (trim_left p (reverse s))

unfoldable pub trim_space : Bytes → Bytes
unfolding trim_right is_space
trim_space s = trim_right is_space (trim_left is_space s)

unfoldable pub lower : ℕ → ℕ
lower c = if leb b'A' c && leb c b'Z' then c + 32 else c

unfoldable pub to_lower : Bytes → Bytes
unfolding lower
to_lower s = map lower s

unfoldable pub equal_fold : Bytes → Bytes → Bool
unfolding to_lower text_eq
equal_fold s t = text_eq (to_lower s) (to_lower t)
