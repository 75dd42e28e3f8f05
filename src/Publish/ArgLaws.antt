-- ===== src/Publish/ArgLaws.antt =====
-- Proofs about the order of the arguments of `push`.
use gimme.Base.{
  Bytes, true, false, List, [], ◌∷◌, ◌++◌, Option, none, some, ◌≡◌, refl, ap, ◌∙◌, subst,
  append-nil, Option-cases, inl, inr,
}
use gimme.Publish.Args.{
  PushArgs, is_flag, has_value, flag_before, pair_before, positional_before, reorder, parsed,
  parse_push,
}

-- A list of flags, each with its value, in the same argument or in the next.
pub data Flags : List Bytes → Type 0 where
  none_left : Flags []
  with_value :
      (arg : Bytes) (args : List Bytes)
      → is_flag arg ≡ true
      → has_value arg ≡ true
      → Flags args
      → Flags (arg ∷ args)
  then_value :
      (arg value : Bytes) (args : List Bytes)
      → is_flag arg ≡ true
      → has_value arg ≡ false
      → is_flag value ≡ false
      → Flags args
      → Flags (arg ∷ value ∷ args)

reorder_value :
    (arg : Bytes) (args : List Bytes)
    → is_flag arg ≡ true
    → has_value arg ≡ true
    → reorder (arg ∷ args) ≡ flag_before arg (reorder args)
unfolding reorder
reorder_value arg [] f v = rw (f, v) refl
reorder_value arg (b ∷ args) f v = rw (f, v, reorder) refl

reorder_pair :
    (arg value : Bytes) (args : List Bytes)
    → is_flag arg ≡ true
    → has_value arg ≡ false
    → is_flag value ≡ false
    → reorder (arg ∷ value ∷ args) ≡ pair_before arg value (reorder args)
unfolding reorder
reorder_pair arg value args f v g = rw (f, v, g, reorder) refl

reorder_positional :
    (arg : Bytes) (args : List Bytes)
    → is_flag arg ≡ false
    → reorder (arg ∷ args) ≡ positional_before arg (reorder args)
unfolding reorder
reorder_positional arg [] f = rw (f) refl
reorder_positional arg (b ∷ args) f = rw (f, reorder) refl

reorder-append :
    (before rest : List Bytes) (flags positionals : List Bytes)
    → Flags before
    → reorder rest ≡ some (flags, positionals)
    → reorder (before ++ rest) ≡ some (before ++ flags, positionals)
reorder-append _ rest flags positionals none_left h = h
reorder-append _ rest flags positionals (with_value arg args f v more) h =
    reorder_value arg (args ++ rest) f v
    ∙ ap (flag_before arg) (reorder-append args rest flags positionals more h)
reorder-append _ rest flags positionals (then_value arg value args f v g more) h =
    reorder_pair arg value (args ++ rest) f v g
    ∙ ap (pair_before arg value) (reorder-append args rest flags positionals more h)

reorder-Flags : (args : List Bytes) → Flags args → reorder args ≡ some (args, [])
unfolding reorder
reorder-Flags args f =
    let shape : args ++ [] ≡ args = append-nil args in
    subst (λ xs. reorder xs ≡ some (xs, [])) shape (reorder-append args [] [] [] f refl)

-- The arguments of the flags, with the directory.
abbrev pub with_directory : Bytes → Option PushArgs → Option (PushArgs × Bytes)
with_directory dir none = none
with_directory dir (some a) = some (a, dir)

parsed-one :
    (parse_flags : List Bytes → Option PushArgs) (flags : List Bytes) (dir : Bytes)
    → parsed parse_flags (some (flags, dir ∷ [])) ≡ with_directory dir (parse_flags flags)
parsed-one parse_flags flags dir = elim (Option-cases (parse_flags flags)) [
  | inl q ↦ rw (q) refl
  | inr (a, q) ↦ rw (q) refl
]

-- The directory may stand before, behind or between the flags: if every flag has its value, in the same
-- argument or in the next, the flags are parsed without the directory, in their order.
pub parse_push-Flags :
    (parse_flags : List Bytes → Option PushArgs) (dir : Bytes) (before behind : List Bytes)
    → is_flag dir ≡ false
    → Flags before
    → Flags behind
    → parse_push parse_flags (before ++ (dir ∷ behind))
      ≡ with_directory dir (parse_flags (before ++ behind))
unfolding parse_push
parse_push-Flags parse_flags dir before behind d f g =
    ap (parsed parse_flags) (
      reorder-append before (dir ∷ behind) behind (dir ∷ []) f
        (reorder_positional dir behind d ∙ ap (positional_before dir) (reorder-Flags behind g)))
    ∙ parsed-one parse_flags (before ++ behind) dir
