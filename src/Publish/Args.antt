-- ===== src/Publish/Args.antt =====
-- `parsePush` of cmd/gimme-cli/main.go. Parsing the reordered flags is a parameter.
use gimme.Base.{Bytes, codes, ◌==◌, if◌then◌else◌, Bool, any, List, [], ◌∷◌, Option, none, some}
use gimme.Strings.{has_prefix}

pub record PushArgs : Type 0 where
  pub name : Bytes
  pub package_version : Bytes
  pub url : Bytes
  pub token : Bytes

abbrev pub is_flag : Bytes → Bool
is_flag arg = has_prefix arg (codes "-")

abbrev pub has_value : Bytes → Bool
has_value arg = any (λ c. c == b'=') arg

-- The flags with their values, and the other arguments.
abbrev pub Split : Type 0
Split = Option (List Bytes × List Bytes)

abbrev pub flag_before : Bytes → Split → Split
flag_before arg none = none
flag_before arg (some (flags, positionals)) = some (arg ∷ flags, positionals)

abbrev pub pair_before : Bytes → Bytes → Split → Split
pair_before arg value none = none
pair_before arg value (some (flags, positionals)) = some (arg ∷ value ∷ flags, positionals)

abbrev pub positional_before : Bytes → Split → Split
positional_before arg none = none
positional_before arg (some (flags, positionals)) = some (flags, arg ∷ positionals)

-- The loop over the arguments; `none` is a flag that lacks its value.
unfoldable pub reorder : List Bytes → Split
unfolding has_prefix
reorder [] = some ([], [])
reorder (arg ∷ []) =
    if is_flag arg then if has_value arg then some (arg ∷ [], []) else none else some ([], arg ∷ [])
reorder (arg ∷ value ∷ args) =
    let single = reorder (value ∷ args) in
    let pair = reorder args in
    if is_flag arg
    then if has_value arg
      then flag_before arg single
      else if is_flag value
      then none
      else pair_before arg value pair
    else positional_before arg single

abbrev exactly_one : Option PushArgs → List Bytes → Option (PushArgs × Bytes)
exactly_one none positionals = none
exactly_one (some a) (dir ∷ []) = some (a, dir)
exactly_one (some a) _ = none

module _ (parse_flags : List Bytes → Option PushArgs) where
  abbrev pub parsed : Split → Option (PushArgs × Bytes)
  parsed none = none
  parsed (some (flags, positionals)) = exactly_one (parse_flags flags) positionals

  unfoldable pub parse_push : List Bytes → Option (PushArgs × Bytes)
  unfolding reorder
  parse_push args = parsed (reorder args)
