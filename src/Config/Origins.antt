-- ===== src/Config/Origins.antt =====
-- `splitOrigins` of configs/config.go, with proofs about it.
use gimme.Base.{Bytes, text_eq, if◌then◌else◌, List, [], ◌∷◌, ◌++◌}
use gimme.Strings.{split, trim_space}

abbrev pub trimmed_origins : List Bytes → List Bytes
trimmed_origins [] = []
trimmed_origins (o ∷ os) =
    let rest = trimmed_origins os in if text_eq (trim_space o) [] then rest else trim_space o ∷ rest

unfoldable pub split_origins : List Bytes → List Bytes
unfolding split trim_space text_eq
split_origins [] = []
split_origins (item ∷ raw) = trimmed_origins (split item b',') ++ split_origins raw
