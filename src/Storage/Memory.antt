-- ===== src/Storage/Memory.antt =====
-- An object store that never fails, as a map from keys to bodies: the test double of
-- test/mocks/objectstorage-client.go with a state..
use gimme.Base.{
  Bytes, text_eq, text_eq_iff, if◌then◌else◌, true, false, ◌||◌, List, [], ◌∷◌, ◌++◌, Option, none,
  some, ◌≡◌, refl, ap, ◌∙◌, arith, Bool-cases, inl, inr,
}
use gimme.Strings.{has_prefix, cut, trim_prefix, slash}
use gimme.Dict.{lookup, insert, remove, lookup-insert, lookup-remove}
use gimme.Storage.{ObjectInfo, Body, ObjectStorageClient, listed_objects, keys_of}
use gimme.Storage.Laws.{holds, StoreLaws}

abbrev pub Memory : Type 0
Memory = List (Bytes × Body)

-- Every key of the prefix.
unfoldable pub infos : Bytes → Memory → List ObjectInfo
unfolding has_prefix
infos prefix [] = []
infos prefix ((k, v) ∷ w) =
    let rest = infos prefix w in
    if has_prefix k prefix then record { key = k; size = 0; failed = false } ∷ rest else rest

unfoldable pub remove_all : List Bytes → Memory → Memory
unfolding remove
remove_all [] w = w
remove_all (k ∷ ks) w = remove k (remove_all ks w)

-- The key up to the first slash behind the prefix.
abbrev pub up_to_slash : Bytes → Bytes → Bytes
up_to_slash prefix key =
    let (head, _, found) = cut (trim_prefix key prefix) slash in
    if found then prefix ++ (head ++ (slash ∷ [])) else key

-- The listing that does not recurse: each folder once.
unfoldable pub folders : Bytes → List ObjectInfo → List ObjectInfo
unfolding cut trim_prefix keys_of
folders prefix [] = []
folders prefix (o ∷ os) =
    let rest = folders prefix os in
    let folder = up_to_slash prefix o.key in
    if holds folder (keys_of rest) then rest else record o { key = folder } ∷ rest

abbrev pub memory_client : ObjectStorageClient Memory Body
memory_client = record {
  make_bucket = λ b l w. (true, w);
  bucket_exists = λ b w. some true;
  list_objects = λ b opts w.
      if opts.recursive then infos opts.prefix w else folders opts.prefix (infos opts.prefix w);
  put_object = λ b k body o w. (true, insert k body w);
  get_object = λ b k w. lookup k w;
  remove_objects = λ b ks w. ([], remove_all ks w);
}

abbrev pub stored_body : Memory → Bytes → Bytes → Option Body
stored_body w b k = lookup k w

remove_all-other :
    (ks : List Bytes) (w : Memory) (j : Bytes)
    → holds j ks ≡ false
    → lookup j (remove_all ks w) ≡ lookup j w
unfolding remove_all
remove_all-other [] w j h = refl
remove_all-other (k ∷ ks) w j h =
    ground (arith, lookup-remove k j (remove_all ks w), remove_all-other ks w j)

remove_all-held :
    (ks : List Bytes) (w : Memory) (j : Bytes)
    → holds j ks ≡ true
    → lookup j (remove_all ks w) ≡ none
unfolding remove_all
remove_all-held [] w j h = absurd (cc)
remove_all-held (k ∷ ks) w j h =
    ground (arith, lookup-remove k j (remove_all ks w), remove_all-held ks w j)

abbrev info_keys : Bytes → Memory → List Bytes
info_keys prefix w = keys_of (listed_objects (infos prefix w))

infos_sound :
    (prefix : Bytes) (w : Memory) (j : Bytes)
    → has_prefix j prefix ≡ false
    → holds j (info_keys prefix w) ≡ false
unfolding infos listed_objects keys_of
infos_sound prefix [] j h = refl
infos_sound prefix ((k, v) ∷ w) j h = elim (Bool-cases (has_prefix k prefix)) [
  | inr e ↦ rw e (infos_sound prefix w j h)
  | inl e ↦ elim (Bool-cases (text_eq k j)) [
    | inl q ↦ absurd (cc (h, e, (text_eq_iff k j).0 q))
    | inr q ↦ rw (e, q) (infos_sound prefix w j h)
  ]
]

not_held :
    (prefix : Bytes) (w : Memory) (j k : Bytes) (v : Body)
    → holds j (info_keys prefix ((k, v) ∷ w)) ≡ false
    → holds j (info_keys prefix w) ≡ false
unfolding infos listed_objects keys_of
not_held prefix w j k v g = elim (Bool-cases (has_prefix k prefix)) [
  | inl e ↦
      let listed : (text_eq k j || holds j (info_keys prefix w)) ≡ false = rw e at g in
      ground (arith)
  | inr e ↦ rw e at g
]

infos_complete :
    (prefix : Bytes) (w : Memory) (j : Bytes)
    → has_prefix j prefix ≡ true
    → holds j (info_keys prefix w) ≡ false
    → lookup j w ≡ none
unfolding infos listed_objects keys_of lookup
infos_complete prefix [] j h g = refl
infos_complete prefix ((k, v) ∷ w) j h g = elim (Bool-cases (text_eq k j)) [
  | inl q ↦
      let held : has_prefix k prefix ≡ true =
        ap (λ x. has_prefix x prefix) ((text_eq_iff k j).0 q) ∙ h in
      let listed : (text_eq k j || holds j (info_keys prefix w)) ≡ false = rw held at g in
      absurd (ground (arith))
  | inr q ↦ rw q (infos_complete prefix w j h (not_held prefix w j k v g))
]

pub memory-StoreLaws : StoreLaws memory_client stored_body
memory-StoreLaws = record {
  put_other = λ b k body o w j h. lookup-insert k j body w ∙ rw h refl;
  remove_other = λ b ks w j h. remove_all-other ks w j h;
  remove_held = λ b ks w j _ h. remove_all-held ks w j h;
  list_sound = λ b prefix w j h. infos_sound prefix w j h;
  list_complete = λ b prefix w j _ h g. infos_complete prefix w j h g;
}
