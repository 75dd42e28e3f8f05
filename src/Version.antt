-- ===== src/Version.antt =====
-- The versions of internal/content/content-service.go: which stored version a requested one matches,
-- the aliases of a version, and the identity of a package. golang.org/x/mod/semver is a parameter.
pub mod Aliases
pub mod Resolve
pub mod Tests
use gimme.Base.{
  ℕ, suc, Bytes, codes, text_eq, ltb, leb, ◌==◌, if◌then◌else◌, Bool, true, false, not, ◌&&◌, ◌||◌,
  List, [], ◌∷◌, ◌++◌, Option, none, some, length, map, keep, reverse,
}
use gimme.Strings.{split, split_two, join, trim_prefix, trim_suffix, slash}
use gimme.Errors.{Failure, invalid_name, invalid_version}

pub record Semver : Type 0 where
  pub is_semver : Bytes → Bool
  pub prerelease : Bytes → Bytes
  pub major : Bytes → Bytes
  pub major_minor : Bytes → Bytes
  -- In increasing order.
  pub sort : List Bytes → List Bytes

abbrev pub latest : Bytes
latest = codes "latest"

abbrev pub with_v : Bytes → Bytes
with_v s = b'v' ∷ s

abbrev pub first_part : List Bytes → Bytes
first_part [] = []
first_part (p ∷ ps) = p

-- A version without its pre-release and build suffixes.
unfoldable pub base_version : Bytes → Bytes
unfolding split_two
base_version version = first_part (split_two (first_part (split_two version b'-')) b'+')

unfoldable pub version_parts : Bytes → List Bytes
unfolding base_version split
version_parts version = split (base_version version) b'.'

unfoldable pub is_name_char : ℕ → Bool
is_name_char c =
    leb b'A' c && leb c b'Z'
    || leb b'a' c && leb c b'z'
    || leb b'0' c && leb c b'9'
    || c == b'.'
    || c == b'_'
    || c == b'-'

all_name_chars : Bytes → Bool
all_name_chars [] = true
all_name_chars (c ∷ s) = is_name_char c && all_name_chars s

-- `packageNamePattern`
unfoldable pub is_package_name : Bytes → Bool
unfolding all_name_chars is_name_char text_eq
is_package_name name = not (text_eq name []) && all_name_chars name

module _ (semver : Semver) where
  open semver use {is_semver, prerelease, major, major_minor, sort}

  unfoldable pub version_matches : Bytes → Bytes → Bool
  unfolding text_eq split
  version_matches candidate requested =
      let parts = length (split requested b'.') in
      if not (is_semver (with_v candidate))
      then false
      else if text_eq requested latest
      then text_eq (prerelease (with_v candidate)) []
      else if text_eq candidate requested
      then true
      else if leb 3 parts || not (text_eq (prerelease (with_v candidate)) [])
      then false
      else if parts == 1
      then text_eq (major (with_v candidate)) (with_v requested)
      else if parts == 2
      then text_eq (major_minor (with_v candidate)) (with_v requested)
      else false

  unfoldable pub is_full_semver : Bytes → Bool
  unfolding version_parts
  is_full_semver version = length (version_parts version) == 3 && is_semver (with_v version)

  unfoldable pub is_pinned_version : Bytes → Bool
  unfolding is_full_semver text_eq
  is_pinned_version version =
      if not (is_full_semver version) then false else text_eq (prerelease (with_v version)) []

  -- `none` is a valid identity.
  unfoldable pub validate_package_identity : Bytes → Bytes → Option Failure
  unfolding is_package_name is_full_semver
  validate_package_identity name version =
      if not (is_package_name name)
      then some (invalid_name name)
      else if not (is_full_semver version)
      then some (invalid_version version)
      else none

  -- The version that a listed prefix `pkg@version/` names.
  unfoldable pub version_of : Bytes → Bytes → Bytes
  unfolding trim_prefix trim_suffix
  version_of package_prefix common = trim_suffix (trim_prefix common package_prefix) (slash ∷ [])

  abbrev pub last_version : List Bytes → Option Bytes
  last_version [] = none
  last_version (v ∷ []) = some (trim_prefix v (b'v' ∷ []))
  last_version (v ∷ w ∷ vs) = last_version (w ∷ vs)

  -- The loop of `resolveVersion` over the listed prefixes.
  unfoldable pub matching_versions : Bytes → Bytes → List Bytes → List Bytes
  unfolding version_of version_matches
  matching_versions package_prefix requested [] = []
  matching_versions package_prefix requested (p ∷ ps) =
      let rest = matching_versions package_prefix requested ps in
      let candidate = version_of package_prefix p in
      if version_matches candidate requested then with_v candidate ∷ rest else rest

  -- `listing` is what ListCommonPrefixes gives for `pkg@`.
  unfoldable pub resolve_version : List Bytes → Bytes → Bytes → Option Bytes
  unfolding matching_versions trim_prefix
  resolve_version listing pkg requested =
      last_version (sort (matching_versions (pkg ++ (b'@' ∷ [])) requested listing))

  unfoldable pub full_versions : Bytes → List Bytes → List Bytes
  unfolding version_of is_full_semver
  full_versions package_prefix [] = []
  full_versions package_prefix (p ∷ ps) =
      let rest = full_versions package_prefix ps in
      let version = version_of package_prefix p in
      if is_full_semver version then with_v version ∷ rest else rest

  -- `ListVersions`, highest first; none for a name that the pattern refuses.
  unfoldable pub list_versions : List Bytes → Bytes → List Bytes
  unfolding is_package_name full_versions trim_prefix
  list_versions listing pkg =
      if not (is_package_name pkg)
      then []
      else map (λ v. trim_prefix v (b'v' ∷ []))
          (reverse (sort (full_versions (pkg ++ (b'@' ∷ [])) listing)))

abbrev pub at_version : Bytes → Bytes → Bytes
at_version pkg version = pkg ++ (b'@' ∷ version)

-- The proper initial runs of the parts, the shortest first; `taken` is the run before the rest.
unfoldable pub partial_versions : List Bytes → List Bytes → List Bytes
unfolding join
partial_versions taken [] = []
partial_versions taken (p ∷ []) = []
partial_versions taken (p ∷ q ∷ ps) =
    join (taken ++ (p ∷ [])) b'.' ∷ partial_versions (taken ++ (p ∷ [])) (q ∷ ps)

-- The cache prefixes of the mutable aliases: `latest`, the major and the minor version.
unfoldable pub mutable_alias_prefixes : Bytes → Bytes → List Bytes
unfolding partial_versions version_parts
mutable_alias_prefixes pkg version =
    at_version pkg latest ∷ map (at_version pkg) (partial_versions [] (version_parts version))
