-- ===== src/Content/Serve.antt =====
-- `GetFile` and `DeletePackage` of internal/content/content-service.go, over the interface of
-- internal/cache/cache.go. A cache entry is its object path; the time to live is left to the cache.
use gimme.Base.{
  ◌==◌, Bytes, text_eq, if◌then◌else◌, Bool, not, ◌||◌, List, [], ◌∷◌, ◌++◌, Option, none, some,
}
use gimme.Strings.{slash, trim_left}
use gimme.Errors.{Result, ok, err, GimmeError, business_error, bad_request, asked_version}
use gimme.Storage.{get_object, list_common_prefixes, remove_objects}
use gimme.Version.{
  latest, with_v, at_version, is_pinned_version, resolve_version, validate_package_identity,
  mutable_alias_prefixes,
}
use gimme.Content.{Encoding, suffix, is_compressible, compressible_content_type}
use gimme.Content.Upload.{Service}

-- `true` is success.
pub record CacheManager (C : Type 0) : Type 0 where
  pub get : Bytes → C → Option Bytes
  pub set : Bytes → Bytes → C → Bool × C
  pub delete_by_prefix : Bytes → C → Bool × C

module _ {W Object C : Type 0} (svc : Service W Object) (stat_ok : Object → W → Bool)
    (cache : Option (CacheManager C)) where
  abbrev pub Answer : Type 0
  Answer = Result (Object × Option Encoding)

  abbrev pub unencoded : Result Object → Answer
  unencoded (err e) = err e
  unencoded (ok object) = ok (object, none)

  abbrev pub usable : Result Object → W → Option Object
  usable (err e) w = none
  usable (ok object) w = if stat_ok object w then some object else none

  -- The first accepted encoding that the store has, else the object itself.
  unfoldable pub first_encoded : Bytes → List Encoding → W → Answer
  unfolding get_object suffix
  first_encoded path [] w = unencoded (get_object svc.client svc.osm path w)
  first_encoded path (encoding ∷ more) w =
      let rest = first_encoded path more w in
      elim (usable (get_object svc.client svc.osm (path ++ suffix encoding) w) w) [
        | none ↦ rest
        | some object ↦ ok (object, some encoding)
      ]

  unfoldable pub get_encoded_object : Bytes → Bytes → List Encoding → W → Answer
  unfolding compressible_content_type first_encoded
  get_encoded_object path file accepted w =
      if is_compressible svc.libs file
      then first_encoded path accepted w
      else first_encoded path [] w

  abbrev resolved_or : Bytes → Option Bytes → Bytes
  resolved_or version none = version
  resolved_or version (some found) = found

  abbrev pub cache_key : Bytes → Bytes → Bytes → Bytes
  cache_key pkg version file = at_version pkg version ++ file

  -- The path behind a request that is not pinned.
  unfoldable pub resolved_path : Bytes → Bytes → Bytes → W → Bytes
  unfolding resolve_version list_common_prefixes trim_left
  resolved_path pkg version file w =
      let listing = list_common_prefixes svc.client svc.osm (pkg ++ (b'@' ∷ [])) w in
      at_version pkg (resolved_or version (resolve_version svc.semver listing pkg version))
      ++ (slash ∷ trim_left (λ c. c == slash) file)

  -- Only an answer without an error is remembered; an error of the cache is logged.
  abbrev pub remembered : CacheManager C → Bytes → Bytes → Answer → C → Answer × C
  remembered manager key path (err e) c = (err e, c)
  remembered manager key path (ok a) c = (ok a, (manager.set key path c).1)

  abbrev pub through : CacheManager C → Bytes → Bytes → Bytes → List Encoding → W → C → Answer × C
  through manager key path file accepted w c = elim (manager.get key c) [
    | some cached ↦ (get_encoded_object cached file accepted w, c)
    | none ↦ remembered manager key path (get_encoded_object path file accepted w) c
  ]

  unfoldable pub get_file : Bytes → Bytes → Bytes → List Encoding → W → C → Answer × C
  unfolding text_eq is_pinned_version get_encoded_object resolved_path
  get_file pkg version file accepted w c =
      if not (text_eq version latest || svc.semver.is_semver (with_v version))
      then (business_error bad_request asked_version, c)
      else if is_pinned_version svc.semver version
      then (get_encoded_object (cache_key pkg version file) file accepted w, c)
      else elim cache [
        | none ↦ (get_encoded_object (resolved_path pkg version file w) file accepted w, c)
        | some manager ↦
            through manager (cache_key pkg version file) (resolved_path pkg version file w) file
              accepted w c
      ]

  -- An invalidation that fails is logged, and the next one runs.
  unfoldable pub invalidate_each : CacheManager C → List Bytes → C → C
  invalidate_each manager [] c = c
  invalidate_each manager (p ∷ ps) c = invalidate_each manager ps (manager.delete_by_prefix p c).1

  abbrev pub invalidated : Bytes → Bytes → C → C
  invalidated pkg version c = elim cache [
    | none ↦ c
    | some manager ↦
        invalidate_each manager (at_version pkg version ∷ mutable_alias_prefixes pkg version) c
  ]

  abbrev pub after_removal : Bytes → Bytes → C → Option GimmeError × W → Option GimmeError × W × C
  after_removal pkg version c (some e, w) = (some e, w, c)
  after_removal pkg version c (none, w) = (none, w, invalidated pkg version c)

  unfoldable pub delete_package : Bytes → Bytes → W → C → Option GimmeError × W × C
  unfolding validate_package_identity remove_objects invalidate_each mutable_alias_prefixes
  delete_package pkg version w c = elim (validate_package_identity svc.semver pkg version) [
    | some f ↦ (some (record { kind = bad_request; err = f }), w, c)
    | none ↦
        after_removal pkg version c
          (remove_objects svc.client svc.osm (at_version pkg version ++ (slash ∷ [])) w)
  ]
