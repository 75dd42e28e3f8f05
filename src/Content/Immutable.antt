-- ===== src/Content/Immutable.antt =====
-- Proofs about `CreatePackage` where the version exists.
use gimme.Base.{
  ℕ, Bytes, true, ◌&&◌, List, Option, none, some, is_positive, below, ◌≡◌, ◌≢◌, inl, inr, refl,
  Bool-cases, Option-cases,
}
use gimme.Errors.{Result, ok, err, GimmeError}
use gimme.Archive.{ZipFile}
use gimme.Archive.Limits.{check_archive_limits}
use gimme.Storage.{object_exists}
use gimme.Storage.Laws.{StoreLaws, object_exists-false}
use gimme.Version.{at_version, validate_package_identity}
use gimme.Content.Upload.{Service, checked, with_archive, create_package}
use gimme.Content.Confined.{IsIn, stored}
use gimme.Content.Atomic.{IsClearListing}

module _ {W Object V : Type 0} (svc : Service W Object) (view : W → Bytes → Bytes → Option V)
    (laws : StoreLaws svc.client view) where
  -- An error, and the store as it was.
  abbrev pub Refused : W → Option GimmeError × W → Type 0
  Refused w r = (r.0 ≢ none) × (r.1 ≡ w)

  checked-Refused :
      (schedule : List ℕ) (folder : Bytes) (files : List ZipFile) (w : W) (r : Result (Unit {0}))
      → object_exists svc.client svc.osm folder w ≡ true
      → Refused w (checked svc schedule folder files w r)
  checked-Refused schedule folder files w (err e) there = (λ h. cc, refl)
  checked-Refused schedule folder files w (ok _) there = rw (there, checked) (λ h. cc, refl)

  with_archive-Refused :
      (schedule : List ℕ) (folder : Bytes) (archive : Option (List ZipFile)) (w : W)
      → object_exists svc.client svc.osm folder w ≡ true
      → Refused w (with_archive svc schedule folder archive w)
  with_archive-Refused schedule folder none w there = (λ h. cc, refl)
  with_archive-Refused schedule folder (some files) w there =
      checked-Refused schedule folder files w (check_archive_limits svc.limits files) there

  exists_if_stored :
      (folder : Bytes) (w : W) (j : Bytes)
      → IsClearListing svc view laws folder w
      → IsIn svc view laws folder j
      → stored svc view laws j w ≢ none
      → object_exists svc.client svc.osm folder w ≡ true
  exists_if_stored folder w j clear inside there =
      elim (Bool-cases (object_exists svc.client svc.osm folder w)) [
        | inl q ↦ q
        | inr q ↦
            absurd
              (there (object_exists-false svc.client view laws svc.osm folder w j clear q inside))
      ]

  -- With the laws of the store: if no item of the listing that looks for the version is an error, and the store holds some key of
  -- its folder, `CreatePackage` reports an error and leaves the store as it was.
  pub create_package-Refused :
      (schedule : List ℕ) (name version : Bytes) (archive : Option (List ZipFile)) (size : ℕ)
      (w : W) (j : Bytes)
      → IsClearListing svc view laws (at_version name version) w
      → IsIn svc view laws (at_version name version) j
      → stored svc view laws j w ≢ none
      → Refused w (create_package svc schedule name version archive size w)
  unfolding create_package
  create_package-Refused schedule name version archive size w j clear inside there =
      elim (Option-cases (validate_package_identity svc.semver name version)) [
        | inr (f, h) ↦ rw (h, create_package) (λ q. cc, refl)
        | inl h ↦
            elim (Bool-cases (is_positive svc.limits.max_size && below svc.limits.max_size size)) [
              | inl q ↦ rw (h, q, create_package) (λ g. cc, refl)
              | inr q ↦
                  let found : object_exists svc.client svc.osm (at_version name version) w ≡ true =
                    exists_if_stored (at_version name version) w j clear inside there in
                  rw (h, q, create_package)
                    (with_archive-Refused schedule (at_version name version) archive w found)
            ]
      ]
