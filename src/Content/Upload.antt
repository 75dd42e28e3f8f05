-- ===== src/Content/Upload.antt =====
-- `CreatePackage` of internal/content/content-service.go with the goroutines of its upload and the
-- rollback. Reading the zip directory is a parameter (`none` for a file that is no archive).
use gimme.Base.{
  ℕ, Bytes, ltb, if◌then◌else◌, Bool, not, ◌&&◌, ◌||◌, List, [], ◌∷◌, ◌++◌, Option, none, some,
  is_positive, below, ◌⊎◌, inl, inr,
}
use gimme.Dict.{lookup}
use gimme.Strings.{slash}
use gimme.Errors.{
  Result, ok, err, GimmeError, ErrorKind, Failure, bad_request, payload_too_large, conflict,
  internal_error, upload_too_large, unreadable_zip, already_exists, upload_failed, upload_stranded,
  compression_failed,
}
use gimme.Archive.{ZipFile, ArchiveObject}
use gimme.Archive.Limits.{UploadLimits, check_archive_limits}
use gimme.Archive.Keys.{archive_keys}
use gimme.Storage.{
  ObjectStorageClient, ObjectStorageManager, add_object, add_bytes, object_exists, remove_objects,
}
use gimme.Version.{Semver, at_version, validate_package_identity}
use gimme.Content.{
  Encoding, suffix, Libraries, extension, min_size, max_size, compressible_content_type,
  compress_variants, file_integrity, encoded_variant_source, archive_supplies_variants,
  archive_files,
}
use gimme.Content.Proc.{Proc, finished, call, wait}

-- The outside of the service: libraries and configuration.
pub record Service (W Object : Type 0) : Type 0 where
  pub client : ObjectStorageClient W Object
  pub osm : ObjectStorageManager
  pub semver : Semver
  pub libs : Libraries
  pub nfc : Bytes → Bytes
  pub compile : List Bytes → Bytes → Bool
  pub limits : UploadLimits
  pub compression_enabled : Bool

abbrev pub failure {ℓ} : {A : Type ℓ} → ErrorKind → Failure → A → Option GimmeError × A
failure k f w = (some (record { kind = k; err = f }), w)

module _ {W Object : Type 0} (svc : Service W Object) where
  abbrev pub next_or_fail : Option GimmeError → Proc W → Proc W
  next_or_fail none rest = rest
  next_or_fail (some e) rest = finished (some e.err)

  -- A write to the store, which ends the goroutine if it fails.
  abbrev pub put_then : (W → Option GimmeError × W) → Proc W → Proc W
  put_then op rest = call (λ w. (op w).1) (λ w. next_or_fail (op w).0 rest)

  unfoldable pub put_variants :
      List (Bytes × ZipFile) → Bytes → Bytes → Bytes → List (Encoding × Bytes) → Proc W
  unfolding lookup suffix add_bytes
  put_variants files key content_type integrity [] = finished none
  put_variants files key content_type integrity ((encoding, content) ∷ vs) =
      let rest = put_variants files key content_type integrity vs in
      elim (lookup (key ++ suffix encoding) files) [
        | some f ↦ rest
        | none ↦
            put_then
              (add_bytes svc.client svc.osm (key ++ suffix encoding) content content_type integrity)
              rest
      ]

  abbrev pub variants_or_fail :
      List (Bytes × ZipFile) → Bytes → Bytes → Bytes → Option (List (Encoding × Bytes)) → Proc W
  variants_or_fail files key content_type integrity none = finished (some compression_failed)
  variants_or_fail files key content_type integrity (some vs) =
      put_variants files key content_type integrity vs

  -- What follows the object itself: its compressed variants.
  unfoldable pub compress_entry : List (Bytes × ZipFile) → ArchiveObject → Bytes → Proc W
  unfolding compressible_content_type archive_supplies_variants compress_variants put_variants
  compress_entry files o integrity =
      let (content_type, compressible) = compressible_content_type svc.libs o.file.name in
      let size = o.file.uncompressed_size in
      if not svc.compression_enabled || not compressible || ltb size min_size || ltb max_size size
      then finished none
      else if archive_supplies_variants files o.key
      then finished none
      else variants_or_fail files o.key content_type integrity (compress_variants svc.libs o.file)

  abbrev pub or_file : Option ZipFile → ZipFile → ZipFile
  or_file none f = f
  or_file (some g) f = g

  abbrev pub upload_hashed : List (Bytes × ZipFile) → ArchiveObject → Bytes ⊎ Failure → Proc W
  upload_hashed files o (inr e) = finished (some e)
  upload_hashed files o (inl integrity) =
      put_then
        (add_object svc.client svc.osm (λ name. svc.libs.type_by_extension (extension name)) o.key
          o.file integrity)
        (compress_entry files o integrity)

  unfoldable pub upload_entry : List (Bytes × ZipFile) → ArchiveObject → Proc W
  unfolding encoded_variant_source file_integrity add_object compress_entry
  upload_entry files o =
      upload_hashed files o
        (file_integrity svc.libs (or_file (encoded_variant_source svc.libs files o.key) o.file))

  -- One goroutine for each object; the first call is the start of the goroutine.
  unfoldable pub upload_procs : List (Bytes × ZipFile) → List ArchiveObject → List (Proc W)
  unfolding upload_entry
  upload_procs files [] = []
  upload_procs files (o ∷ os) = call (λ w. w) (λ w. upload_entry files o) ∷ upload_procs files os

  abbrev pub rolled_back : Failure → Option GimmeError × W → Option GimmeError × W
  rolled_back e (none, w) = failure internal_error (upload_failed e) w
  rolled_back e (some r, w) = failure internal_error (upload_stranded e) w

  unfoldable pub rollback_partial_upload : Bytes → Failure → W → Option GimmeError × W
  unfolding remove_objects
  rollback_partial_upload folder e w =
      rolled_back e (remove_objects svc.client svc.osm (folder ++ (slash ∷ [])) w)

  abbrev pub after_upload : Bytes → Option Failure × W → Option GimmeError × W
  after_upload folder (none, w) = (none, w)
  after_upload folder (some e, w) = rollback_partial_upload folder e w

  -- The part behind the checks: the keys, the upload under a schedule, and the rollback.
  unfoldable pub upload_archive : List ℕ → Bytes → List ZipFile → W → Option GimmeError × W
  unfolding archive_keys archive_files wait upload_procs rollback_partial_upload
  upload_archive schedule folder files w = elim (archive_keys svc.nfc svc.compile files folder) [
    | err e ↦ (some e, w)
    | ok objects ↦
        after_upload folder (wait schedule (upload_procs (archive_files objects) objects) w)
  ]

  abbrev pub checked : List ℕ → Bytes → List ZipFile → W → Result (Unit {0}) → Option GimmeError × W
  checked schedule folder files w (err e) = (some e, w)
  checked schedule folder files w (ok _) =
      if object_exists svc.client svc.osm folder w
      then failure conflict (already_exists folder) w
      else upload_archive schedule folder files w

  abbrev pub with_archive : List ℕ → Bytes → Option (List ZipFile) → W → Option GimmeError × W
  with_archive schedule folder none w = failure internal_error unreadable_zip w
  with_archive schedule folder (some files) w =
      checked schedule folder files w (check_archive_limits svc.limits files)

  unfoldable pub create_package :
      List ℕ → Bytes → Bytes → Option (List ZipFile) → ℕ → W → Option GimmeError × W
  unfolding validate_package_identity check_archive_limits object_exists upload_archive
  create_package schedule name version archive file_size w =
      elim (validate_package_identity svc.semver name version) [
        | some f ↦ failure bad_request f w
        | none ↦
            if is_positive svc.limits.max_size && below svc.limits.max_size file_size
            then failure payload_too_large (upload_too_large svc.limits.max_size) w
            else with_archive schedule (at_version name version) archive w
      ]
