-- ===== src/Archive/Tests.antt =====
-- The archive's theorems at concrete archives, and runs of its functions.
use gimme.Base.{
  Bytes, codes, text_eq, false, List, [], ◌∷◌, ◌≡◌, ◌↔◌, refl, All, Distinct, arith, map, keep, pos,
  negsuc, length, Bool,
}
use gimme.Strings.{clean, base_name}
use gimme.Errors.{ok, business_error, bad_request, escapes_namespace, duplicate_key}
use gimme.Archive.{ZipFile, ArchiveObject, bytes}
use gimme.Archive.Keys.{archive_keys}
use gimme.Archive.Laws.{InFolder, keys_of, archive_keys-Confined}
use gimme.Archive.Kept.{is_served, NoIgnoreFile, archive_keys-files}
use gimme.Archive.Limits.{
  UploadLimits, check_archive_limits, Within, file_entries, total_size, check_archive_limits_iff,
}

abbrev entry : Bytes → ZipFile
entry name = record {
  name = name;
  is_dir = false;
  uncompressed_size = 10;
  contents = bytes (codes "*.map");
}

abbrev no_change : Bytes → Bytes
no_change s = s

-- Ignores the path "b.map" alone.
abbrev ignore_one : List Bytes → Bytes → Bool
ignore_one patterns path = text_eq path (codes "b.map")

abbrev files : List ZipFile
files =
    entry (codes "dist/")
    ∷ entry (codes "dist/./a.js")
    ∷ entry (codes "dist/.DS_Store")
    ∷ entry (codes "dist/x/../b.map")
    ∷ []

abbrev objects : List ArchiveObject
objects =
    record { key = codes "p@1.0.0/a.js"; file = entry (codes "dist/./a.js") }
    ∷ record { key = codes "p@1.0.0/b.map"; file = entry (codes "dist/x/../b.map") }
    ∷ []

run : archive_keys no_change ignore_one files (codes "p@1.0.0") ≡ ok objects
unfolding archive_keys
run = refl

run_ignored :
    archive_keys no_change ignore_one (entry (codes "dist/.gimmeignore") ∷ files) (codes "p@1.0.0")
    ≡ ok (record { key = codes "p@1.0.0/a.js"; file = entry (codes "dist/./a.js") } ∷ [])
unfolding archive_keys
run_ignored = refl

run_climb :
    archive_keys no_change ignore_one (entry (codes "a/../../etc") ∷ []) (codes "p@1.0.0")
    ≡ business_error bad_request (escapes_namespace (codes "a/../../etc"))
unfolding archive_keys
run_climb = refl

run_duplicate :
    archive_keys no_change ignore_one
      (entry (codes "a.js") ∷ entry (codes "./a.js") ∷ [])
      (codes "p@1.0.0")
    ≡ business_error bad_request
        (duplicate_key (codes "a.js") (codes "./a.js") (codes "p@1.0.0/a.js"))
unfolding archive_keys
run_duplicate = refl

archive_keys-Confined_example :
    All (InFolder (codes "p@1.0.0")) (keys_of objects) × Distinct (keys_of objects)
archive_keys-Confined_example =
    archive_keys-Confined no_change ignore_one files (codes "p@1.0.0") objects run

NoIgnoreFile-files : NoIgnoreFile no_change files
unfolding clean base_name
NoIgnoreFile-files = (λ p. cc, (λ p. cc, (λ p. cc, (λ p. cc, tt))))

archive_keys-files_example :
    map (λ (o : ArchiveObject). o.file) objects ≡ keep (is_served no_change) files
archive_keys-files_example =
    archive_keys-files no_change ignore_one files (codes "p@1.0.0") objects NoIgnoreFile-files run

abbrev limits : UploadLimits
limits = record { max_size = pos 100; max_entries = negsuc 0; max_uncompressed_size = pos 25 }

check_archive_limits_iff_example : (check_archive_limits limits files ≡ ok tt) ↔ (
    Within limits.max_entries (length (file_entries files))
    × Within limits.max_uncompressed_size (total_size (file_entries files)))
check_archive_limits_iff_example = check_archive_limits_iff limits files (omega arith)
