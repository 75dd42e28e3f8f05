-- ===== src/Archive/Keys.antt =====
-- `objectKeys` and `archiveKeys`: the keys of the entries that are published.
use gimme.Base.{Bool, Bytes, text_eq, if◌then◌else◌, not, List, [], ◌∷◌, ◌++◌, Option, none, some}
use gimme.Strings.{has_prefix, trim_prefix, slash}
use gimme.Errors.{Result, ok, business_error, ◌>>=◌, bad_request, escapes_namespace, duplicate_key}
use gimme.Archive.{
  ZipFile, ArchiveObject, ArchiveFile, single_top_level_folder, validated_entries,
  apply_ignore_file,
}

abbrev pub relative_path : Option Bytes → Bytes → Bytes
relative_path none name = name
relative_path (some wrapper) name = trim_prefix name (wrapper ++ (slash ∷ []))

-- The map `originalByKey`.
unfoldable pub lookup_key : Bytes → List (Bytes × Bytes) → Option Bytes
unfolding text_eq
lookup_key key [] = none
lookup_key key ((k, original) ∷ seen) = if text_eq k key then some original else lookup_key key seen

module _ (wrapper : Option Bytes) (prefix : Bytes) where
  abbrev pub key_of : ArchiveFile → Bytes
  key_of e = prefix ++ relative_path wrapper e.name

  -- One round of the loop of `objectKeys`.
  unfoldable pub key_entry : List (Bytes × Bytes) → ArchiveFile → Result ArchiveObject
  unfolding has_prefix lookup_key trim_prefix
  key_entry seen e =
      if not (has_prefix (key_of e) prefix)
      then business_error bad_request (escapes_namespace e.original)
      else elim (lookup_key (key_of e) seen) [
        | some previous ↦ business_error bad_request (duplicate_key previous e.original (key_of e))
        | none ↦ ok (record { key = key_of e; file = e.file })
      ]

  unfoldable pub key_each : List (Bytes × Bytes) → List ArchiveFile → Result (List ArchiveObject)
  unfolding key_entry
  key_each seen [] = ok []
  key_each seen (e ∷ es) = do
    object ← key_entry seen e
    objects ← key_each ((key_of e, e.original) ∷ seen) es
    ok (object ∷ objects)

unfoldable pub object_keys : List ArchiveFile → Bytes → Result (List ArchiveObject)
unfolding single_top_level_folder key_each
object_keys entries folder =
    key_each (single_top_level_folder entries) (folder ++ (slash ∷ [])) [] entries

unfoldable pub archive_keys :
    (Bytes → Bytes)
    → (List Bytes → Bytes → Bool)
    → List ZipFile
    → Bytes
    → Result (List ArchiveObject)
unfolding validated_entries apply_ignore_file object_keys
archive_keys nfc compile files folder = do
  validated ← validated_entries nfc files
  kept ← apply_ignore_file compile validated
  object_keys kept folder
