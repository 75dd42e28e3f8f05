-- ===== src/Archive.antt =====
-- internal/content/archive-keys.go: from the entries of an uploaded archive to the object keys under
-- the package's namespace. Unicode normalisation (x/text norm.NFC) and the matcher that go-gitignore
-- compiles from pattern lines are parameters.
pub mod Limits
pub mod Keys
pub mod Nested
pub mod Laws
pub mod Kept
mod Tests
use gimme.Base.{
  ℕ, Bytes, codes, text_eq, if◌then◌else◌, Bool, true, false, ◌&&◌, ◌||◌, List, [], ◌∷◌, ◌++◌,
  Option, none, some, keep,
}
use gimme.Strings.{
  has_prefix, has_suffix, trim_prefix, cut, split, clean, base_name, escapes, slash,
}
use gimme.Errors.{
  Result, ok, err, business_error, ◌>>=◌, bad_request, internal_error, empty_entry_name, no_files,
  absolute_path, escapes_namespace, open_failed, read_failed,
}

-- What opening and reading an entry gives.
pub data Contents : Type 0 where
  unopened unread : Contents
  bytes : Bytes → Contents

-- The parts of zip.File that the program reads; `is_dir` is FileInfo().IsDir().
pub record ZipFile : Type 0 where
  pub name : Bytes
  pub is_dir : Bool
  pub uncompressed_size : ℕ
  pub contents : Contents

pub record ArchiveObject : Type 0 where
  pub key : Bytes
  pub file : ZipFile

pub record ArchiveFile : Type 0 where
  pub name : Bytes
  pub original : Bytes
  pub file : ZipFile

pub record ArchiveIgnore : Type 0 where
  pub file : ArchiveFile
  pub match_prefix : Bytes

abbrev pub ignore_name : Bytes
ignore_name = codes ".gimmeignore"

-- The entries that the loops skip.
unfoldable pub is_directory : ZipFile → Bool
unfolding has_suffix
is_directory f = f.is_dir || has_suffix f.name (codes "/")

unfoldable pub is_archive_junk : Bytes → Bool
unfolding cut base_name text_eq
is_archive_junk cleaned =
    text_eq (cut cleaned slash).0 (codes "__MACOSX")
    || text_eq (base_name cleaned) (codes ".DS_Store")

abbrev pub to_archive_file : Bytes → ZipFile → ArchiveFile
to_archive_file cleaned f = record { name = cleaned; original = f.name; file = f }

abbrev pub kept_before : Option ArchiveFile → List ArchiveFile → List ArchiveFile
kept_before none es = es
kept_before (some e) es = e ∷ es

module _ (nfc : Bytes → Bytes) where
  -- One round of the loop of `validatedEntries`: `none` is an entry that is skipped.
  unfoldable pub validate_entry : ZipFile → Result (Option ArchiveFile)
  unfolding is_directory text_eq has_prefix clean escapes is_archive_junk
  validate_entry f =
      let cleaned = clean (nfc f.name) in
      if is_directory f
      then ok none
      else if text_eq f.name []
      then business_error bad_request empty_entry_name
      else if has_prefix f.name (codes "/")
      then business_error bad_request (absolute_path f.name)
      else if escapes cleaned
      then business_error bad_request (escapes_namespace f.name)
      else if is_archive_junk cleaned
      then ok none
      else ok (some (to_archive_file cleaned f))

  unfoldable pub validate_each : List ZipFile → Result (List ArchiveFile)
  unfolding validate_entry
  validate_each [] = ok []
  validate_each (f ∷ fs) = do
    kept ← validate_entry f
    entries ← validate_each fs
    ok (kept_before kept entries)

abbrev pub non_empty : List ArchiveFile → Result (List ArchiveFile)
non_empty [] = business_error bad_request no_files
non_empty (e ∷ es) = ok (e ∷ es)

unfoldable pub validated_entries : (Bytes → Bytes) → List ZipFile → Result (List ArchiveFile)
unfolding validate_each
validated_entries nfc files = do entries ← validate_each nfc files; non_empty entries

-- The loop of `singleTopLevelFolder` behind its first round.
unfoldable pub all_under : Bytes → List ArchiveFile → Bool
unfolding cut text_eq
all_under common [] = true
all_under common (e ∷ es) =
    let (root, rest, found) = cut e.name slash in
    found && text_eq root common && all_under common es

unfoldable pub single_top_level_folder : List ArchiveFile → Option Bytes
unfolding all_under
single_top_level_folder [] = none
single_top_level_folder (e ∷ es) =
    let (root, rest, found) = cut e.name slash in
    if found && all_under root es then some root else none

unfoldable pub find_entry : Bytes → List ArchiveFile → Option ArchiveFile
unfolding text_eq
find_entry name [] = none
find_entry name (e ∷ es) = if text_eq e.name name then some e else find_entry name es

abbrev at_root : ArchiveFile → ArchiveIgnore
at_root e = record { file = e; match_prefix = [] }

abbrev in_wrapper : Bytes → ArchiveFile → ArchiveIgnore
in_wrapper wrapper e = record { file = e; match_prefix = wrapper ++ (slash ∷ []) }

abbrev nested_ignore : Option Bytes → List ArchiveFile → Option ArchiveIgnore
nested_ignore none entries = none
nested_ignore (some wrapper) entries =
    elim (find_entry (wrapper ++ (slash ∷ ignore_name)) entries) [
      | none ↦ none
      | some e ↦ some (in_wrapper wrapper e)
    ]

unfoldable pub find_ignore_file : List ArchiveFile → Option ArchiveIgnore
unfolding find_entry single_top_level_folder
find_ignore_file entries = elim (find_entry ignore_name entries) [
  | some e ↦ some (at_root e)
  | none ↦ nested_ignore (single_top_level_folder entries) entries
]

unfoldable pub read_ignore_patterns : ArchiveFile → Result (List Bytes)
unfolding split
read_ignore_patterns e = elim e.file.contents [
  | unopened ↦ business_error internal_error (open_failed e.original)
  | unread ↦ business_error internal_error (read_failed e.original)
  | bytes contents ↦ ok (split contents b'\n')
]

-- `compile` is ignore.CompileIgnoreLines with the MatchesPath method of its result.
module _ (compile : List Bytes → Bytes → Bool) where
  unfoldable pub publishable : List Bytes → ArchiveIgnore → ArchiveFile → Bool
  unfolding text_eq trim_prefix
  publishable patterns selected e =
      if text_eq e.name selected.file.name
      then false
      else if compile patterns (trim_prefix e.name selected.match_prefix)
      then false
      else true

  unfoldable pub apply_ignore_file : List ArchiveFile → Result (List ArchiveFile)
  unfolding find_ignore_file read_ignore_patterns publishable
  apply_ignore_file entries = elim (find_ignore_file entries) [
    | none ↦ ok entries
    | some selected ↦ do
      patterns ← read_ignore_patterns selected.file
      non_empty (keep (publishable patterns selected) entries)
  ]
