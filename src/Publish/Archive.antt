-- ===== src/Publish/Archive.antt =====
-- `Archive` of internal/publish/archive.go. The walk of the directory is the list of what it visits;
-- the temporary file and the close of the writers are a parameter.
use gimme.Base.{
  Bytes, codes, text_eq, if◌then◌else◌, Bool, true, false, ◌||◌, List, [], ◌∷◌, Option, none, some,
}

-- What the opened file is.
pub data FileType : Type 0 where
  directory regular other_type : FileType

-- One call of the walk's function: an error of the walk, a directory, or a file, with what it is once
-- it is opened (`none` if opening or inspecting it fails) and its bytes (`none` if copying fails).
pub record WalkEntry : Type 0 where
  pub name : Bytes
  pub walk_failed : Bool
  pub is_dir : Bool
  pub opened : Option FileType
  pub bytes : Option Bytes

pub data ArchiveError : Type 0 where
  unreadable : Bytes → ArchiveError
  symlink_to_directory : Bytes → ArchiveError
  unsupported_type : Bytes → ArchiveError
  copy_failed : Bytes → ArchiveError
  not_a_directory no_files_to_publish close_failed : ArchiveError

pub data Archived (A : Type 0) : Type 0 where
  failed : ArchiveError → Archived A
  archived : A → Archived A

abbrev pub ZipEntries : Type 0
ZipEntries = List (Bytes × Bytes)

abbrev with_bytes : Bytes → Option Bytes → Archived ZipEntries → Archived ZipEntries
with_bytes name none rest = failed (copy_failed name)
with_bytes name (some bytes) (failed e) = failed e
with_bytes name (some bytes) (archived es) = archived ((name, bytes) ∷ es)

abbrev of_type : WalkEntry → Option FileType → Archived ZipEntries → Archived ZipEntries
of_type w none rest = failed (unreadable w.name)
of_type w (some directory) rest = failed (symlink_to_directory w.name)
of_type w (some other_type) rest = failed (unsupported_type w.name)
of_type w (some regular) rest = with_bytes w.name w.bytes rest

-- The entries in the order of the walk, or the first error.
unfoldable pub walked : List WalkEntry → Archived ZipEntries
unfolding text_eq
walked [] = archived []
walked (w ∷ ws) =
    let rest = walked ws in
    if w.walk_failed
    then failed (unreadable w.name)
    else if text_eq w.name (codes ".") || w.is_dir
    then rest
    else of_type w w.opened rest

abbrev finished : Bool → Archived ZipEntries → Archived ZipEntries
finished closed (failed e) = failed e
finished closed (archived []) = failed no_files_to_publish
finished true (archived (e ∷ es)) = archived (e ∷ es)
finished false (archived (e ∷ es)) = failed close_failed

-- `is_dir` says that the argument is a directory that can be opened, `closed` that the writers close.
unfoldable pub archive : Bool → Bool → List WalkEntry → Archived ZipEntries
unfolding walked
archive is_dir closed ws = if is_dir then finished closed (walked ws) else failed not_a_directory
