-- ===== src/Archive/Kept.antt =====
-- Proofs about which entries `archiveKeys` of internal/content/archive-keys.go publishes.
use gimme.Base.{
  Bytes, text_eq, text_eq_iff, if◌then◌else◌, Bool, ◌&&◌, List, [], ◌∷◌, ◌++◌, not, Option, none,
  some, keep, ◌≡◌, ◌≢◌, refl, sym, ap, ◌∙◌, All, arith, Bool-cases, inl, inr, subst, map,
}
use gimme.Strings.{clean, slash, base_name, base_name-append, Lacks}
use gimme.Errors.{ok, ◌>>=◌, >>=-eq-ok, two_steps, ok_injective}
use gimme.Archive.{
  ZipFile, ArchiveObject, ArchiveFile, is_directory, is_archive_junk, validate_entry, validate_each,
  kept_before, validated_entries, non_empty, apply_ignore_file, find_ignore_file, find_entry,
  nested_ignore, ignore_name, single_top_level_folder,
}
use gimme.Archive.Keys.{object_keys, archive_keys}
use gimme.Archive.Laws.{key_each-fresh}

module _ (nfc : Bytes → Bytes) where
  -- A file entry that is no macOS metadata.
  abbrev pub is_served : ZipFile → Bool
  is_served f = not (is_directory f) && not (is_archive_junk (clean (nfc f.name)))

  abbrev files_of : List ArchiveFile → List ZipFile
  files_of = map (λ (e : ArchiveFile). e.file)

  validate_entry-files :
      (f : ZipFile) (o : Option ArchiveFile) (es : List ArchiveFile)
      → validate_entry nfc f ≡ ok o
      → files_of (kept_before o es) ≡ (if is_served f then f ∷ files_of es else files_of es)
  unfolding validate_entry
  validate_entry-files f o es h = ground arith

  validate_each-files :
      (files : List ZipFile) (entries : List ArchiveFile)
      → validate_each nfc files ≡ ok entries
      → files_of entries ≡ keep is_served files
  unfolding validate_each
  validate_each-files [] entries h = ap files_of (sym (ok_injective h))
  validate_each-files (f ∷ fs) entries h =
      let (o, es, round, rest, same) =
        two_steps (validate_entry nfc f) (validate_each nfc fs) kept_before h in
      cc (same, validate_entry-files f o es round, validate_each-files fs es rest)

  -- No entry is an ignore file.
  abbrev pub NoIgnoreFile : List ZipFile → Type 0
  NoIgnoreFile = All (λ f. base_name (clean (nfc f.name)) ≢ ignore_name)

  abbrev IsNoIgnoreFile : ArchiveFile → Type 0
  IsNoIgnoreFile e = base_name e.name ≢ ignore_name

  kept_before-NoIgnoreFile :
      (f : ZipFile) (o : Option ArchiveFile) (es : List ArchiveFile)
      → validate_entry nfc f ≡ ok o
      → base_name (clean (nfc f.name)) ≢ ignore_name
      → All IsNoIgnoreFile es
      → All IsNoIgnoreFile (kept_before o es)
  unfolding validate_entry
  kept_before-NoIgnoreFile f none es h n k = k
  kept_before-NoIgnoreFile f (some e) es h n k =
      let same : e.name ≡ clean (nfc f.name) = ground arith in
      (subst (λ s. base_name s ≢ ignore_name) (sym same) n, k)

  validate_each-NoIgnoreFile :
      (files : List ZipFile) (entries : List ArchiveFile)
      → validate_each nfc files ≡ ok entries
      → NoIgnoreFile files
      → All IsNoIgnoreFile entries
  unfolding validate_each
  validate_each-NoIgnoreFile [] entries h n = subst (All IsNoIgnoreFile) (ok_injective h) tt
  validate_each-NoIgnoreFile (f ∷ fs) entries h (n, ns) =
      let (o, es, round, rest, same) =
        two_steps (validate_entry nfc f) (validate_each nfc fs) kept_before h in
      subst (All IsNoIgnoreFile) same
        (kept_before-NoIgnoreFile f o es round n (validate_each-NoIgnoreFile fs es rest ns))

find_entry-none :
    (name : Bytes) (es : List ArchiveFile)
    → base_name name ≡ ignore_name
    → All (λ e. base_name e.name ≢ ignore_name) es
    → find_entry name es ≡ none
unfolding find_entry
find_entry-none name [] b h = refl
find_entry-none name (e ∷ es) b (n, h) = elim (Bool-cases (text_eq e.name name)) [
  | inl q ↦ absurd (n (ap base_name ((text_eq_iff e.name name).0 q) ∙ b))
  | inr q ↦ rw q (find_entry-none name es b h)
]

ignore_name-Lacks : Lacks slash ignore_name
ignore_name-Lacks = omega arith

base_name-ignore_name : base_name ignore_name ≡ ignore_name
unfolding base_name
base_name-ignore_name = refl

nested_ignore-none :
    (o : Option Bytes) (es : List ArchiveFile)
    → All (λ e. base_name e.name ≢ ignore_name) es
    → nested_ignore o es ≡ none
nested_ignore-none none es h = refl
nested_ignore-none (some w) es h = rw (
  find_entry-none (w ++ (slash ∷ ignore_name)) es (base_name-append w ignore_name ignore_name-Lacks)
      h,
  nested_ignore,
)

find_ignore_file-none :
    (es : List ArchiveFile)
    → All (λ e. base_name e.name ≢ ignore_name) es
    → find_ignore_file es ≡ none
unfolding find_ignore_file
find_ignore_file-none es h =
    rw (find_entry-none ignore_name es base_name-ignore_name h, find_ignore_file)
      (nested_ignore-none (single_top_level_folder es) es h)

non_empty-eq_ok : (es ks : List ArchiveFile) → non_empty es ≡ ok ks → es ≡ ks
non_empty-eq_ok [] ks h = cc
non_empty-eq_ok (e ∷ es) ks h = ok_injective h

-- An accepted archive with no .gimmeignore publishes, in their order, exactly its file entries that
-- are not macOS metadata: directories and metadata are dropped and nothing else is.
pub archive_keys-files :
    (nfc : Bytes → Bytes) (compile : List Bytes → Bytes → Bool) (files : List ZipFile)
    (folder : Bytes) (objects : List ArchiveObject)
    → NoIgnoreFile nfc files
    → archive_keys nfc compile files folder ≡ ok objects
    → map (λ (o : ArchiveObject). o.file) objects ≡ keep (is_served nfc) files
unfolding archive_keys object_keys validated_entries apply_ignore_file
archive_keys-files nfc compile files folder objects n h =
    let (validated, h₁, rest) =
      >>=-eq-ok (validated_entries nfc files)
        (λ validated. apply_ignore_file compile validated >>= λ kept. object_keys kept folder) h in
    let (kept, h₂, h₃) =
      >>=-eq-ok (apply_ignore_file compile validated) (λ kept. object_keys kept folder) rest in
    let (each, h₄, h₅) = >>=-eq-ok (validate_each nfc files) non_empty h₁ in
    let same : each ≡ validated = non_empty-eq_ok each validated h₅ in
    let unignored = validate_each-NoIgnoreFile nfc files each h₄ n in
    let none_found : find_ignore_file validated ≡ none =
      subst (λ es. find_ignore_file es ≡ none) same (find_ignore_file-none each unignored) in
    let untouched : validated ≡ kept = ok_injective (rw (none_found, apply_ignore_file) at h₂) in
    let (_, _, stored, _) =
      key_each-fresh (single_top_level_folder kept) (folder ++ (slash ∷ [])) [] kept objects h₃ in
    cc (stored, same, untouched, validate_each-files nfc files each h₄)
