-- ===== src/Archive/Limits.antt =====
-- `checkArchiveLimits`: the number of file entries and the sum of their declared sizes, which stops
-- at the largest uint64.
use gimme.Base.{
  ℕ, ◌+◌, ◌-◌, ◌^◌, ◌<◌, ◌≤◌, ltb, if◌then◌else◌, false, ◌&&◌, List, [], ◌∷◌, ◌≡◌, ◌⊎◌, refl, ◌↔◌,
  arith, Bool-cases, inl, inr, keep, not, length, ℤ, pos, negsuc, is_positive, below, to_u64,
}
use gimme.Errors.{Result, ok, business_error, payload_too_large, too_many_entries, expands_too_much}
use gimme.Archive.{ZipFile, is_directory}

abbrev pub max_u64 : ℕ
max_u64 = 2 ^ 64 - 1

-- A limit that is not positive disables its check.
pub record UploadLimits : Type 0 where
  pub max_size : ℤ
  pub max_entries : ℤ
  pub max_uncompressed_size : ℤ

-- One round of the sum.
unfoldable pub add_saturating : ℕ → ℕ → ℕ
add_saturating total size = if ltb (max_u64 - total) size then max_u64 else total + size

unfoldable pub count_entries : ℕ → ℕ → List ZipFile → ℕ × ℕ
unfolding is_directory add_saturating
count_entries n total [] = (n, total)
count_entries n total (f ∷ fs) =
    if is_directory f
    then count_entries n total fs
    else count_entries (n + 1) (add_saturating total f.uncompressed_size) fs

unfoldable pub check_archive_limits : UploadLimits → List ZipFile → Result (Unit {0})
unfolding count_entries
check_archive_limits limits files =
    let (n, total) = count_entries 0 0 files in
    if is_positive limits.max_entries && below limits.max_entries n
    then business_error payload_too_large (too_many_entries limits.max_entries)
    else if is_positive limits.max_uncompressed_size
        && ltb (to_u64 limits.max_uncompressed_size) total
    then business_error payload_too_large (expands_too_much limits.max_uncompressed_size)
    else ok tt

-- The file entries of an archive, and the exact sum of their sizes.
abbrev pub file_entries : List ZipFile → List ZipFile
file_entries = keep (λ f. not (is_directory f))

abbrev pub total_size : List ZipFile → ℕ
total_size [] = 0
total_size (f ∷ fs) = f.uncompressed_size + total_size fs

abbrev capped : ℕ → ℕ
capped n = if ltb max_u64 n then max_u64 else n

add_saturating-capped : (a b : ℕ) → add_saturating (capped a) b ≡ capped (a + b)
unfolding add_saturating
add_saturating-capped a b = ground arith

count_entries-capped :
    (n a : ℕ) (files : List ZipFile)
    → count_entries n (capped a) files
      ≡ (n + length (file_entries files), capped (a + total_size (file_entries files)))
unfolding count_entries
count_entries-capped n a [] = ground arith
count_entries-capped n a (f ∷ fs) = elim (Bool-cases (is_directory f)) [
  | inl e ↦ rw (e, count_entries-capped n a fs)
  | inr e ↦
      rw
        (
          e,
          add_saturating-capped a f.uncompressed_size,
          count_entries-capped (n + 1) (a + f.uncompressed_size) fs,
        )
        (ground arith)
]

count_entries-eq :
    (files : List ZipFile)
    → count_entries 0 0 files
      ≡ (length (file_entries files), capped (total_size (file_entries files)))
count_entries-eq files = ground (arith, count_entries-capped 0 0 files)

-- What a limit promises of an exact count: a limit that is not positive promises nothing.
abbrev pub Within : ℤ → ℕ → Type 0
Within (pos limit) n = (limit ≡ 0) ⊎ (n ≤ limit)
Within (negsuc _) n = Unit

abbrev pub FitsInt64 : ℤ → Type 0
FitsInt64 (pos n) = n < 2 ^ 63
FitsInt64 (negsuc n) = n < 2 ^ 63

entries_test : (limit : ℤ) (n : ℕ) → ((is_positive limit && below limit n) ≡ false) ↔ Within limit n
entries_test (pos limit) n = ground arith
entries_test (negsuc _) n = (λ _. tt, λ _. refl)

size_test :
    (limit : ℤ) (n : ℕ)
    → FitsInt64 limit
    → ((is_positive limit && ltb (to_u64 limit) (capped n)) ≡ false) ↔ Within limit n
size_test (pos limit) n h = ground arith
size_test (negsuc _) n h = (λ _. tt, λ _. refl)

-- With a size limit in the range of int64, the archive passes exactly when it holds no more file
-- entries than the entry limit and their exact total size, which may be past 64 bits, is within the
-- size limit; a limit that is not positive checks nothing. Directories do not count.
pub check_archive_limits_iff :
    (limits : UploadLimits) (files : List ZipFile)
    → FitsInt64 limits.max_uncompressed_size
    → (check_archive_limits limits files ≡ ok tt) ↔ (
        Within limits.max_entries (length (file_entries files))
        × Within limits.max_uncompressed_size (total_size (file_entries files)))
unfolding check_archive_limits
check_archive_limits_iff limits files h = rw (count_entries-eq files) (
  λ e. (
    (entries_test limits.max_entries (length (file_entries files))).0 (ground arith),
    (size_test limits.max_uncompressed_size (total_size (file_entries files)) h).0 (ground arith),
  ),
  λ (a, b). rw (
    (entries_test limits.max_entries (length (file_entries files))).1 a,
    (size_test limits.max_uncompressed_size (total_size (file_entries files)) h).1 b,
  ),
)
