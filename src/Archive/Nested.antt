-- ===== src/Archive/Nested.antt =====
-- Proofs about the names in `validatedEntries` and `singleTopLevelFolder`.
use gimme.Base.{
  Bytes, text_eq_iff, Bool, true, false, ◌&&◌, List, [], ◌∷◌, ◌++◌, Option, none, some, keep,
  All-keep, ◌≡◌, ◌≢◌, inl, inr, refl, sym, ◌∙◌, All, arith, Bool-cases, Option-cases, subst,
  append_assoc,
}
use gimme.Strings.{
  trim_prefix, trim_prefix-append, cut, cut-append, cut-eq_Lacks, clean, escapes, slash, Nested,
  IsSafe, clean-Nested, join, join-cons,
}
use gimme.Errors.{ok, >>=-eq-ok, two_steps, ok_injective}
use gimme.Archive.{
  ZipFile, ArchiveFile, validate_entry, validate_each, kept_before, validated_entries, non_empty,
  publishable, apply_ignore_file, find_ignore_file, read_ignore_patterns, all_under,
  single_top_level_folder,
}
use gimme.Archive.Keys.{relative_path}

abbrev pub IsNested : ArchiveFile → Type 0
IsNested e = Nested e.name

kept_before-All :
    (P : ArchiveFile → Type 0) (o : Option ArchiveFile) (es : List ArchiveFile)
    → ((e : ArchiveFile) → o ≡ some e → P e)
    → All P es
    → All P (kept_before o es)
kept_before-All P none es h k = k
kept_before-All P (some e) es h k = (h e refl, k)

module _ (nfc : Bytes → Bytes) where
  validate_entry-Nested :
      (f : ZipFile) (o : Option ArchiveFile)
      → validate_entry nfc f ≡ ok o
      → (e : ArchiveFile) → o ≡ some e
      → IsNested e
  unfolding validate_entry
  validate_entry-Nested f o h e p = elim (Bool-cases (escapes (clean (nfc f.name)))) [
    | inl q ↦ absurd (ground arith)
    | inr q ↦
        subst (λ n. Nested n) (sym (unfold validate_entry in ground arith))
          (clean-Nested (nfc f.name) q)
  ]

  validate_each-Nested :
      (files : List ZipFile) (entries : List ArchiveFile)
      → validate_each nfc files ≡ ok entries
      → All IsNested entries
  unfolding validate_each
  validate_each-Nested [] entries h = subst (All IsNested) (ok_injective h) tt
  validate_each-Nested (f ∷ fs) entries h =
      let (o, es, round, rest, same) =
        two_steps (validate_entry nfc f) (validate_each nfc fs) kept_before h in
      subst (All IsNested) same (
        kept_before-All IsNested o es (validate_entry-Nested f o round)
          (validate_each-Nested fs es rest))

non_empty-eq_ok : (es ks : List ArchiveFile) → non_empty es ≡ ok ks → es ≡ ks
non_empty-eq_ok [] ks h = cc
non_empty-eq_ok (e ∷ es) ks h = ok_injective h

pub validated_entries-Nested :
    (nfc : Bytes → Bytes) (files : List ZipFile) (entries : List ArchiveFile)
    → validated_entries nfc files ≡ ok entries
    → All IsNested entries
unfolding validated_entries
validated_entries-Nested nfc files entries h =
    let (es, each, same) = >>=-eq-ok (validate_each nfc files) non_empty h in
    subst (All IsNested) (non_empty-eq_ok es entries same) (validate_each-Nested nfc files es each)

module _ (compile : List Bytes → Bytes → Bool) where
  -- Whatever holds of all entries holds of those that are kept.
  pub apply_ignore_file-All :
      (P : ArchiveFile → Type 0) (entries kept : List ArchiveFile)
      → apply_ignore_file compile entries ≡ ok kept
      → All P entries
      → All P kept
  unfolding apply_ignore_file
  apply_ignore_file-All P entries kept h a = elim (Option-cases (find_ignore_file entries)) [
    | inl e ↦ subst (All P) (ground arith) a
    | inr (selected, e) ↦
        let (patterns, read, rest) =
          >>=-eq-ok (read_ignore_patterns selected.file)
            (λ patterns. non_empty (keep (publishable compile patterns selected) entries))
            (rw (e, apply_ignore_file) at h) in
        subst (All P) (non_empty-eq_ok _ kept rest) (All-keep P _ entries a)
  ]

-- The entry lies in the folder.
abbrev IsUnder : Bytes → ArchiveFile → Type 0
IsUnder w e = ((cut e.name slash).0 ≡ w) × ((cut e.name slash).2 ≡ true)

all_under-All : (w : Bytes) (es : List ArchiveFile) → all_under w es ≡ true → All (IsUnder w) es
unfolding all_under
all_under-All w [] h = tt
all_under-All w (e ∷ es) h = (
  (ground (arith, text_eq_iff (cut e.name slash).0 w), ground arith),
  all_under-All w es (ground arith),
)

abbrev pub Wrapped : Option Bytes → ArchiveFile → Type 0
Wrapped none e = Unit
Wrapped (some w) e = IsUnder w e

All-Unit : (es : List ArchiveFile) → All (λ e. Unit {0}) es
All-Unit [] = tt
All-Unit (e ∷ es) = (tt, All-Unit es)

pub single_top_level_folder-Wrapped :
    (es : List ArchiveFile) → All (Wrapped (single_top_level_folder es)) es
unfolding single_top_level_folder
single_top_level_folder-Wrapped [] = tt
single_top_level_folder-Wrapped (e ∷ es) =
    elim (Bool-cases ((cut e.name slash).2 && all_under (cut e.name slash).0 es)) [
      | inl h ↦
          let found : single_top_level_folder (e ∷ es) ≡ some (cut e.name slash).0 = rw h in
          subst (λ o. All (Wrapped o) (e ∷ es)) (sym found)
            ((refl, ground arith), all_under-All (cut e.name slash).0 es (ground arith))
      | inr h ↦
          let absent : single_top_level_folder (e ∷ es) ≡ none = rw h in
          subst (λ o. All (Wrapped o) (e ∷ es)) (sym absent) (tt, All-Unit es)
    ]

strip-Nested :
    (segs : List Bytes) (name w : Bytes)
    → All IsSafe segs
    → segs ≢ []
    → name ≡ join segs slash
    → (cut name slash).0 ≡ w
    → (cut name slash).2 ≡ true
    → Nested (trim_prefix name (w ++ (slash ∷ [])))
strip-Nested [] name w h n e p q = absurd (n refl)
strip-Nested (s ∷ []) name w (safe, _) n e p q =
    let whole : name ≡ s = unfold join in e in
    let missing : (cut name slash).2 ≡ false = rw (whole, cut-eq_Lacks s slash safe.3) in
    absurd (cc)
strip-Nested (s ∷ t ∷ ss) name w (safe, rest) n e p q =
    let whole : name ≡ s ++ (slash ∷ join (t ∷ ss) slash) =
      e ∙ join-cons s (t ∷ ss) slash (λ r. cc) in
    let same : s ≡ w = cc (cut-append s (join (t ∷ ss) slash) slash safe.3, whole, p) in
    let stripped : trim_prefix name (w ++ (slash ∷ [])) ≡ join (t ∷ ss) slash = cc (
      whole,
      same,
      append_assoc s (slash ∷ []) (join (t ∷ ss) slash),
      trim_prefix-append (s ++ (slash ∷ [])) (join (t ∷ ss) slash),
    ) in
    (t ∷ ss, λ r. cc, rest, stripped)

pub relative_path-Nested :
    (o : Option Bytes) (e : ArchiveFile)
    → IsNested e
    → Wrapped o e
    → Nested (relative_path o e.name)
relative_path-Nested none e h w = h
relative_path-Nested (some w) e (segs, n, safe, same) (p, q) =
    strip-Nested segs e.name w safe n same p q
