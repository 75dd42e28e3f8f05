-- ===== src/Archive/Laws.antt =====
-- Proofs about the keys that `archiveKeys` of internal/content/archive-keys.go gives.
use gimme.Base.{
  Bytes, text_eq, text_eq_iff, Bool, List, [], ◌∷◌, ◌++◌, Option, none, ◌≡◌, ◌≢◌, inl, inr, refl,
  ap, All, Distinct, arith, Bool-cases, append_assoc, map,
}
use gimme.Strings.{slash, Nested}
use gimme.Errors.{ok, ◌>>=◌, >>=-eq-ok, two_steps, ok_injective}
use gimme.Archive.{
  ZipFile, ArchiveObject, ArchiveFile, validated_entries, apply_ignore_file,
  single_top_level_folder,
}
use gimme.Archive.Keys.{
  lookup_key, relative_path, key_of, key_entry, key_each, object_keys, archive_keys,
}
use gimme.Archive.Nested.{
  IsNested, validated_entries-Nested, apply_ignore_file-All, Wrapped,
  single_top_level_folder-Wrapped, relative_path-Nested,
}

-- The key lies in the folder, under a path made of safe segments.
abbrev pub InFolder : Bytes → Bytes → Type 0
InFolder folder key = (p : Bytes) × Nested p × (key ≡ folder ++ (slash ∷ p))

lookup_key-none :
    (key k original : Bytes) (seen : List (Bytes × Bytes))
    → lookup_key key ((k, original) ∷ seen) ≡ none
    → (k ≢ key) × (lookup_key key seen ≡ none)
unfolding lookup_key
lookup_key-none key k original seen h = elim (Bool-cases (text_eq k key)) [
  | inl e ↦ absurd (ground arith)
  | inr e ↦ (λ q. ground (arith, text_eq_iff k key), ground arith)
]

module _ (wrapper : Option Bytes) (prefix : Bytes) where
  -- The keys that come later are new, and are not the one that was just taken.
  fresh_behind :
      (key original : Bytes) (seen : List (Bytes × Bytes)) (os : List ArchiveObject)
      → All (λ o. lookup_key o.key ((key, original) ∷ seen) ≡ none) os
      → All (λ o. lookup_key o.key seen ≡ none) os
        × All (λ k. key ≢ k) (map (λ (o : ArchiveObject). o.key) os)
  fresh_behind key original seen [] h = (tt, tt)
  fresh_behind key original seen (o ∷ os) (h, hs) =
      let (ne, new) = lookup_key-none o.key key original seen h in
      let (news, nes) = fresh_behind key original seen os hs in ((new, news), (ne, nes))

  key_entry-eq_ok :
      (seen : List (Bytes × Bytes)) (e : ArchiveFile) (o : ArchiveObject)
      → key_entry wrapper prefix seen e ≡ ok o
      → (lookup_key (key_of wrapper prefix e) seen ≡ none)
        × (o ≡ record { key = key_of wrapper prefix e; file = e.file })
  unfolding key_entry
  key_entry-eq_ok seen e o h = ground arith

  pub key_each-fresh :
      (seen : List (Bytes × Bytes)) (es : List ArchiveFile) (objects : List ArchiveObject)
      → key_each wrapper prefix seen es ≡ ok objects
      → All (λ o. lookup_key o.key seen ≡ none) objects
        × Distinct (map (λ (o : ArchiveObject). o.key) objects)
        × (map (λ (o : ArchiveObject). o.file) objects ≡ map (λ (e : ArchiveFile). e.file) es)
        × (map (λ (o : ArchiveObject). o.key) objects ≡ map (key_of wrapper prefix) es)
  unfolding key_each
  key_each-fresh seen [] objects h = rw (← ok_injective h) (tt, tt, refl, refl)
  key_each-fresh seen (e ∷ es) objects h =
      let (o, os, round, rest, same) =
        two_steps (key_entry wrapper prefix seen e)
          (key_each wrapper prefix ((key_of wrapper prefix e, e.original) ∷ seen) es)
          (λ o os. o ∷ os) h in
      let (new, shape) = key_entry-eq_ok seen e o round in
      let (fresh, distinct, files, keys) =
        key_each-fresh ((key_of wrapper prefix e, e.original) ∷ seen) es os rest in
      let (news, nes) = fresh_behind (key_of wrapper prefix e) e.original seen os fresh in
      rw (← same, shape)
        (
          (new, news),
          (nes, distinct),
          ap (λ fs. e.file ∷ fs) files,
          ap (λ ks. key_of wrapper prefix e ∷ ks) keys,
        )

key_of-InFolder :
    (o : Option Bytes) (folder : Bytes) (es : List ArchiveFile)
    → All IsNested es
    → All (Wrapped o) es
    → All (InFolder folder) (map (key_of o (folder ++ (slash ∷ []))) es)
key_of-InFolder o folder [] h w = tt
key_of-InFolder o folder (e ∷ es) (h, hs) (w, ws) = (
  (
    relative_path o e.name,
    relative_path-Nested o e h w,
    append_assoc folder (slash ∷ []) (relative_path o e.name),
  ),
  key_of-InFolder o folder es hs ws,
)

abbrev pub keys_of : List ArchiveObject → List Bytes
keys_of = map (λ (o : ArchiveObject). o.key)

-- Whatever Unicode normalisation and ignore patterns do, an archive that is accepted gives keys that
-- each lie under the package's folder along segments that are not empty, `.` or `..` and hold no
-- slash, and no two of the keys are equal.
pub archive_keys-Confined :
    (nfc : Bytes → Bytes) (compile : List Bytes → Bytes → Bool) (files : List ZipFile)
    (folder : Bytes) (objects : List ArchiveObject)
    → archive_keys nfc compile files folder ≡ ok objects
    → All (InFolder folder) (keys_of objects) × Distinct (keys_of objects)
unfolding archive_keys object_keys
archive_keys-Confined nfc compile files folder objects h =
    let (validated, h₁, rest) =
      >>=-eq-ok (validated_entries nfc files)
        (λ validated. apply_ignore_file compile validated >>= λ kept. object_keys kept folder) h in
    let (kept, h₂, h₃) =
      >>=-eq-ok (apply_ignore_file compile validated) (λ kept. object_keys kept folder) rest in
    let nested =
      apply_ignore_file-All compile IsNested validated kept h₂
        (validated_entries-Nested nfc files validated h₁) in
    let (_, distinct, _, keys) =
      key_each-fresh (single_top_level_folder kept) (folder ++ (slash ∷ [])) [] kept objects h₃ in
    (
      rw keys (
          key_of-InFolder (single_top_level_folder kept) folder kept nested
            (single_top_level_folder-Wrapped kept)),
      distinct,
    )
