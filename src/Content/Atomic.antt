-- ===== src/Content/Atomic.antt =====
-- Proofs about `CreatePackage` with its rollback.
use gimme.Base.{
  ℕ, Bytes, ◌&&◌, List, [], ◌∷◌, ◌++◌, Option, none, some, is_positive, below, ◌≡◌, ◌⊎◌, inl, inr,
  refl, sym, ◌∙◌, subst, Bool-cases, Option-cases,
}
use gimme.Strings.{slash, has_prefix}
use gimme.Errors.{
  Result, ok, err, GimmeError, Failure, internal_error, bad_request, conflict, payload_too_large,
  already_exists, upload_too_large, upload_stranded, Result-cases,
}
use gimme.Archive.{ZipFile}
use gimme.Archive.Limits.{check_archive_limits}
use gimme.Archive.Keys.{archive_keys}
use gimme.Storage.{object_exists, remove_objects, read_errors, under}
use gimme.Storage.Laws.{
  StoreLaws, remove_objects_outside, remove_objects_cleans, object_exists-false,
}
use gimme.Version.{at_version, validate_package_identity}
use gimme.Content.{archive_files}
use gimme.Content.Proc.{wait}
use gimme.Content.Upload.{
  Service, failure, upload_procs, rollback_partial_upload, rolled_back, after_upload, checked,
  upload_archive, with_archive, create_package,
}
use gimme.Content.Confined.{IsIn, SameOutside, stored, upload-SameOutside}

module _ {W Object V : Type 0} (svc : Service W Object) (view : W → Bytes → Bytes → Option V)
    (laws : StoreLaws svc.client view) where
  module _ (folder : Bytes) where
    -- The folder holds nothing.
    abbrev pub IsEmptyIn : W → Type 0
    IsEmptyIn w = (j : Bytes) → IsIn svc view laws folder j → stored svc view laws j w ≡ none

    abbrev pub SameStore : W → W → Type 0
    SameStore w w' = (j : Bytes) → stored svc view laws j w' ≡ stored svc view laws j w

    abbrev Stranded : Option GimmeError → Type 0
    Stranded e =
        (f : Failure) × (e ≡ some (record { kind = internal_error; err = upload_stranded f }))

    rolled_back-world : (e : Failure) (r : Option GimmeError × W) → (rolled_back svc e r).1 ≡ r.1
    rolled_back-world e (none, w) = refl
    rolled_back-world e (some x, w) = refl

    rolled_back-error :
        (e : Failure) (r : Option GimmeError × W) → Stranded (rolled_back svc e r).0 ⊎ (r.0 ≡ none)
    rolled_back-error e (none, w) = inr refl
    rolled_back-error e (some x, w) = inl (e, refl)

    -- What one run of `CreatePackage` may do to the store.
    abbrev pub Outcome : W → Option GimmeError × W → Type 0
    Outcome w (e, w') =
        SameOutside svc view laws folder w w' × ((e ≡ none) ⊎ Stranded e ⊎ SameStore w w')

    after_upload-Outcome :
        (w : W) (r : Option Failure × W)
        → IsEmptyIn w
        → SameOutside svc view laws folder w r.1
        → Outcome w (after_upload svc folder r)
    after_upload-Outcome w (none, w') empty h = (h, inl refl)
    after_upload-Outcome w (some e, w') empty h =
        let removal = remove_objects svc.client svc.osm (folder ++ (slash ∷ [])) w' in
        let (_, left) = removal in
        let outside : SameOutside svc view laws folder w left = λ j out.
          remove_objects_outside svc.client view laws svc.osm (folder ++ (slash ∷ [])) w' j out
          ∙ h j out in
        let world : (rollback_partial_upload svc folder e w').1 ≡ left =
          unfold rollback_partial_upload in rolled_back-world e removal in
        let restored : removal.0 ≡ none → SameStore w left = λ done j.
          elim (Bool-cases (has_prefix j (folder ++ (slash ∷ [])))) [
            | inl q ↦
                remove_objects_cleans svc.client view laws svc.osm (folder ++ (slash ∷ [])) w' j
                  done q
                ∙ sym (empty j q)
            | inr q ↦ outside j q
          ] in
        let error : Stranded (rollback_partial_upload svc folder e w').0 ⊎ (removal.0 ≡ none) =
          unfold rollback_partial_upload in rolled_back-error e removal in
        (
          subst (SameOutside svc view laws folder w) (sym world) outside,
          inr (elim error [
            | inl s ↦ inl s
            | inr done ↦ inr (subst (SameStore w) (sym world) (restored done))
          ]),
        )

    unchanged : (w : W) (e : Option GimmeError) → Outcome w (e, w)
    unchanged w e = (λ j h. refl, inr (inr (λ j. refl)))

    upload_archive-Outcome :
        (schedule : List ℕ) (files : List ZipFile) (w : W)
        → IsEmptyIn w
        → Outcome w (upload_archive svc schedule folder files w)
    unfolding upload_archive
    upload_archive-Outcome schedule files w empty =
        elim (Result-cases (archive_keys svc.nfc svc.compile files folder)) [
          | inl (objects, h) ↦
              let r = wait schedule (upload_procs svc (archive_files objects) objects) w in
              let shape : upload_archive svc schedule folder files w ≡ after_upload svc folder r =
                rw (h, upload_archive) in
              subst (Outcome w) (sym shape) (
                after_upload-Outcome w r empty
                  (upload-SameOutside svc view laws folder schedule files objects w h))
          | inr (e, h) ↦
              let shape : upload_archive svc schedule folder files w ≡ (some e, w) =
                rw (h, upload_archive) in
              subst (Outcome w) (sym shape) (unchanged w (some e))
        ]

    -- No item of the listing that looks for the folder is an error.
    abbrev pub IsClearListing : W → Type 0
    IsClearListing w =
        read_errors (svc.client.list_objects svc.osm.bucket_name (under (folder ++ (slash ∷ []))) w)
        ≡ []

    checked-Outcome :
        (schedule : List ℕ) (files : List ZipFile) (w : W) (r : Result (Unit {0}))
        → IsClearListing w
        → Outcome w (checked svc schedule folder files w r)
    checked-Outcome schedule files w (err e) clear = unchanged w (some e)
    checked-Outcome schedule files w (ok _) clear =
        elim (Bool-cases (object_exists svc.client svc.osm folder w)) [
          | inl q ↦
              let shape : checked svc schedule folder files w (ok tt)
                  ≡ failure conflict (already_exists folder) w =
                rw q in
              subst (Outcome w) (sym shape) (unchanged w _)
          | inr q ↦
              let shape : checked svc schedule folder files w (ok tt)
                  ≡ upload_archive svc schedule folder files w =
                rw q in
              subst (Outcome w) (sym shape) (
                upload_archive-Outcome schedule files w
                  (λ j h. object_exists-false svc.client view laws svc.osm folder w j clear q h))
        ]

    with_archive-Outcome :
        (schedule : List ℕ) (archive : Option (List ZipFile)) (w : W)
        → IsClearListing w
        → Outcome w (with_archive svc schedule folder archive w)
    with_archive-Outcome schedule none w clear = unchanged w _
    with_archive-Outcome schedule (some files) w clear =
        checked-Outcome schedule files w (check_archive_limits svc.limits files) clear

  -- With the laws of the store: `CreatePackage` of one package version, under any schedule of its
  -- goroutines and with any failures of the store's writes, if the listing that looks for the version reports no error: keys outside the
  -- version's folder keep what they hold; and it succeeds, or reports that the rollback failed and
  -- files may be stranded, or leaves every key as it was.
  pub create_package-Outcome :
      (schedule : List ℕ) (name version : Bytes) (archive : Option (List ZipFile)) (size : ℕ)
      (w : W)
      → IsClearListing (at_version name version) w
      → Outcome
          (at_version name version)
          w
          (create_package svc schedule name version archive size w)
  unfolding create_package
  create_package-Outcome schedule name version archive size w clear =
      elim (Option-cases (validate_package_identity svc.semver name version)) [
        | inr (f, h) ↦
            let shape : create_package svc schedule name version archive size w
                ≡ failure bad_request f w =
              rw (h, create_package) in
            subst (Outcome (at_version name version) w) (sym shape)
              (unchanged (at_version name version) w _)
        | inl h ↦
            elim (Bool-cases (is_positive svc.limits.max_size && below svc.limits.max_size size)) [
              | inl q ↦
                  let shape : create_package svc schedule name version archive size w
                      ≡ failure payload_too_large (upload_too_large svc.limits.max_size) w =
                    rw (h, q, create_package) in
                  subst (Outcome (at_version name version) w) (sym shape)
                    (unchanged (at_version name version) w _)
              | inr q ↦
                  let shape : create_package svc schedule name version archive size w
                      ≡ with_archive svc schedule (at_version name version) archive w =
                    rw (h, q, create_package) in
                  subst (Outcome (at_version name version) w) (sym shape)
                    (with_archive-Outcome (at_version name version) schedule archive w clear)
            ]
      ]
