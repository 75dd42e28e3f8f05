-- ===== src/Content/Confined.antt =====
-- Proofs about the goroutines that `CreatePackage` starts, and the keys they write.
use gimme.Base.{
  ℕ, Bytes, text_eq, text_eq_iff, ltb, if◌then◌else◌, Bool, true, false, not, ◌||◌, List, [], ◌∷◌,
  ◌++◌, Option, none, some, ◌≡◌, ◌⊎◌, inl, inr, refl, sym, ap, ◌∙◌, subst, append_assoc, All,
  Bool-cases, Option-cases,
}
use gimme.Dict.{lookup}
use gimme.Strings.{slash, has_prefix, has_prefix-append, has_prefix-true}
use gimme.Errors.{ok, GimmeError, Failure}
use gimme.Archive.{ZipFile, ArchiveObject, Contents, unopened, unread, bytes}
use gimme.Archive.Keys.{archive_keys}
use gimme.Archive.Laws.{InFolder, keys_of, archive_keys-Confined}
use gimme.Storage.{PutOptions, Body, put_result, send, content_type_or, add_object, add_bytes}
use gimme.Storage.Laws.{StoreLaws}
use gimme.Content.{
  Encoding, suffix, min_size, max_size, compressible_content_type, compress_variants,
  archive_supplies_variants, archive_files,
}
use gimme.Content.Proc.{Proc, finished, wait, Keeps, wait-Keeps}
use gimme.Content.Upload.{
  Service, upload_hashed, next_or_fail, put_then, put_variants, variants_or_fail, compress_entry,
  upload_entry, upload_procs,
}

module _ {W Object V : Type 0} (svc : Service W Object) (view : W → Bytes → Bytes → Option V)
    (laws : StoreLaws svc.client view) where
  abbrev pub bucket : Bytes
  bucket = svc.osm.bucket_name

  abbrev pub stored : Bytes → W → Option V
  stored j w = view w bucket j

  module _ (folder : Bytes) where
    abbrev pub IsIn : Bytes → Type 0
    IsIn j = has_prefix j (folder ++ (slash ∷ [])) ≡ true

    abbrev pub IsOut : Bytes → Type 0
    IsOut j = has_prefix j (folder ++ (slash ∷ [])) ≡ false

    -- The two worlds agree outside the folder.
    abbrev pub SameOutside : W → W → Type 0
    SameOutside w w' = (j : Bytes) → IsOut j → stored j w' ≡ stored j w

    same_refl : (w : W) → SameOutside w w
    same_refl w j h = refl

    same_trans : (u v w : W) → SameOutside u v → SameOutside v w → SameOutside u w
    same_trans u v w p q j h = q j h ∙ p j h

    abbrev KeepsOutside : Proc W → Type 0
    KeepsOutside = Keeps SameOutside same_refl same_trans

    other_key : (k j : Bytes) → IsIn k → IsOut j → text_eq k j ≡ false
    other_key k j hk hj = elim (Bool-cases (text_eq k j)) [
      | inl q ↦ absurd (cc (hk, hj, (text_eq_iff k j).0 q))
      | inr q ↦ q
    ]

    put_result-world : (k : Bytes) (r : Bool × W) → (put_result svc.client svc.osm k r).1 ≡ r.1
    put_result-world k (true, w) = refl
    put_result-world k (false, w) = refl

    put-SameOutside :
        (k : Bytes) (body : Body) (o : PutOptions) (w : W)
        → IsIn k
        → SameOutside w
            (put_result svc.client svc.osm k (svc.client.put_object bucket k body o w)).1
    put-SameOutside k body o w hk j hj =
        ap (stored j) (put_result-world k (svc.client.put_object bucket k body o w))
        ∙ laws.put_other bucket k body o w j (other_key k j hk hj)

    add_bytes-SameOutside :
        (k content content_type integrity : Bytes) (w : W)
        → IsIn k
        → SameOutside w (add_bytes svc.client svc.osm k content content_type integrity w).1
    unfolding add_bytes
    add_bytes-SameOutside k content content_type integrity w hk = put-SameOutside k _ _ w hk

    send-SameOutside :
        (content_type k : Bytes) (file : ZipFile) (integrity : Bytes) (c : Contents) (w : W)
        → IsIn k
        → SameOutside w (send svc.client svc.osm content_type k file integrity c w).1
    send-SameOutside content_type k file integrity unopened w hk = same_refl w
    send-SameOutside content_type k file integrity unread w hk = put-SameOutside k _ _ w hk
    send-SameOutside content_type k file integrity (bytes s) w hk = put-SameOutside k _ _ w hk

    add_object-SameOutside :
        (type_of : Bytes → Bytes) (k : Bytes) (file : ZipFile) (integrity : Bytes) (w : W)
        → IsIn k
        → SameOutside w (add_object svc.client svc.osm type_of k file integrity w).1
    unfolding add_object
    add_object-SameOutside type_of k file integrity w hk j hj = elim (Bool-cases file.is_dir) [
      | inl q ↦ rw (q, add_object)
      | inr q ↦
          rw (q, add_object)
            (send-SameOutside (content_type_or (type_of file.name)) k file integrity file.contents w
              hk j hj)
    ]

    next_or_fail-KeepsOutside :
        (o : Option GimmeError) (rest : Proc W)
        → KeepsOutside rest
        → KeepsOutside (next_or_fail svc o rest)
    next_or_fail-KeepsOutside none rest h = h
    next_or_fail-KeepsOutside (some e) rest h = tt

    put_then-KeepsOutside :
        (op : W → Option GimmeError × W) (rest : Proc W)
        → ((w : W) → SameOutside w (op w).1)
        → KeepsOutside rest
        → KeepsOutside (put_then svc op rest)
    put_then-KeepsOutside op rest h k = (h, λ w. next_or_fail-KeepsOutside (op w).0 rest k)

    IsIn-suffix : (k x : Bytes) → IsIn k → IsIn (k ++ x)
    IsIn-suffix k x h =
        let (r, e) = has_prefix-true k (folder ++ (slash ∷ [])) h in
        let whole : k ++ x ≡ (folder ++ (slash ∷ [])) ++ (r ++ x) =
          ap (λ t. t ++ x) e ∙ append_assoc (folder ++ (slash ∷ [])) r x in
        ap (λ t. has_prefix t (folder ++ (slash ∷ []))) whole
        ∙ has_prefix-append (folder ++ (slash ∷ [])) (r ++ x)

    put_variants-KeepsOutside :
        (files : List (Bytes × ZipFile)) (k content_type integrity : Bytes)
        (vs : List (Encoding × Bytes))
        → IsIn k
        → KeepsOutside (put_variants svc files k content_type integrity vs)
    unfolding put_variants
    put_variants-KeepsOutside files k content_type integrity [] h = tt
    put_variants-KeepsOutside files k content_type integrity ((encoding, content) ∷ vs) h =
        let rest = put_variants-KeepsOutside files k content_type integrity vs h in
        elim (Option-cases (lookup (k ++ suffix encoding) files)) [
          | inl q ↦
              let shape : put_variants svc files k content_type integrity ((encoding, content) ∷ vs)
                  ≡ put_then svc
                      (add_bytes svc.client svc.osm (k ++ suffix encoding) content content_type
                        integrity)
                      (put_variants svc files k content_type integrity vs) =
                rw (q, put_variants) in
              subst KeepsOutside (sym shape) (
                put_then-KeepsOutside
                  (add_bytes svc.client svc.osm (k ++ suffix encoding) content content_type
                    integrity)
                  (put_variants svc files k content_type integrity vs)
                  (λ w.
                    add_bytes-SameOutside (k ++ suffix encoding) content content_type integrity w
                      (IsIn-suffix k (suffix encoding) h))
                  rest)
          | inr (f, q) ↦
              let shape : put_variants svc files k content_type integrity ((encoding, content) ∷ vs)
                  ≡ put_variants svc files k content_type integrity vs =
                rw (q, put_variants) in
              subst KeepsOutside (sym shape) rest
        ]

    variants_or_fail-KeepsOutside :
        (files : List (Bytes × ZipFile)) (k content_type integrity : Bytes)
        (o : Option (List (Encoding × Bytes)))
        → IsIn k
        → KeepsOutside (variants_or_fail svc files k content_type integrity o)
    variants_or_fail-KeepsOutside files k content_type integrity none h = tt
    variants_or_fail-KeepsOutside files k content_type integrity (some vs) h =
        put_variants-KeepsOutside files k content_type integrity vs h

    if_KeepsOutside :
        (b : Bool) (p q : Proc W)
        → KeepsOutside p
        → KeepsOutside q
        → KeepsOutside (if b then p else q)
    if_KeepsOutside true p q hp hq = hp
    if_KeepsOutside false p q hp hq = hq

    compress_entry-KeepsOutside :
        (files : List (Bytes × ZipFile)) (o : ArchiveObject) (integrity : Bytes)
        → IsIn o.key
        → KeepsOutside (compress_entry svc files o integrity)
    unfolding compress_entry
    compress_entry-KeepsOutside files o integrity h =
        let (content_type, compressible) = compressible_content_type svc.libs o.file.name in
        let size = o.file.uncompressed_size in
        let skip =
          not svc.compression_enabled
          || not compressible
          || ltb size min_size
          || ltb max_size size in
        let made = compress_variants svc.libs o.file in
        let variants : Proc W = variants_or_fail svc files o.key content_type integrity made in
        let supplied = archive_supplies_variants files o.key in
        if_KeepsOutside skip (finished none) (if supplied then finished none else variants) tt (
          if_KeepsOutside supplied (finished none) variants tt
            (variants_or_fail-KeepsOutside files o.key content_type integrity made h))

    hashed-KeepsOutside :
        (files : List (Bytes × ZipFile)) (o : ArchiveObject) (r : Bytes ⊎ Failure)
        → IsIn o.key
        → KeepsOutside (upload_hashed svc files o r)
    hashed-KeepsOutside files o (inr e) h = tt
    hashed-KeepsOutside files o (inl integrity) h =
        put_then-KeepsOutside _ (compress_entry svc files o integrity)
          (λ w. add_object-SameOutside _ o.key o.file integrity w h)
          (compress_entry-KeepsOutside files o integrity h)

    upload_procs-KeepsOutside :
        (files : List (Bytes × ZipFile)) (os : List ArchiveObject)
        → All IsIn (keys_of os)
        → All KeepsOutside (upload_procs svc files os)
    unfolding upload_procs upload_entry
    upload_procs-KeepsOutside files [] h = tt
    upload_procs-KeepsOutside files (o ∷ os) (h, hs) =
        ((same_refl, λ w. hashed-KeepsOutside files o _ h), upload_procs-KeepsOutside files os hs)

    InFolder-IsIn : (ks : List Bytes) → All (InFolder folder) ks → All IsIn ks
    InFolder-IsIn [] h = tt
    InFolder-IsIn (k ∷ ks) ((p, _, e), h) = (
      ap (λ x. has_prefix x (folder ++ (slash ∷ []))) (e ∙ sym (append_assoc folder (slash ∷ []) p))
          ∙ has_prefix-append (folder ++ (slash ∷ [])) p,
      InFolder-IsIn ks h,
    )

    -- The upload of accepted objects, under any schedule.
    pub upload-SameOutside :
        (schedule : List ℕ) (files : List ZipFile) (objects : List ArchiveObject) (w : W)
        → archive_keys svc.nfc svc.compile files folder ≡ ok objects
        → SameOutside w (wait schedule (upload_procs svc (archive_files objects) objects) w).1
    upload-SameOutside schedule files objects w h =
        let (confined, _) = archive_keys-Confined svc.nfc svc.compile files folder objects h in
        wait-Keeps SameOutside same_refl same_trans schedule
          (upload_procs svc (archive_files objects) objects) w
          (upload_procs-KeepsOutside (archive_files objects) objects
            (InFolder-IsIn (keys_of objects) confined))
