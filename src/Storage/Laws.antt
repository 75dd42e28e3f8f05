-- ===== src/Storage/Laws.antt =====
-- What is relied on of the object store, and proofs about `RemoveObjects` and `ObjectExists`.
use gimme.Base.{
  Bytes, text_eq, Bool, true, false, ◌||◌, List, [], ◌∷◌, ◌++◌, Option, none, ◌≡◌, refl, ap, ◌∙◌,
  Bool-cases, inl, inr,
}
use gimme.Strings.{has_prefix, slash}
use gimme.Storage.{
  ObjectInfo, ObjectStorageClient, ObjectStorageManager, PutOptions, Body, listed_objects, keys_of,
  read_errors, under, remove_objects, removal_result, object_exists, any_object,
}

abbrev pub holds : Bytes → List Bytes → Bool
holds j [] = false
holds j (k ∷ ks) = text_eq k j || holds j ks

-- `view w b k` is what the world holds in bucket `b` under key `k`. Nothing is said of the key that a
-- failed write was for, nor of the listed keys after a removal that reports a failure.
pub record StoreLaws {W Object V : Type 0} (client : ObjectStorageClient W Object)
    (view : W → Bytes → Bytes → Option V) : Type 0 where
  pub put_other :
      (b k : Bytes) (body : Body) (o : PutOptions) (w : W) (j : Bytes)
      → text_eq k j ≡ false
      → view (client.put_object b k body o w).1 b j ≡ view w b j
  pub remove_other :
      (b : Bytes) (ks : List Bytes) (w : W) (j : Bytes)
      → holds j ks ≡ false
      → view (client.remove_objects b ks w).1 b j ≡ view w b j
  pub remove_held :
      (b : Bytes) (ks : List Bytes) (w : W) (j : Bytes)
      → (client.remove_objects b ks w).0 ≡ []
      → holds j ks ≡ true
      → view (client.remove_objects b ks w).1 b j ≡ none
  pub list_sound :
      (b prefix : Bytes) (w : W) (j : Bytes)
      → has_prefix j prefix ≡ false
      → holds j (keys_of (listed_objects (client.list_objects b (under prefix) w))) ≡ false
  -- A listing with no error among its items holds every key of the prefix.
  pub list_complete :
      (b prefix : Bytes) (w : W) (j : Bytes)
      → read_errors (client.list_objects b (under prefix) w) ≡ []
      → has_prefix j prefix ≡ true
      → holds j (keys_of (listed_objects (client.list_objects b (under prefix) w))) ≡ false
      → view w b j ≡ none

module _ {W Object V : Type 0} (client : ObjectStorageClient W Object)
    (view : W → Bytes → Bytes → Option V) (laws : StoreLaws client view)
    (osm : ObjectStorageManager) where
  removal_result-none :
      (read : List Bytes) (r : List Bytes × W)
      → (removal_result client osm read r).0 ≡ none
      → (read ≡ []) × (r.0 ≡ [])
  removal_result-none [] ([], w) h = (refl, refl)
  removal_result-none (k ∷ ks) (failures, w) h = absurd (cc)
  removal_result-none [] (k ∷ ks, w) h = absurd (cc)

  removal_result-world :
      (read : List Bytes) (r : List Bytes × W) → (removal_result client osm read r).1 ≡ r.1
  removal_result-world [] ([], w) = refl
  removal_result-world (k ∷ ks) (failures, w) = refl
  removal_result-world [] (k ∷ ks, w) = refl

  -- A removal leaves every key that lies outside the prefix, whether or not it fails.
  pub remove_objects_outside :
      (parent : Bytes) (w : W) (j : Bytes)
      → has_prefix j parent ≡ false
      → view (remove_objects client osm parent w).1 osm.bucket_name j ≡ view w osm.bucket_name j
  unfolding remove_objects
  remove_objects_outside parent w j h =
      let found = client.list_objects osm.bucket_name (under parent) w in
      let ks = keys_of (listed_objects found) in
      ap (λ x. view x osm.bucket_name j)
        (removal_result-world (read_errors found) (client.remove_objects osm.bucket_name ks w))
      ∙ laws.remove_other osm.bucket_name ks w j (laws.list_sound osm.bucket_name parent w j h)

  -- With the laws of the store, a removal that reports no error leaves no key of the prefix.
  pub remove_objects_cleans :
      (parent : Bytes) (w : W) (j : Bytes)
      → (remove_objects client osm parent w).0 ≡ none
      → has_prefix j parent ≡ true
      → view (remove_objects client osm parent w).1 osm.bucket_name j ≡ none
  unfolding remove_objects
  remove_objects_cleans parent w j done h =
      let found = client.list_objects osm.bucket_name (under parent) w in
      let ks = keys_of (listed_objects found) in
      let (no_read, no_failure) =
        removal_result-none (read_errors found) (client.remove_objects osm.bucket_name ks w) done in
      ap (λ x. view x osm.bucket_name j)
        (removal_result-world (read_errors found) (client.remove_objects osm.bucket_name ks w))
      ∙ elim (Bool-cases (holds j ks)) [
        | inl q ↦ laws.remove_held osm.bucket_name ks w j no_failure q
        | inr q ↦
            laws.remove_other osm.bucket_name ks w j q
            ∙ laws.list_complete osm.bucket_name parent w j no_read h q
      ]

  listing_empty :
      (os : List ObjectInfo)
      → any_object client osm (listed_objects os) ≡ false
      → (j : Bytes) → holds j (keys_of (listed_objects os)) ≡ false
  listing_empty os h j = go (listed_objects os) h
    where
      go : (l : List ObjectInfo) → any_object client osm l ≡ false → holds j (keys_of l) ≡ false
      go [] e = unfold keys_of in refl
      go (o ∷ l) e = absurd (cc)

  -- If `ObjectExists` answers no, and no item of its listing is an error, the folder is empty.
  pub object_exists-false :
      (name : Bytes) (w : W) (j : Bytes)
      → read_errors (client.list_objects osm.bucket_name (under (name ++ (slash ∷ []))) w) ≡ []
      → object_exists client osm name w ≡ false
      → has_prefix j (name ++ (slash ∷ [])) ≡ true
      → view w osm.bucket_name j ≡ none
  unfolding object_exists
  object_exists-false name w j clear h p =
      laws.list_complete osm.bucket_name (name ++ (slash ∷ [])) w j clear p
        (listing_empty (client.list_objects osm.bucket_name (under (name ++ (slash ∷ []))) w) h j)
