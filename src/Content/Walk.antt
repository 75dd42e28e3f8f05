-- ===== src/Content/Walk.antt =====
-- Proofs about `GetFiles`: what one answer lists, and where the next one goes on.
use gimme.Base.{
  ℕ, zero, suc, ◌<◌, Bytes, codes, text_eq, text_eq_iff, ◌||◌, Bool, true, false, List, [], ◌∷◌,
  ◌++◌, Option, none, some, length, map, ◌≡◌, ◌≢◌, ◌⊎◌, inl, inr, refl, sym, ap, ◌∙◌, subst, arith,
  Bool-cases, Option-cases,
}
use gimme.Strings.{slash, cut_suffix, cut_suffix-eq_some, cut_suffix-append}
use gimme.Storage.Laws.{holds}
use gimme.Storage.{ObjectInfo, list_common_prefixes}
use gimme.Version.{at_version, is_pinned_version, resolve_version}
use gimme.Content.{Libraries, suffix}
use gimme.Content.Upload.{Service}
use gimme.Content.Listing.{
  PagedFile, FileListing, is_encoded_variant, page_of, listing_of, file_of, seed_boundary_keys,
  stripped, single_page, finished_listing, list_files, resolved_files, get_files,
}
use gimme.Content.Paging.{cursor_of, seen_after, first, shown}
use gimme.Content.Pages.{Listed, collect-shown, cursor_of-append, holds-append}

module _ (libs : Libraries) where
  -- The objects behind the cursor that the page has used up, and those it leaves.
  record Left (n : ℕ) (c : Bytes) (seen : List Bytes) (post : List ObjectInfo) (fs : List PagedFile)
      (next : Bytes) : Type 0 where
    front : List ObjectInfo
    back : List ObjectInfo
    split : post ≡ front ++ back
    used : fs ≡ shown libs c seen front
    full : length fs ≡ n
    resume : next ≡ cursor_of c front
    more : shown libs (cursor_of c front) (seen_after front seen) back ≢ []

  abbrev Cut : ℕ → Bytes → List Bytes → List ObjectInfo → List PagedFile × Option Bytes → Type 0
  Cut n c seen post (fs, none) = fs ≡ shown libs c seen post
  Cut n c seen post (fs, some next) = Left n c seen post fs next

  Cut-hidden :
      (n : ℕ) (c : Bytes) (seen : List Bytes) (o : ObjectInfo) (os : List ObjectInfo)
      (r : List PagedFile × Option Bytes)
      → is_encoded_variant libs o.key seen ≡ true
      → Cut n o.key (o.key ∷ seen) os r
      → Cut n c seen (o ∷ os) r
  unfolding shown
  Cut-hidden n c seen o os (fs, none) q h = rw q h
  Cut-hidden n c seen o os (fs, some next) q h = record {
    front = o ∷ h.front;
    back = h.back;
    split = ap (λ x. o ∷ x) h.split;
    used = rw q h.used;
    full = h.full;
    resume = h.resume;
    more = h.more;
  }

  Cut-shown :
      (n : ℕ) (c : Bytes) (seen : List Bytes) (o : ObjectInfo) (os : List ObjectInfo)
      (r : List PagedFile × Option Bytes)
      → is_encoded_variant libs o.key seen ≡ false
      → Cut n o.key (o.key ∷ seen) os r
      → Cut (suc n) c seen (o ∷ os) (record { object = o; cursor = c } ∷ r.0, r.1)
  unfolding shown
  Cut-shown n c seen o os (fs, none) q h = rw q (ap (λ x. record { object = o; cursor = c } ∷ x) h)
  Cut-shown n c seen o os (fs, some next) q h = record {
    front = o ∷ h.front;
    back = h.back;
    split = ap (λ x. o ∷ x) h.split;
    used = rw q (ap (λ x. record { object = o; cursor = c } ∷ x) h.used);
    full = ap (λ k. suc k) h.full;
    resume = h.resume;
    more = h.more;
  }

  page_of-Cut_shown :
      (n : ℕ) (c : Bytes) (seen : List Bytes) (o : ObjectInfo) (os : List ObjectInfo)
      → is_encoded_variant libs o.key seen ≡ false
      → ((m : ℕ)
          → Cut m o.key
              (o.key ∷ seen)
              os
              (page_of m (first (suc m) (shown libs o.key (o.key ∷ seen) os))))
      → Cut n c seen (o ∷ os) (page_of n (first (suc n) (shown libs c seen (o ∷ os))))
  unfolding page_of shown
  page_of-Cut_shown zero c seen o os q h =
      let shape : shown libs c seen (o ∷ os)
          ≡ record { object = o; cursor = c } ∷ shown libs o.key (o.key ∷ seen) os =
        rw q refl in
      subst (λ fs. Cut zero c seen (o ∷ os) (page_of zero (first (suc zero) fs))) (sym shape)
        (record {
          front = [];
          back = o ∷ os;
          split = refl;
          used = refl;
          full = refl;
          resume = refl;
          more = λ e. absurd (cc (e, shape));
        })
  page_of-Cut_shown (suc n) c seen o os q h =
      let shape : shown libs c seen (o ∷ os)
          ≡ record { object = o; cursor = c } ∷ shown libs o.key (o.key ∷ seen) os =
        rw q refl in
      subst (λ fs. Cut (suc n) c seen (o ∷ os) (page_of (suc n) (first (suc (suc n)) fs)))
        (sym shape)
        (Cut-shown n c seen o os (page_of n (first (suc n) (shown libs o.key (o.key ∷ seen) os))) q
          (h n))

  page_of-Cut :
      (n : ℕ) (c : Bytes) (seen : List Bytes) (post : List ObjectInfo)
      → Cut n c seen post (page_of n (first (suc n) (shown libs c seen post)))
  unfolding page_of shown
  page_of-Cut n c seen [] = refl
  page_of-Cut n c seen (o ∷ os) = elim (Bool-cases (is_encoded_variant libs o.key seen)) [
    | inl q ↦
        let shape : shown libs c seen (o ∷ os) ≡ shown libs o.key (o.key ∷ seen) os = rw q refl in
        subst (λ fs. Cut n c seen (o ∷ os) (page_of n (first (suc n) fs))) (sym shape)
          (Cut-hidden n c seen o os (page_of n (first (suc n) (shown libs o.key (o.key ∷ seen) os)))
            q (page_of-Cut n o.key (o.key ∷ seen) os))
    | inr q ↦ page_of-Cut_shown n c seen o os q (λ m. page_of-Cut m o.key (o.key ∷ seen) os)
  ]

-- A page that ends the listing, or a full page with the cursor behind which the next one goes on.
abbrev pub Page :
    Libraries → ℕ → List ObjectInfo → List Bytes → List ObjectInfo → FileListing → Type 0
Page libs limit pre seed post l =
    ((l.has_more ≡ false) × (l.files ≡ map file_of (shown libs (cursor_of [] pre) seed post)))
    ⊎ ((l.has_more ≡ true)
        × (front : List ObjectInfo) × (back : List ObjectInfo) × (post ≡ front ++ back)
        × (l.files ≡ map file_of (shown libs (cursor_of [] pre) seed front))
        × (length l.files ≡ limit)
        × (l.next ≡ cursor_of [] (pre ++ front))
        × (shown libs (cursor_of [] (pre ++ front)) (seen_after front seed) back ≢ []))

length-map_file : (fs : List PagedFile) → length (map file_of fs) ≡ length fs
length-map_file [] = refl
length-map_file (f ∷ fs) = omega (arith, length-map_file fs)

listing_of-Page :
    (libs : Libraries) (limit : ℕ) (pre post : List ObjectInfo) (seed : List Bytes)
    (version : Bytes) (single : Bool) (r : List PagedFile × Option Bytes)
    → Cut libs limit (cursor_of [] pre) seed post r
    → Page libs limit pre seed post (listing_of version single r)
listing_of-Page libs limit pre post seed version single (fs, none) h =
    inl (refl, ap (map file_of) h)
listing_of-Page libs limit pre post seed version single (fs, some next) h =
    let joined = cursor_of-append [] pre h.front in
    inr (
      refl,
      h.front,
      h.back,
      h.split,
      ap (map file_of) h.used,
      length-map_file fs ∙ h.full,
      h.resume ∙ sym joined,
      subst (λ c. shown libs c (seen_after h.front seed) h.back ≢ []) (sym joined) h.more,
    )

-- What a page knows of the keys before it, by its cursor: the cursor, and what the cursor encodes.
abbrev pub known_before : Bytes → Bytes → Bool
known_before [] j = false
known_before (c ∷ s) j =
    text_eq j (c ∷ s) || (text_eq (c ∷ s) (j ++ codes ".br") || text_eq (c ∷ s) (j ++ codes ".gz"))

holds-stripped : (j k x : Bytes) → holds j (stripped (cut_suffix k x)) ≡ text_eq k (j ++ x)
holds-stripped j k x = elim (Option-cases (cut_suffix k x)) [
  | inl e ↦ elim (Bool-cases (text_eq k (j ++ x))) [
    | inr q ↦ rw (e, q) refl
    | inl q ↦
        let same =
          ap (λ t. cut_suffix t x) ((text_eq_iff k (j ++ x)).0 q) ∙ cut_suffix-append j x in
        absurd (cc (same, e))
  ]
  | inr (r, e) ↦
      let split = cut_suffix-eq_some k x r e in
      rw (e) (elim (Bool-cases (text_eq r j)) [
        | inl q ↦
            let whole : text_eq k (j ++ x) ≡ true =
              (text_eq_iff k (j ++ x)).1 (split ∙ ap (λ t. t ++ x) ((text_eq_iff r j).0 q)) in
            rw (q, whole) refl
        | inr q ↦ elim (Bool-cases (text_eq k (j ++ x))) [
          | inr q' ↦ rw (q, q') refl
          | inl q' ↦
              let same =
                ap (λ t. cut_suffix t x) ((text_eq_iff k (j ++ x)).0 q') ∙ cut_suffix-append j x in
              let alike : r ≡ j = cc (same, e) in absurd (cc (q, (text_eq_iff r j).1 alike))
        ]
      ])
]

text_eq_comm : (s t : Bytes) → text_eq s t ≡ text_eq t s
text_eq_comm s t = ground (arith, text_eq_iff s t, text_eq_iff t s)

pub holds-seed_boundary_keys :
    (after j : Bytes) → holds j (seed_boundary_keys after) ≡ known_before after j
unfolding seed_boundary_keys suffix
holds-seed_boundary_keys [] j = refl
holds-seed_boundary_keys (c ∷ s) j =
    let brotli_key = holds-stripped j (c ∷ s) (codes ".br") in
    let gzip_key = holds-stripped j (c ∷ s) (codes ".gz") in
    ap (λ b. text_eq (c ∷ s) j || b)
      (holds-append j (stripped (cut_suffix (c ∷ s) (codes ".br")))
        (stripped (cut_suffix (c ∷ s) (codes ".gz"))))
    ∙ rw (brotli_key, gzip_key, text_eq_comm (c ∷ s) j) refl

module _ {W Object : Type 0} (svc : Service W Object) (pkg found : Bytes) (w : W)
    (all : List ObjectInfo)
    (listed : Listed svc.client svc.osm.bucket_name
      (at_version pkg found ++ (slash ∷ []))
      w
      all) where
  -- The version whose files a request lists.
  abbrev pub Names : Bytes → Type 0
  Names version =
      ((is_pinned_version svc.semver version ≡ true) × (version ≡ found))
      ⊎ ((is_pinned_version svc.semver version ≡ false)
          × (resolve_version svc.semver
                (list_common_prefixes svc.client svc.osm (pkg ++ (b'@' ∷ [])) w) pkg version
              ≡ some found))

  list_files-Page :
      (fuel limit : ℕ) (pre post : List ObjectInfo) (seed : List Bytes)
      → ((j : Bytes) → holds j seed ≡ known_before (cursor_of [] pre) j)
      → 0 < limit
      → all ≡ pre ++ post
      → length post < fuel
      → (l : FileListing) × (list_files svc fuel pkg found (cursor_of [] pre) limit w ≡ some l)
        × Page svc.libs limit pre seed post l
  unfolding list_files
  list_files-Page fuel limit pre post seed known roomy split small =
      let prefix = at_version pkg found ++ (slash ∷ []) in
      let c = cursor_of [] pre in
      let single = single_page svc prefix c limit w in
      let fs = first (suc limit) (shown svc.libs c seed post) in
      (
        listing_of found single (page_of limit fs),
        ap (finished_listing svc found single limit) (
            collect-shown svc prefix w all listed limit roomy fuel (suc limit) pre post
              (seed_boundary_keys c) seed c split small
              (λ j. holds-seed_boundary_keys c j ∙ sym (known j)) (inr refl)),
        listing_of-Page svc.libs limit pre post seed found single (page_of limit fs)
            (page_of-Cut svc.libs limit c seed post),
      )

  -- With a store that lists the version's objects in the order of their keys, a request for that
  -- version with a positive limit and more fuel than there are objects behind the cursor returns. It
  -- answers every object behind the cursor that is no encoded variant of one that it knows, and that
  -- there are no more; or it answers exactly `limit` of them, the first ones, and the next cursor
  -- stands behind the objects it has used up and before at least one that is still to be listed. It
  -- knows the objects that come before, from the cursor on, the cursor's own key, and the key that
  -- the cursor encodes, but no key farther back.
  pub get_files-Page :
      (fuel limit : ℕ) (version : Bytes) (pre post : List ObjectInfo) (seed : List Bytes)
      → ((j : Bytes) → holds j seed ≡ known_before (cursor_of [] pre) j)
      → Names version
      → 0 < limit
      → all ≡ pre ++ post
      → length post < fuel
      → (l : FileListing) × (get_files svc fuel pkg version (cursor_of [] pre) limit w ≡ some l)
        × Page svc.libs limit pre seed post l
  unfolding get_files
  get_files-Page fuel limit version pre post seed known (inl (pinned, same)) roomy split small =
      let (l, found_l, page) = list_files-Page fuel limit pre post seed known roomy split small in
      (
        l,
        rw (pinned, get_files)
            (ap (λ v. list_files svc fuel pkg v (cursor_of [] pre) limit w) same ∙ found_l),
        page,
      )
  get_files-Page fuel limit version pre post seed known (inr (free, resolved)) roomy split small =
      let (l, found_l, page) = list_files-Page fuel limit pre post seed known roomy split small in
      (
        l,
        rw (free, get_files)
            (ap (resolved_files svc fuel pkg version (cursor_of [] pre) limit w) resolved
              ∙ found_l),
        page,
      )
