-- ===== src/Content/Pages.antt =====
-- Proofs about `GetFiles`: the loop over the pages of the store, and the page it answers.
use gimme.Base.{
  ℕ, zero, suc, ◌+◌, ◌<◌, Bytes, if◌then◌else◌, Bool, true, false, ◌||◌, List, [], ◌∷◌, ◌++◌,
  Option, some, length, length-append, All, All-left, All-right, ◌≡◌, ◌⊎◌, inl, inr, refl, sym, ap,
  ◌∙◌, subst, arith, Bool-cases, append_assoc, append-nil,
}
use gimme.Storage.{ObjectInfo, ObjectStorageClient, keys_of, take_page, list_objects_page}
use gimme.Storage.Laws.{holds}
use gimme.Content.{Libraries}
use gimme.Content.Upload.{Service}
use gimme.Content.Listing.{PagedFile, Scanned, is_encoded_variant, scan, collect, prepend}
use gimme.Content.Paging.{
  Ordered, cursor_of, seen_after, first, shown, PageOf, take_page-PageOf, Covers, Covers-step,
  is_encoded_variant-same,
}

module _ (libs : Libraries) where
  -- What a run over a page collects, and what is left for the pages behind it.
  abbrev Continues : ℕ → Bytes → List Bytes → List ObjectInfo → List ObjectInfo → Scanned → Type 0
  Continues room c seen os rest s =
      (first room (shown libs c seen (os ++ rest))
        ≡ s.collected ++ first s.room (shown libs (cursor_of c os) (seen_after os seen) rest))
      × ((s.room ≡ 0) ⊎ (s.cursor ≡ cursor_of c os))

  scan-Continues :
      (room : ℕ) (known seen : List Bytes) (os rest : List ObjectInfo) (c : Bytes)
      → Ordered os
      → Covers known os seen
      → Continues room c seen os rest (scan libs known room os c)
  unfolding scan shown
  scan-Continues zero known seen os rest c up h = (refl, inl refl)
  scan-Continues (suc room) known seen [] rest c up h = (refl, inr refl)
  scan-Continues (suc room) known seen (o ∷ os) rest c (above, up) h =
      let same = is_encoded_variant-same libs known seen o os above h in
      let h' = Covers-step known seen o os h in
      elim (Bool-cases (is_encoded_variant libs o.key known)) [
        | inl q ↦
            let q' : is_encoded_variant libs o.key seen ≡ true = sym same ∙ q in
            rw (q, q') (scan-Continues (suc room) known (o.key ∷ seen) os rest o.key up h')
        | inr q ↦
            let q' : is_encoded_variant libs o.key seen ≡ false = sym same ∙ q in
            let (files, cursor) = scan-Continues room known (o.key ∷ seen) os rest o.key up h' in
            rw (q, q') (ap (λ fs. record { object = o; cursor = c } ∷ fs) files, cursor)
      ]

Ordered-left : (os ps : List ObjectInfo) → Ordered (os ++ ps) → Ordered os
Ordered-left [] ps h = tt
Ordered-left (o ∷ os) ps (above, h) = (All-left _ os ps above, Ordered-left os ps h)

Ordered-right : (os ps : List ObjectInfo) → Ordered (os ++ ps) → Ordered ps
Ordered-right [] ps h = h
Ordered-right (o ∷ os) ps (above, h) = Ordered-right os ps h

pub cursor_of-append :
    (c : Bytes) (os ps : List ObjectInfo) → cursor_of c (os ++ ps) ≡ cursor_of (cursor_of c os) ps
cursor_of-append c [] ps = refl
cursor_of-append c (o ∷ os) ps = cursor_of-append o.key os ps

pub holds-append :
    (j : Bytes) (xs ys : List Bytes) → holds j (xs ++ ys) ≡ (holds j xs || holds j ys)
holds-append j [] ys = refl
holds-append j (x ∷ xs) ys = ground (arith, holds-append j xs ys)

holds-seen_after :
    (j : Bytes) (os : List ObjectInfo) (seen : List Bytes)
    → holds j (seen_after os seen) ≡ (holds j (keys_of os) || holds j seen)
unfolding keys_of
holds-seen_after j [] seen = refl
holds-seen_after j (o ∷ os) seen = ground (arith, holds-seen_after j os (o.key ∷ seen))

-- What is relied on of the store's listing of a prefix: it is some list of objects in the order of
-- their keys, and a listing after a cursor gives the objects behind it.
pub record Listed {W Object : Type 0} (client : ObjectStorageClient W Object)
    (bucket prefix : Bytes) (w : W) (all : List ObjectInfo) : Type 0 where
  pub behind :
      (pre post : List ObjectInfo) (m : ℕ)
      → all ≡ pre ++ post
      → client.list_objects bucket
          (record {
            prefix = prefix;
            recursive = true;
            start_after = cursor_of [] pre;
            max_keys = m;
          })
          w
        ≡ post
  pub in_order : Ordered all
  pub no_failures : All (λ (o : ObjectInfo). o.failed ≡ false) all

first-nil : (n : ℕ) → first n [] ≡ []
first-nil zero = refl
first-nil (suc n) = refl

module _ {W Object : Type 0} (svc : Service W Object) (prefix : Bytes) (w : W)
    (all : List ObjectInfo) (listed : Listed svc.client svc.osm.bucket_name prefix w all)
    (limit : ℕ) (roomy : 0 < limit) where
  -- The loop of that much fuel collects the files that are shown behind each cursor.
  abbrev pub Collects : ℕ → Type 0
  Collects fuel =
      (room : ℕ) (pre post : List ObjectInfo) (keys seen : List Bytes) (c : Bytes)
      → all ≡ pre ++ post
      → length post < fuel
      → ((j : Bytes) → holds j keys ≡ holds j seen)
      → (room ≡ 0) ⊎ (c ≡ cursor_of [] pre)
      → collect svc fuel prefix limit keys room c w
        ≡ some (first room (shown svc.libs (cursor_of [] pre) seen post))

  -- The rest of a round, behind the call of the store.
  abbrev after_page : ℕ → List Bytes → ℕ → Bytes → List ObjectInfo × Bool → Option (List PagedFile)
  after_page fuel keys room c r =
      let known = keys_of r.0 ++ keys in
      let s = scan svc.libs known (suc room) r.0 c in
      let rest = collect svc fuel prefix limit known s.room s.cursor w in
      elim r.0 [
        | [] ↦ some []
        | o ∷ os ↦ if r.1 then prepend svc s.collected rest else some s.collected
      ]

  module _ (room : ℕ) (pre post : List ObjectInfo) (keys seen : List Bytes)
      (split : all ≡ pre ++ post) (same : (j : Bytes) → holds j keys ≡ holds j seen) where
    page-Continues :
        (r : List ObjectInfo × Bool) (p : PageOf limit post r)
        → Continues svc.libs
            (suc room)
            (cursor_of [] pre)
            seen
            r.0
            p.rest
            (scan svc.libs (keys_of r.0 ++ keys) (suc room) r.0 (cursor_of [] pre))
    page-Continues r p =
        scan-Continues svc.libs (suc room) (keys_of r.0 ++ keys) seen r.0 p.rest (cursor_of [] pre)
          (Ordered-left r.0 p.rest
            (subst Ordered p.whole (Ordered-right pre post (subst Ordered split listed.in_order))))
          (λ j. holds-append j (keys_of r.0) keys ∙ ap (λ b. holds j (keys_of r.0) || b) (same j))

    -- The files behind the cursor: what the run over the page collects, and what follows.
    page-shown :
        (r : List ObjectInfo × Bool) (p : PageOf limit post r)
        → first (suc room) (shown svc.libs (cursor_of [] pre) seen post)
          ≡ (scan svc.libs (keys_of r.0 ++ keys) (suc room) r.0 (cursor_of [] pre)).collected
            ++ first
                (scan svc.libs (keys_of r.0 ++ keys) (suc room) r.0 (cursor_of [] pre)).room
                (shown svc.libs (cursor_of (cursor_of [] pre) r.0) (seen_after r.0 seen) p.rest)
    page-shown r p =
        ap (λ os. first (suc room) (shown svc.libs (cursor_of [] pre) seen os)) p.whole
        ∙ (page-Continues r p).0

    next-Collects :
        (fuel : ℕ) (r : List ObjectInfo × Bool) (p : PageOf limit post r)
        → Collects fuel
        → length p.rest < fuel
        → prepend svc
            (scan svc.libs (keys_of r.0 ++ keys) (suc room) r.0 (cursor_of [] pre)).collected
            (collect svc fuel prefix limit
              (keys_of r.0 ++ keys)
              (scan svc.libs (keys_of r.0 ++ keys) (suc room) r.0 (cursor_of [] pre)).room
              (scan svc.libs (keys_of r.0 ++ keys) (suc room) r.0 (cursor_of [] pre)).cursor
              w)
          ≡ some (first (suc room) (shown svc.libs (cursor_of [] pre) seen post))
    next-Collects fuel r p ih small =
        let s = scan svc.libs (keys_of r.0 ++ keys) (suc room) r.0 (cursor_of [] pre) in
        let joined = cursor_of-append [] pre r.0 in
        let split' : all ≡ (pre ++ r.0) ++ p.rest =
          split ∙ ap (λ os. pre ++ os) p.whole ∙ sym (append_assoc pre r.0 p.rest) in
        let same' : (j : Bytes) → holds j (keys_of r.0 ++ keys) ≡ holds j (seen_after r.0 seen) =
          λ j.
            holds-append j (keys_of r.0) keys
            ∙ ap (λ b. holds j (keys_of r.0) || b) (same j)
            ∙ sym (holds-seen_after j r.0 seen) in
        let at : (s.room ≡ 0) ⊎ (s.cursor ≡ cursor_of [] (pre ++ r.0)) =
          elim (page-Continues r p).1 [ inl e ↦ inl e | inr e ↦ inr (e ∙ sym joined) ] in
        let found =
          ih s.room (pre ++ r.0) p.rest (keys_of r.0 ++ keys) (seen_after r.0 seen) s.cursor split'
            small same' at in
        ap (prepend svc s.collected) found
        ∙ ap
            (λ c.
              some (s.collected ++ first s.room (shown svc.libs c (seen_after r.0 seen) p.rest)))
            joined
        ∙ ap some (sym (page-shown r p))

    after_page-shown :
        (fuel : ℕ) (r : List ObjectInfo × Bool) (p : PageOf limit post r)
        → Collects fuel
        → length post < suc fuel
        → after_page fuel keys room (cursor_of [] pre) r
          ≡ some (first (suc room) (shown svc.libs (cursor_of [] pre) seen post))
    unfolding shown
    after_page-shown fuel ([], more) p ih small =
        ap (λ os. some (first (suc room) (shown svc.libs (cursor_of [] pre) seen os)))
          (sym (p.progress roomy refl))
    after_page-shown fuel (o ∷ os, false) p ih small =
        let s = scan svc.libs (keys_of (o ∷ os) ++ keys) (suc room) (o ∷ os) (cursor_of [] pre) in
        let nothing_left =
          ap
            (λ rest.
              s.collected
              ++ first s.room (
                  shown svc.libs (cursor_of (cursor_of [] pre) (o ∷ os)) (seen_after (o ∷ os) seen)
                    rest))
            (p.last refl) in
        ap some (
          sym (
            page-shown (o ∷ os, false) p
            ∙ nothing_left
            ∙ ap (λ fs. s.collected ++ fs) (first-nil s.room)
            ∙ append-nil s.collected))
    after_page-shown fuel (o ∷ os, true) p ih small =
        next-Collects fuel (o ∷ os, true) p ih
          (omega (
            arith,
            ap (λ (x : List ObjectInfo). length x) p.whole,
            length-append {0} (o ∷ os) p.rest,
            small,
          ))

  round-Collects : (fuel : ℕ) → Collects fuel → Collects (suc fuel)
  unfolding collect
  round-Collects fuel ih zero pre post keys seen c split small same at = refl
  round-Collects fuel ih (suc room) pre post keys seen c split small same (inl e) =
      absurd (omega (arith, e))
  round-Collects fuel ih (suc room) pre post keys seen c split small same (inr e) =
      let page : list_objects_page svc.client svc.osm prefix (cursor_of [] pre) limit w
          ≡ take_page limit post =
        unfold list_objects_page in
        ap (take_page limit) (listed.behind pre post (limit + 1) split) in
      let fine =
        All-right (λ (o : ObjectInfo). o.failed ≡ false) pre post
          (subst (All (λ (o : ObjectInfo). o.failed ≡ false)) split listed.no_failures) in
      ap (λ c'. collect svc (suc fuel) prefix limit keys (suc room) c' w) e
      ∙ ap (after_page fuel keys room (cursor_of [] pre)) page
      ∙ after_page-shown room pre post keys seen split same fuel (take_page limit post)
          (take_page-PageOf limit post fine) ih small

  -- Enough fuel: more than there are objects.
  pub collect-shown : (fuel : ℕ) → Collects fuel
  collect-shown zero = λ room pre post keys seen c split small same at. absurd (omega arith)
  collect-shown (suc fuel) = round-Collects fuel (collect-shown fuel)
