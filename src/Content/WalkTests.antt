-- ===== src/Content/WalkTests.antt =====
-- The listing of a version of four files, one of them an encoded variant.
use gimme.Base.{
  Bytes, codes, text_eq, if◌then◌else◌, true, false, List, [], ◌∷◌, ◌++◌, Option, none, some, ◌≡◌,
  refl, map, subst, inl, arith,
}
use gimme.Storage.{ObjectInfo, Body}
use gimme.Storage.Memory.{Memory, memory_client}
use gimme.Version.{is_pinned_version}
use gimme.Content.Upload.{Service}
use gimme.Content.Listing.{File, FileListing, get_files, seed_boundary_keys}
use gimme.Content.{suffix}
use gimme.Strings.{cut_suffix}
use gimme.Storage.Laws.{holds}
use gimme.Content.Paging.{cursor_of}
use gimme.Content.Pages.{Listed}
use gimme.Content.Walk.{Page, known_before, holds-seed_boundary_keys, get_files-Page}
use gimme.Content.Tests.{service}

abbrev object : Bytes → ObjectInfo
object key = record { key = key; size = 7; failed = false }

abbrev x_js : ObjectInfo
x_js = object (codes "p@1.0.0/x.js")

abbrev x_two : ObjectInfo
x_two = object (codes "p@1.0.0/x.js-a")

abbrev x_three : ObjectInfo
x_three = object (codes "p@1.0.0/x.js-b")

abbrev x_br : ObjectInfo
x_br = object (codes "p@1.0.0/x.js.br")

abbrev four : List ObjectInfo
four = x_js ∷ x_two ∷ x_three ∷ x_br ∷ []

abbrev behind_key : Bytes → List ObjectInfo → List ObjectInfo
behind_key c [] = []
behind_key c (o ∷ os) = let rest = behind_key c os in if text_eq o.key c then os else rest

abbrev behind_cursor : Bytes → List ObjectInfo
behind_cursor c = if text_eq c [] then four else behind_key c four

abbrev listing_service : Service Memory Body
listing_service = record service {
  client = record memory_client { list_objects = λ b o w. behind_cursor o.start_after };
}

behind_four :
    (pre post : List ObjectInfo) → four ≡ pre ++ post → behind_cursor (cursor_of [] pre) ≡ post
unfolding text_eq
behind_four [] post e = e
behind_four (p ∷ []) post e =
    let at : x_js ≡ p = cc in
    let left : x_two ∷ x_three ∷ x_br ∷ [] ≡ post = cc in
    subst (λ (o : ObjectInfo). behind_cursor o.key ≡ post) at left
behind_four (p ∷ q ∷ []) post e =
    let at : x_two ≡ q = cc in
    let left : x_three ∷ x_br ∷ [] ≡ post = cc in
    subst (λ (o : ObjectInfo). behind_cursor o.key ≡ post) at left
behind_four (p ∷ q ∷ r ∷ []) post e =
    let at : x_three ≡ r = cc in
    let left : x_br ∷ [] ≡ post = cc in
    subst (λ (o : ObjectInfo). behind_cursor o.key ≡ post) at left
behind_four (p ∷ q ∷ r ∷ s ∷ []) post e =
    let at : x_br ≡ s = cc in
    let left : [] ≡ post = cc in subst (λ (o : ObjectInfo). behind_cursor o.key ≡ post) at left
behind_four (p ∷ q ∷ r ∷ s ∷ t ∷ pre) post e = absurd (cc)

four-Listed : Listed listing_service.client (codes "gimme") (codes "p@1.0.0/") [] four
four-Listed = record {
  behind = λ pre post m e. behind_four pre post e;
  in_order = ((refl, (refl, (refl, tt))), ((refl, (refl, tt)), ((refl, tt), (tt, tt))));
  no_failures = (refl, (refl, (refl, (refl, tt))));
}

pinned : is_pinned_version listing_service.semver (codes "1.0.0") ≡ true
unfolding is_pinned_version
pinned = refl

-- The cursor encodes nothing, so that it is the one key known.
cursor_known :
    (j : Bytes) → holds j (codes "p@1.0.0/x.js" ∷ []) ≡ known_before (codes "p@1.0.0/x.js") j
unfolding seed_boundary_keys cut_suffix suffix
cursor_known = holds-seed_boundary_keys (codes "p@1.0.0/x.js")

get_files-Page_example :
    (l : FileListing) × (get_files listing_service 5
        (codes "p")
        (codes "1.0.0")
        (codes "p@1.0.0/x.js")
        1
        []
      ≡ some l)
    × Page listing_service.libs 1
        (x_js ∷ [])
        (codes "p@1.0.0/x.js" ∷ [])
        (x_two ∷ x_three ∷ x_br ∷ [])
        l
get_files-Page_example =
    get_files-Page listing_service (codes "p") (codes "1.0.0") [] four four-Listed 5 1
      (codes "1.0.0") (x_js ∷ []) (x_two ∷ x_three ∷ x_br ∷ []) (codes "p@1.0.0/x.js" ∷ [])
      cursor_known (inl (pinned, refl)) (omega arith) refl (omega arith)

abbrev names_of : Option FileListing → List Bytes
names_of none = []
names_of (some l) = map (λ (f : File). f.name) l.files

-- In one page the variant is hidden.
run_whole :
    names_of (get_files listing_service 5 (codes "p") (codes "1.0.0") [] 4 [])
    ≡ codes "p@1.0.0/x.js" ∷ codes "p@1.0.0/x.js-a" ∷ codes "p@1.0.0/x.js-b" ∷ []
unfolding get_files
run_whole = refl

-- Behind `x.js-b`, where a walk by pages of one file gets to, the variant is listed.
run_behind :
    names_of (get_files listing_service 5 (codes "p") (codes "1.0.0") (codes "p@1.0.0/x.js-b") 1 [])
    ≡ codes "p@1.0.0/x.js.br" ∷ []
unfolding get_files
run_behind = refl
