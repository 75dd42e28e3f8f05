-- ===== src/Content/Listing.antt =====
-- `GetFiles` of internal/content/content-service.go: the listing of a version's files by pages. The
-- loop over the store's pages runs on fuel, `none` when it is used up.
use gimme.Base.{
  ℕ, zero, suc, Bytes, text_eq, if◌then◌else◌, Bool, true, false, not, ◌&&◌, ◌||◌, List, [], ◌∷◌,
  ◌++◌, Option, none, some, length, map,
}
use gimme.Strings.{cut_suffix, slash}
use gimme.Storage.{ObjectInfo, keys_of, list_objects_page, list_common_prefixes}
use gimme.Storage.Laws.{holds}
use gimme.Version.{at_version, is_pinned_version, resolve_version}
use gimme.Content.{brotli, gzip, Libraries, suffix, is_compressible, compressible_content_type}
use gimme.Content.Upload.{Service}

pub record File : Type 0 where
  pub name : Bytes
  pub size : ℕ
  pub folder : Bool

pub record FileListing : Type 0 where
  pub version : Bytes
  pub files : List File
  pub next : Bytes
  pub has_more : Bool
  pub total : ℕ
  pub total_known : Bool

-- A file with the key before it.
pub record PagedFile : Type 0 where
  pub object : ObjectInfo
  pub cursor : Bytes

-- The identity object that a key may encode, for one encoding.
abbrev pub stripped : Option Bytes → List Bytes
stripped none = []
stripped (some sibling) = sibling ∷ []

unfoldable pub seed_boundary_keys : Bytes → List Bytes
unfolding cut_suffix suffix
seed_boundary_keys [] = []
seed_boundary_keys (c ∷ s) =
    (c ∷ s)
    ∷ (stripped (cut_suffix (c ∷ s) (suffix brotli)) ++ stripped (cut_suffix (c ∷ s) (suffix gzip)))

-- The set of keys is a list.
abbrev pub encodes : Libraries → Option Bytes → List Bytes → Bool
encodes libs none keys = false
encodes libs (some sibling) keys = holds sibling keys && is_compressible libs sibling

unfoldable pub is_encoded_variant : Libraries → Bytes → List Bytes → Bool
unfolding cut_suffix suffix compressible_content_type
is_encoded_variant libs key keys =
    encodes libs (cut_suffix key (suffix brotli)) keys
    || encodes libs (cut_suffix key (suffix gzip)) keys

-- What a run over one page has collected, the cursor behind it, and how many files still fit.
pub record Scanned : Type 0 where
  pub collected : List PagedFile
  pub cursor : Bytes
  pub room : ℕ

abbrev pub with_file : PagedFile → Scanned → Scanned
with_file f s = record s { collected = f ∷ s.collected }

unfoldable pub scan : Libraries → List Bytes → ℕ → List ObjectInfo → Bytes → Scanned
unfolding is_encoded_variant
scan libs keys zero os cursor = record { collected = []; cursor = cursor; room = zero }
scan libs keys (suc room) [] cursor = record { collected = []; cursor = cursor; room = suc room }
scan libs keys (suc room) (o ∷ os) cursor =
    let skipped = scan libs keys (suc room) os o.key in
    let rest = scan libs keys room os o.key in
    if is_encoded_variant libs o.key keys
    then skipped
    else with_file (record { object = o; cursor = cursor }) rest

abbrev pub file_of : PagedFile → File
file_of f = record { name = f.object.key; size = f.object.size; folder = false }

-- The first `limit` files, and the cursor of the one behind them.
unfoldable pub page_of : ℕ → List PagedFile → List PagedFile × Option Bytes
page_of limit [] = ([], none)
page_of zero (f ∷ fs) = ([], some f.cursor)
page_of (suc limit) (f ∷ fs) = let (page, next) = page_of limit fs in (f ∷ page, next)

abbrev pub listing_of : Bytes → Bool → List PagedFile × Option Bytes → FileListing
listing_of version single (page, none) = record {
  version = version;
  files = map file_of page;
  next = [];
  has_more = false;
  total = length (map file_of page);
  total_known = single;
}
listing_of version single (page, some next) = record {
  version = version;
  files = map file_of page;
  next = next;
  has_more = true;
  total = length (map file_of page);
  total_known = false;
}

abbrev pub empty_listing : Bytes → FileListing
empty_listing version = record {
  version = version;
  files = [];
  next = [];
  has_more = false;
  total = 0;
  total_known = false;
}

module _ {W Object : Type 0} (svc : Service W Object) where
  abbrev pub prepend : List PagedFile → Option (List PagedFile) → Option (List PagedFile)
  prepend fs none = none
  prepend fs (some gs) = some (fs ++ gs)

  -- The loop, with the number of files that still fit: one more than the page holds at first.
  unfoldable pub collect : ℕ → Bytes → ℕ → List Bytes → ℕ → Bytes → W → Option (List PagedFile)
  unfolding list_objects_page scan keys_of
  collect zero prefix limit keys room cursor w = none
  collect (suc fuel) prefix limit keys zero cursor w = some []
  collect (suc fuel) prefix limit keys (suc room) cursor w =
      let (objects, more) = list_objects_page svc.client svc.osm prefix cursor limit w in
      let known = keys_of objects ++ keys in
      let s = scan svc.libs known (suc room) objects cursor in
      let rest = collect fuel prefix limit known s.room s.cursor w in
      elim objects [
        | [] ↦ some []
        | o ∷ os ↦ if more then prepend s.collected rest else some s.collected
      ]

  -- Whether the first call of the store gave the whole listing.
  abbrev pub single_page : Bytes → Bytes → ℕ → W → Bool
  single_page prefix after limit w =
      text_eq after [] && not (list_objects_page svc.client svc.osm prefix after limit w).1

  abbrev pub finished_listing : Bytes → Bool → ℕ → Option (List PagedFile) → Option FileListing
  finished_listing version single limit none = none
  finished_listing version single limit (some fs) =
      some (listing_of version single (page_of limit fs))

  unfoldable pub list_files : ℕ → Bytes → Bytes → Bytes → ℕ → W → Option FileListing
  unfolding collect seed_boundary_keys page_of
  list_files fuel pkg version after limit w =
      let prefix = at_version pkg version ++ (slash ∷ []) in
      finished_listing version (single_page prefix after limit w) limit
        (collect fuel prefix limit (seed_boundary_keys after) (suc limit) after w)

  abbrev pub resolved_files : ℕ → Bytes → Bytes → Bytes → ℕ → W → Option Bytes → Option FileListing
  resolved_files fuel pkg version after limit w none = some (empty_listing version)
  resolved_files fuel pkg version after limit w (some found) =
      list_files fuel pkg found after limit w

  unfoldable pub get_files : ℕ → Bytes → Bytes → Bytes → ℕ → W → Option FileListing
  unfolding is_pinned_version resolve_version list_common_prefixes list_files
  get_files fuel pkg version after limit w =
      if is_pinned_version svc.semver version
      then list_files fuel pkg version after limit w
      else resolved_files fuel pkg version after limit w (
          resolve_version svc.semver
            (list_common_prefixes svc.client svc.osm (pkg ++ (b'@' ∷ [])) w) pkg version)
