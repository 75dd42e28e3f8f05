-- ===== src/Storage.antt =====
-- internal/storage/objectstorage-manager.go over the client of internal/storage/objectstorage-client.go,
-- which the MinIO library implements: the client is a record of operations on a world `W`. Reads see
-- the world and leave it; the latency histogram is not modelled.
pub mod Laws
pub mod Memory
pub mod Tests
use gimme.Base.{
  ℕ, zero, suc, ◌+◌, ◌==◌, Bytes, codes, if◌then◌else◌, Bool, true, false, ◌&&◌, List, [], ◌∷◌,
  ◌++◌, Option, none, some, length,
}
use gimme.Strings.{slash}
use gimme.Errors.{
  GimmeError, Failure, internal_error, input_unopened, put_failed, get_failed, removal_failed,
  bucket_failed, unreachable, Result, ok, err,
}
use gimme.Archive.{ZipFile, Contents, unopened, unread, bytes}

-- The fields of minio.ObjectInfo that the program reads; an item of a listing may be an error.
pub record ObjectInfo : Type 0 where
  pub key : Bytes
  pub size : ℕ
  pub failed : Bool

pub record ListOptions : Type 0 where
  pub prefix : Bytes
  pub recursive : Bool
  pub start_after : Bytes
  pub max_keys : ℕ

pub record PutOptions : Type 0 where
  pub content_type : Bytes
  pub integrity : Option Bytes

-- What is sent: bytes, or a reader over an archive entry with the entry's declared size.
pub data Body : Type 0 where
  whole : Bytes → Body
  entry : Contents → ℕ → Body

pub record ObjectStorageClient (W Object : Type 0) : Type 0 where
  -- `true` is success.
  pub make_bucket : Bytes → Bytes → W → Bool × W
  pub bucket_exists : Bytes → W → Option Bool
  pub list_objects : Bytes → ListOptions → W → List ObjectInfo
  pub put_object : Bytes → Bytes → Body → PutOptions → W → Bool × W
  pub get_object : Bytes → Bytes → W → Option Object
  -- The names of the objects whose deletion failed.
  pub remove_objects : Bytes → List Bytes → W → List Bytes × W

pub record ObjectStorageManager : Type 0 where
  pub bucket_name : Bytes
  pub location : Bytes

-- A manager whose bucket is not made yet.
abbrev pub new_object_storage_manager : ObjectStorageManager
new_object_storage_manager = record { bucket_name = []; location = [] }

abbrev pub internal : Failure → Option GimmeError
internal f = some (record { kind = internal_error; err = f })

-- The items of a listing that are no errors.
unfoldable pub listed_objects : List ObjectInfo → List ObjectInfo
listed_objects [] = []
listed_objects (o ∷ os) = let rest = listed_objects os in if o.failed then rest else o ∷ rest

unfoldable pub keys_of : List ObjectInfo → List Bytes
keys_of [] = []
keys_of (o ∷ os) = o.key ∷ keys_of os

unfoldable pub read_errors : List ObjectInfo → List Bytes
read_errors [] = []
read_errors (o ∷ os) = let rest = read_errors os in if o.failed then o.key ∷ rest else rest

-- The loop of `ListObjectsPage`, with the number of objects that still fit.
unfoldable pub take_page : ℕ → List ObjectInfo → List ObjectInfo × Bool
take_page room [] = ([], false)
take_page room (o ∷ os) = if o.failed then take_page room os else elim room [
  | zero ↦ ([], true)
  | suc r ↦ let (page, more) = take_page r os in (o ∷ page, more)
]

abbrev pub under : Bytes → ListOptions
under prefix = record { prefix = prefix; recursive = true; start_after = []; max_keys = 0 }

abbrev pub content_type_or : Bytes → Bytes
content_type_or [] = codes "text/plain"
content_type_or (c ∷ s) = c ∷ s

abbrev some_integrity : Bytes → Option Bytes
some_integrity [] = none
some_integrity (c ∷ s) = some (c ∷ s)

module _ {W Object : Type 0} (client : ObjectStorageClient W Object)
    (osm : ObjectStorageManager) where
  unfoldable pub list_objects_page : Bytes → Bytes → ℕ → W → List ObjectInfo × Bool
  unfolding take_page
  list_objects_page prefix after limit w = take_page limit (
      client.list_objects osm.bucket_name
        (record { prefix = prefix; recursive = true; start_after = after; max_keys = limit + 1 }) w)

  unfoldable pub list_common_prefixes : Bytes → W → List Bytes
  unfolding listed_objects keys_of
  list_common_prefixes prefix w = keys_of (
      listed_objects (
        client.list_objects osm.bucket_name
          (record { prefix = prefix; recursive = false; start_after = []; max_keys = 0 }) w))

  unfoldable pub list_objects : Bytes → W → List ObjectInfo
  unfolding listed_objects
  list_objects parent w = listed_objects (client.list_objects osm.bucket_name (under parent) w)

  abbrev pub put_result : Bytes → Bool × W → Option GimmeError × W
  put_result key (true, w) = (none, w)
  put_result key (false, w) = (internal (put_failed key), w)

  unfoldable pub add_bytes : Bytes → Bytes → Bytes → Bytes → W → Option GimmeError × W
  add_bytes key content content_type integrity w = put_result key (
      client.put_object osm.bucket_name key (whole content)
        (record { content_type = content_type; integrity = some_integrity integrity }) w)

  abbrev pub send : Bytes → Bytes → ZipFile → Bytes → Contents → W → Option GimmeError × W
  send content_type key file integrity unopened w = (internal input_unopened, w)
  send content_type key file integrity contents w = put_result key (
      client.put_object osm.bucket_name key (entry contents file.uncompressed_size)
        (record { content_type = content_type; integrity = some_integrity integrity }) w)

  -- `type_of` is mime.TypeByExtension of the entry's extension.
  unfoldable pub add_object : (Bytes → Bytes) → Bytes → ZipFile → Bytes → W → Option GimmeError × W
  add_object type_of key file integrity w =
      if file.is_dir
      then (none, w)
      else send (content_type_or (type_of file.name)) key file integrity file.contents w

  unfoldable pub get_object : Bytes → W → Result Object
  get_object key w = elim (client.get_object osm.bucket_name key w) [
    | none ↦ err (record { kind = internal_error; err = get_failed key })
    | some object ↦ ok object
  ]

  abbrev pub any_object : List ObjectInfo → Bool
  any_object [] = false
  any_object (o ∷ os) = true

  unfoldable pub object_exists : Bytes → W → Bool
  unfolding listed_objects
  object_exists name w =
      any_object
        (listed_objects (client.list_objects osm.bucket_name (under (name ++ (slash ∷ []))) w))

  unfoldable pub ping : W → Option GimmeError
  ping w = elim (client.bucket_exists osm.bucket_name w) [
    | none ↦ internal unreachable
    | some true ↦ none
    | some false ↦ internal (bucket_failed osm.bucket_name)
  ]

  abbrev pub removal_result : List Bytes → List Bytes × W → Option GimmeError × W
  removal_result [] ([], w) = (none, w)
  removal_result (k ∷ ks) (failures, w) = (internal removal_failed, w)
  removal_result [] (k ∷ ks, w) = (internal removal_failed, w)

  -- The listing feeds the removal; errors of either are collected.
  unfoldable pub remove_objects : Bytes → W → Option GimmeError × W
  unfolding listed_objects keys_of read_errors
  remove_objects parent w =
      let found = client.list_objects osm.bucket_name (under parent) w in
      removal_result (read_errors found)
        (client.remove_objects osm.bucket_name (keys_of (listed_objects found)) w)

module _ {W Object : Type 0} (client : ObjectStorageClient W Object) where
  abbrev owned : Option Bool → Bool
  owned none = false
  owned (some exists) = exists

  -- A bucket that cannot be made is taken if it exists already.
  unfoldable pub create_bucket :
      Bytes → Bytes → ObjectStorageManager → W → Option GimmeError × ObjectStorageManager × W
  create_bucket name location osm w =
      let (made, w') = client.make_bucket name location w in
      if made
      then (none, record { bucket_name = name; location = location }, w')
      else if owned (client.bucket_exists name w')
      then (none, record { bucket_name = name; location = location }, w')
      else (internal (bucket_failed name), osm, w')
