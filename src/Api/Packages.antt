-- ===== src/Api/Packages.antt =====
-- api/package-controller.go and internal/archive_validator. The form parser, the URL escapes, the
-- format of times and the MIME tables are parameters; messages are failures.
use gimme.Base.{
  ℕ, ℤ, Bytes, codes, text_eq, ltb, if◌then◌else◌, Bool, false, ◌||◌, List, [], ◌∷◌, ◌++◌, Option,
  none, some, map, pos, negsuc,
}
use gimme.Strings.{split_two}
use gimme.Errors.{
  Result, ok, err, GimmeError, get_http_code, business_error, bad_request, invalid_url,
  empty_package_name, empty_package_version, missing_input, invalid_input_type,
}
use gimme.Archive.{ZipFile}
use gimme.Version.{at_version, list_versions}
use gimme.Storage.{list_common_prefixes}
use gimme.Content.Upload.{Service, create_package}
use gimme.Content.Listing.{FileListing}
use gimme.Content.Serve.{CacheManager, delete_package}

pub record PackageSlice : Type 0 where
  pub name : Bytes
  pub version : Bytes

abbrev named_slice : Bytes → Bytes → Result PackageSlice
named_slice name version =
    if text_eq name []
    then business_error bad_request empty_package_name
    else if text_eq version []
    then business_error bad_request empty_package_version
    else ok (record { name = name; version = version })

abbrev pub slice_of : List Bytes → Result PackageSlice
slice_of (name ∷ version ∷ []) = named_slice name version
slice_of _ = business_error bad_request invalid_url

unfoldable pub get_slice : Bytes → Result PackageSlice
unfolding split_two text_eq
get_slice pkg = slice_of (split_two pkg b'@')

abbrev pub default_listing_limit : ℕ
default_listing_limit = 50

abbrev pub max_listing_limit : ℕ
max_listing_limit = 500

abbrev pub clamped : ℤ → ℕ
clamped (negsuc n) = 1
clamped (pos n) = if ltb n 1 then 1 else if ltb max_listing_limit n then max_listing_limit else n

-- `atoi` is strconv.Atoi.
unfoldable pub listing_limit : (Bytes → Option ℤ) → Bytes → ℕ
unfolding text_eq
listing_limit atoi raw =
    if text_eq raw []
    then default_listing_limit
    else elim (atoi raw) [ none ↦ default_listing_limit | some limit ↦ clamped limit ]

-- The escapes of net/url and strconv.Itoa.
unfoldable pub listing_url :
    (Bytes → Bytes) → (Bytes → Bytes) → (ℕ → Bytes) → Bytes → ℕ → Bytes → Bytes
unfolding text_eq
listing_url path_escape query_escape itoa pkg limit after =
    let path = codes "/gimme/" ++ (path_escape pkg ++ (codes "?limit=" ++ itoa limit)) in
    if text_eq after [] then path else path ++ (codes "&after=" ++ query_escape after)

-- A file of the form with its Content-Type header; `archive` is what the zip reader makes of it, and
-- `opens` whether it can be opened.
pub record FormFile : Type 0 where
  pub content_type : Bytes
  pub size : ℕ
  pub opens : Bool
  pub archive : Option (List ZipFile)

-- What reading the form gives.
pub data Form : Type 0 where
  body_too_large unbuffered malformed no_file : Form
  uploaded : FormFile → Form

abbrev accepted_type : Option Bytes → Bool
accepted_type none = false
accepted_type (some media) =
    text_eq media (codes "application/octet-stream") || text_eq media (codes "application/zip")

-- `parse_media_type` is mime.ParseMediaType.
unfoldable pub validate_file : (Bytes → Option Bytes) → Option FormFile → Option GimmeError
unfolding text_eq
validate_file parse_media_type none = some (record { kind = bad_request; err = missing_input })
validate_file parse_media_type (some file) =
    if accepted_type (parse_media_type file.content_type)
    then none
    else some (record { kind = bad_request; err = invalid_input_type })

-- The bodies of answers; the texts that a handler writes itself are not told apart.
pub data Reply (Object : Type 0) : Type 0 where
  nothing message : Reply Object
  failure_of : GimmeError → Reply Object
  versions_json : Bytes → List Bytes → Reply Object
  -- The name, the listing, the limit, and the total where it is known.
  listing_json : Bytes → FileListing → ℕ → Option ℕ → Reply Object
  -- The parameter of the path, the listing, and the URL of the next page.
  listing_page : Bytes → FileListing → Bytes → Reply Object
  versions_page : Bytes → List (Bytes × Bytes) → Reply Object
  stream : Bytes → ℕ → Object → Reply Object

pub record Response (Object : Type 0) : Type 0 where
  pub status : ℕ
  pub headers : List (Bytes × Bytes)
  pub body : Reply Object

abbrev pub bare : {Object : Type 0} → ℕ → Reply Object → Response Object
bare status body = record { status = status; headers = []; body = body }

abbrev pub refused : {Object : Type 0} → GimmeError → Response Object
refused e = bare (get_http_code e) (failure_of e)

module _ {W Object C : Type 0} (svc : Service W Object) (stat_ok : Object → W → Bool)
    (cache : Option (CacheManager C)) where
  abbrev answered : {A : Type 0} → ℕ → Option GimmeError × A → Response Object × A
  answered status (none, a) = (bare status nothing, a)
  answered status (some e, a) = (refused e, a)

  -- The part of `createPackage` behind the form.
  abbrev pub create_from :
      List ℕ → Bytes → Bytes → Option FormFile → Option GimmeError → W → Response Object × W
  create_from schedule name version file (some e) w = (refused e, w)
  create_from schedule name version none none w = (bare 500 message, w)
  create_from schedule name version (some file) none w =
      if file.opens
      then answered 201 (create_package svc schedule name version file.archive file.size w)
      else (bare 500 message, w)

  unfoldable pub create_package_handler : List ℕ → Bytes → Bytes → Form → W → Response Object × W
  unfolding validate_file create_package get_http_code
  create_package_handler schedule name version body_too_large w = (bare 413 message, w)
  create_package_handler schedule name version unbuffered w = (bare 500 message, w)
  create_package_handler schedule name version malformed w = (bare 400 message, w)
  create_package_handler schedule name version no_file w =
      create_from schedule name version none (validate_file svc.libs.parse_media_type none) w
  create_package_handler schedule name version (uploaded file) w =
      create_from schedule name version (some file)
        (validate_file svc.libs.parse_media_type (some file)) w

  abbrev pub deletion_answer : Option GimmeError × W × C → Response Object × W × C
  deletion_answer (none, w, c) = (bare 204 nothing, w, c)
  deletion_answer (some e, w, c) = (refused e, w, c)

  abbrev pub delete_slice : Result PackageSlice → W → C → Response Object × W × C
  delete_slice (err e) w c = (refused e, w, c)
  delete_slice (ok s) w c = deletion_answer (delete_package svc stat_ok cache s.name s.version w c)

  unfoldable pub delete_package_handler : Bytes → W → C → Response Object × W × C
  unfolding get_slice delete_package get_http_code
  delete_package_handler pkg w c = delete_slice (get_slice pkg) w c

module _ {W Object : Type 0} (svc : Service W Object) where
  -- `json` is the outcome of the negotiation of the format.
  unfoldable pub get_package_versions : (Bytes → Bytes) → Bool → Bool → Bytes → W → Response Object
  unfolding list_versions list_common_prefixes
  get_package_versions path_escape head json name w =
      let versions =
        list_versions svc.semver (list_common_prefixes svc.client svc.osm (name ++ (b'@' ∷ [])) w)
          name in
      elim versions [
        | [] ↦ bare 404 nothing
        | v ∷ vs ↦
            if head
            then record {
              status = 200;
              headers = (codes "Content-Type", codes "text/html; charset=utf-8") ∷ [];
              body = nothing;
            }
            else if json
            then bare 200 (versions_json name (v ∷ vs))
            else bare 200 (
                versions_page name (
                  map
                    (λ version. (version, codes "/gimme/" ++ path_escape (at_version name version)))
                    (v ∷ vs)))
      ]
