-- ===== src/Api/Routes.antt =====
-- `getPackage`, `getPackageFolder` and `getHTMLPackage` of api/package-controller.go. The escapes of
-- net/url, strconv and the negotiation of the format are parameters; `none` is a listing that runs
-- out of fuel.
use gimme.Base.{
  ℕ, ℤ, Bytes, codes, text_eq, if◌then◌else◌, Bool, true, false, not, ◌&&◌, [], ◌∷◌, ◌++◌, Option,
  none, some,
}
use gimme.Strings.{contains, slash}
use gimme.Errors.{ok, err}
use gimme.Content.Upload.{Service}
use gimme.Content.Serve.{CacheManager}
use gimme.Content.Listing.{FileListing, get_files}
use gimme.Api.Negotiate.{Quality}
use gimme.Api.Packages.{
  PackageSlice, nothing, listing_json, listing_page, Response, bare, refused, get_slice,
  listing_limit, listing_url, get_package_versions,
}
use gimme.Api.Files.{FileRequest, Stat, Times, get_package_file}

-- The libraries that the handlers call.
pub record Web : Type 0 where
  pub path_escape : Bytes → Bytes
  pub query_escape : Bytes → Bytes
  pub atoi : Bytes → Option ℤ
  pub itoa : ℕ → Bytes

-- The query of a listing, the method, and whether JSON is preferred to HTML.
pub record ListingRequest : Type 0 where
  pub limit : Bytes
  pub after : Bytes
  pub head : Bool
  pub json : Bool

abbrev link : Bytes → Bytes → Bytes
link url rel = b'<' ∷ (url ++ (codes ">; rel=\"" ++ (rel ++ codes "\"")))

module _ {W Object : Type 0} (svc : Service W Object) (web : Web) where
  abbrev links : Bytes → Bytes → Bytes
  links first_url next_url =
      if text_eq next_url []
      then link first_url (codes "first")
      else link first_url (codes "first") ++ (codes ", " ++ link next_url (codes "next"))

  abbrev next_url_of : Bytes → ℕ → FileListing → Bytes
  next_url_of pkg limit l =
      if l.has_more
      then listing_url web.path_escape web.query_escape web.itoa pkg limit l.next
      else []

  abbrev is_empty : FileListing → Bool
  is_empty l = elim l.files [ [] ↦ true | f ∷ fs ↦ false ]

  abbrev pub show_listing : ListingRequest → Bytes → Bytes → ℕ → FileListing → Response Object
  show_listing r pkg name limit l =
      let first_url = listing_url web.path_escape web.query_escape web.itoa pkg limit [] in
      if is_empty l
      then bare 404 nothing
      else if r.head
      then record {
        status = 200;
        headers = (codes "Content-Type", codes "text/html; charset=utf-8") ∷ [];
        body = nothing;
      }
      else if r.json
      then record {
        status = 200;
        headers = (codes "Link", links first_url (next_url_of pkg limit l)) ∷ [];
        body = listing_json name l limit (if l.total_known then some l.total else none);
      }
      else bare 200 (listing_page pkg l (next_url_of pkg limit l))

  abbrev pub answered_listing :
      ListingRequest → Bytes → Bytes → ℕ → Option FileListing → Option (Response Object)
  answered_listing r pkg name limit none = none
  answered_listing r pkg name limit (some l) = some (show_listing r pkg name limit l)

  unfoldable pub get_html_package :
      ℕ → ListingRequest → Bytes → PackageSlice → W → Option (Response Object)
  unfolding listing_limit listing_url get_files text_eq
  get_html_package fuel r pkg s w =
      let limit = listing_limit web.atoi r.limit in
      answered_listing r pkg s.name limit (get_files svc fuel s.name s.version r.after limit w)

  abbrev pub has_version : Bytes → Bool
  has_version param = contains param (b'@' ∷ [])

  unfoldable pub get_package_folder : ℕ → ListingRequest → Bytes → W → Option (Response Object)
  unfolding contains get_slice get_package_versions get_html_package
  get_package_folder fuel r param w =
      if not (has_version param)
      then some (get_package_versions svc web.path_escape r.head r.json param w)
      else elim (get_slice param) [
        | err e ↦ some (refused e)
        | ok s ↦ get_html_package fuel r param s w
      ]

  module _ {C : Type 0} (times : Times) (quality : Quality) (stat : Object → W → Option Stat)
      (cache : Option (CacheManager C)) where
    abbrev pub kept : C → Option (Response Object) → Option (Response Object × C)
    kept c none = none
    kept c (some r) = some (r, c)

    unfoldable pub get_package :
        ℕ → ListingRequest → FileRequest → Bytes → Bytes → W → C → Option (Response Object × C)
    unfolding contains get_slice get_package_versions get_html_package get_package_file text_eq
    get_package fuel r fr param file w c =
        if not (has_version param) && text_eq file (slash ∷ [])
        then some (get_package_versions svc web.path_escape r.head r.json param w, c)
        else elim (get_slice param) [
          | err e ↦ some (refused e, c)
          | ok s ↦
              if text_eq file (slash ∷ [])
              then kept c (get_html_package fuel r param s w)
              else some (get_package_file svc times quality stat cache fr s file w c)
        ]
