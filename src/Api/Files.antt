-- ===== src/Api/Files.antt =====
-- `getPackage` of api/package-controller.go for the path of a file. The answer of Stat, the format of
-- times and http.ParseTime are parameters.
use gimme.Base.{
  ℕ, ◌==◌, Bytes, codes, if◌then◌else◌, Bool, true, false, not, ◌&&◌, List, [], ◌∷◌, ◌++◌, Option,
  none, some,
}
use gimme.Strings.{to_lower, trim_left, trim_right}
use gimme.Errors.{ok, err, get_http_code}
use gimme.Tokens.{Time}
use gimme.Storage.{content_type_or}
use gimme.Content.{Encoding, extension}
use gimme.Content.Upload.{Service}
use gimme.Content.Serve.{CacheManager, Answer, get_file}
use gimme.Api.Negotiate.{Quality, parse_accept_encoding, token_of}
use gimme.Api.Conditional.{Conditions, not_modified, cache_control_header}
use gimme.Api.Packages.{PackageSlice, Reply, nothing, message, failure_of, stream, Response}

-- The fields of minio.ObjectInfo that Stat answers with; the digest is empty when there is none.
pub record Stat : Type 0 where
  pub etag : Bytes
  pub last_modified : Time
  pub content_type : Bytes
  pub size : ℕ
  pub integrity : Bytes

pub record FileRequest : Type 0 where
  pub head : Bool
  pub accept_encoding : Bytes
  pub conditions : Conditions

-- The texts of times and lengths.
pub record Times : Type 0 where
  pub format : Time → Bytes
  pub parse : Bytes → Option Time
  pub itoa : ℕ → Bytes

abbrev quote : ℕ
quote = b'"'

abbrev pub no_store : Bytes × Bytes
no_store = (codes "Cache-Control", codes "no-store")

-- The entity tag in quotes, empty when there is none.
unfoldable pub quoted_etag : Bytes → Bytes
unfolding trim_left trim_right
quoted_etag [] = []
quoted_etag (c ∷ s) =
    quote ∷ (trim_right (λ d. d == quote) (trim_left (λ d. d == quote) (c ∷ s)) ++ (quote ∷ []))

abbrev header_if : Bytes → Bytes → List (Bytes × Bytes)
header_if name [] = []
header_if name (c ∷ s) = (name, c ∷ s) ∷ []

abbrev content_encoding : Option Encoding → List (Bytes × Bytes)
content_encoding none = []
content_encoding (some e) = (codes "Content-Encoding", token_of e) ∷ []

abbrev is_identity : Option Encoding → Bool
is_identity none = true
is_identity (some e) = false

module _ {W Object : Type 0} (svc : Service W Object) (times : Times) where
  -- The type of the decoded body.
  abbrev served_type : Bytes → Stat → Option Encoding → Bytes
  served_type file s none = s.content_type
  served_type file s (some e) =
      content_type_or (svc.libs.type_by_extension (to_lower (extension file)))

  abbrev common_headers : Bytes → Stat → List (Bytes × Bytes)
  common_headers version s =
      header_if (codes "ETag") (quoted_etag s.etag)
      ++ ((if s.last_modified == 0
            then []
            else (codes "Last-Modified", times.format s.last_modified) ∷ [])
          ++ (header_if (codes "Gimme-Integrity") s.integrity
              ++ ((codes "Cache-Control", cache_control_header svc.semver version) ∷ [])))

  abbrev pub with_headers : ℕ → List (Bytes × Bytes) → Reply Object → Response Object
  with_headers status headers body = record {
    status = status;
    headers = (codes "Vary", codes "Accept-Encoding") ∷ headers;
    body = body;
  }

  -- An object that Stat knows, in an encoding that may be sent.
  unfoldable pub deliver :
      FileRequest → Bytes → Bytes → Object → Option Encoding → Stat → Response Object
  unfolding not_modified quoted_etag cache_control_header token_of
  deliver r version file object encoding s =
      let headers = common_headers version s in
      if not_modified times.parse r.conditions (quoted_etag s.etag) s.last_modified
      then with_headers 304 headers nothing
      else if r.head
      then with_headers 200
          (headers
            ++ (content_encoding encoding
                ++ ((codes "Content-Length", times.itoa s.size)
                    ∷ (codes "Content-Type", served_type file s encoding)
                    ∷ [])))
          nothing
      else with_headers 200 (headers ++ content_encoding encoding)
          (stream (served_type file s encoding) s.size object)

  module _ {C : Type 0} (quality : Quality) (stat : Object → W → Option Stat)
      (cache : Option (CacheManager C)) where
    abbrev pub stat_ok : Object → W → Bool
    stat_ok object w = elim (stat object w) [ none ↦ false | some s ↦ true ]

    abbrev pub respond :
        FileRequest → Bytes → Bytes → Bool → W → Answer svc stat_ok cache → Response Object
    respond r version file identity w (err e) =
        with_headers (get_http_code e) (no_store ∷ []) (failure_of e)
    respond r version file identity w (ok (object, encoding)) = elim (stat object w) [
      | none ↦ with_headers 404 (no_store ∷ []) message
      | some s ↦
          if is_identity encoding && not identity
          then with_headers 406 (no_store ∷ []) message
          else deliver r version file object encoding s
    ]

    abbrev served :
        FileRequest → Bytes → Bytes → Bool → W → Answer svc stat_ok cache × C → Response Object × C
    served r version file identity w (answer, c) = (respond r version file identity w answer, c)

    unfoldable pub get_package_file :
        FileRequest → PackageSlice → Bytes → W → C → Response Object × C
    unfolding parse_accept_encoding get_file deliver
    get_package_file r s file w c =
        let accepted = parse_accept_encoding quality r.accept_encoding in
        served r s.version file accepted.identity w
          (get_file svc stat_ok cache s.name s.version file accepted.encodings w c)
