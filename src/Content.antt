-- ===== src/Content.antt =====
-- internal/content: encodings, compression and integrity of the files of a package. The MIME tables,
-- the two compressors, SHA-384 with base64, and the order in which Go visits the map of variants
-- are parameters.
pub mod Proc
pub mod Upload
pub mod Confined
pub mod Atomic
pub mod Immutable
pub mod Serve
pub mod Listing
pub mod Paging
pub mod Pages
pub mod Walk
pub mod Cached
pub mod Uncached
pub mod Coherent
pub mod MemoryCache
pub mod Tests
pub mod WalkTests
use gimme.Base.{
  ℕ, zero, suc, ◌+◌, ◌*◌, ◌-◌, ◌^◌, Bytes, codes, text_eq, ltb, leb, ◌==◌, if◌then◌else◌, Bool,
  true, false, not, ◌&&◌, ◌||◌, List, [], ◌∷◌, ◌++◌, Option, none, some, length, any, ◌⊎◌, inl, inr,
}
use gimme.Strings.{has_prefix, cut_suffix, to_lower, trim_space, before, cut, slash}
use gimme.Dict.{lookup}
use gimme.Errors.{Failure, input_unopened, size_out_of_range, unexpected_size, compression_failed}
use gimme.Archive.{ZipFile, Contents, unopened, unread, bytes, ArchiveObject}

pub data Encoding : Type 0 where
  brotli gzip : Encoding

unfoldable pub suffix : Encoding → Bytes
suffix brotli = codes ".br"
suffix gzip = codes ".gz"

pub record Libraries : Type 0 where
  -- mime.TypeByExtension, empty for an unknown extension, and the media type of
  -- mime.ParseMediaType, `none` for an error.
  pub type_by_extension : Bytes → Bytes
  pub parse_media_type : Bytes → Option Bytes
  pub brotli_of : Bytes → Bytes
  pub gzip_of : Bytes → Bytes
  pub digest : Bytes → Bytes
  pub gzip_first : Bytes → Bool

abbrev pub min_size : ℕ
min_size = 1024

abbrev pub max_size : ℕ
max_size = 8388608

extension_from : Bytes → Bytes → Bytes
extension_from ext [] = ext
extension_from ext (c ∷ s) =
    extension_from (if c == slash then [] else if c == b'.' then c ∷ s else ext) s

-- filepath.Ext: from the last dot behind the last slash.
unfoldable pub extension : Bytes → Bytes
unfolding extension_from
extension name = extension_from [] name

compressible_types : List Bytes
compressible_types =
    codes "application/javascript"
    ∷ codes "application/json"
    ∷ codes "application/manifest+json"
    ∷ codes "application/xml"
    ∷ codes "application/xhtml+xml"
    ∷ codes "image/svg+xml"
    ∷ codes "application/wasm"
    ∷ []

module _ (libs : Libraries) where
  -- The content type of a name, and whether it is worth compressing.
  unfoldable pub compressible_content_type : Bytes → Bytes × Bool
  unfolding extension to_lower text_eq has_prefix compressible_types
  compressible_content_type name =
      let ext = to_lower (extension name) in
      let found = libs.type_by_extension ext in
      let content_type =
        if text_eq found [] && text_eq ext (codes ".map")
        then codes "application/json"
        else found in
      if text_eq content_type [] then ([], false) else elim (libs.parse_media_type content_type) [
        | none ↦ (content_type, false)
        | some media ↦
            if has_prefix media (codes "text/")
            then (content_type, true)
            else (content_type, any (text_eq media) compressible_types)
      ]

  abbrev pub is_compressible : Bytes → Bool
  is_compressible name = (compressible_content_type name).1

  -- The ratio 0.8 in integers: up to 8 MiB the rounding of the float product decides no case.
  abbrev small_enough : ℕ → ℕ → Bool
  small_enough compressed size = leb (5 * compressed) (4 * size)

  abbrev variant_if : Bool → Encoding → Bytes → List (Encoding × Bytes)
  variant_if true e b = (e, b) ∷ []
  variant_if false e b = []

  -- `none` is an error.
  unfoldable pub compress_variants : ZipFile → Option (List (Encoding × Bytes))
  compress_variants file = elim file.contents [
    | unopened ↦ none
    | unread ↦ none
    | bytes content ↦
        let size = length content in
        let br = libs.brotli_of content in
        let gz = libs.gzip_of content in
        let first = variant_if (small_enough (length br) size) brotli br in
        let second = variant_if (small_enough (length gz) size) gzip gz in
        if ltb max_size size
        then some []
        else if libs.gzip_first file.name
        then some (second ++ first)
        else some (first ++ second)
  ]

  -- The digest of an entry whose content has the declared size.
  unfoldable pub file_integrity : ZipFile → Bytes ⊎ Failure
  file_integrity file = elim file.contents [
    | unopened ↦ inr input_unopened
    | unread ↦ inr input_unopened
    | bytes content ↦
        if leb (2 ^ 63 - 1) file.uncompressed_size
        then inr (size_out_of_range file.name)
        else if length content == file.uncompressed_size
        then inl (codes "sha384-" ++ libs.digest content)
        else inr (unexpected_size file.name)
  ]

  -- A loop over the encodings in the order of the source, brotli first.
  abbrev source_for : List (Bytes × ZipFile) → Option Bytes → Option ZipFile
  source_for files none = none
  source_for files (some sibling) = elim (lookup sibling files) [
    | none ↦ none
    | some file ↦ if is_compressible sibling then some file else none
  ]

  abbrev first_source : Option ZipFile → Option ZipFile → Option ZipFile
  first_source none o = o
  first_source (some f) o = some f

  unfoldable pub encoded_variant_source : List (Bytes × ZipFile) → Bytes → Option ZipFile
  unfolding cut_suffix suffix lookup compressible_content_type
  encoded_variant_source files key =
      first_source (source_for files (cut_suffix key (suffix brotli)))
        (source_for files (cut_suffix key (suffix gzip)))

abbrev is_some : Option ZipFile → Bool
is_some none = false
is_some (some f) = true

unfoldable pub archive_supplies_variants : List (Bytes × ZipFile) → Bytes → Bool
unfolding lookup suffix
archive_supplies_variants files key =
    is_some (lookup (key ++ suffix brotli) files) && is_some (lookup (key ++ suffix gzip) files)

-- The map `archiveFiles`.
unfoldable pub archive_files : List ArchiveObject → List (Bytes × ZipFile)
archive_files [] = []
archive_files (o ∷ os) = (o.key, o.file) ∷ archive_files os
