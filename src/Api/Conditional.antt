-- ===== src/Api/Conditional.antt =====
-- api/conditional-requests.go. http.ParseTime is a parameter, and times count nanoseconds.
use gimme.Base.{
  ◌/◌, ◌*◌, ◌==◌, Bytes, codes, text_eq, leb, if◌then◌else◌, Bool, false, not, ◌||◌, any, [],
  Option, none, some,
}
use gimme.Strings.{split, trim_space, trim_prefix}
use gimme.Tokens.{Time}
use gimme.Version.{Semver, is_pinned_version}

unfoldable pub cache_control_header : Semver → Bytes → Bytes
unfolding is_pinned_version
cache_control_header semver version =
    if is_pinned_version semver version
    then codes "public, max-age=31536000, immutable"
    else codes "public, max-age=300"

abbrev pub weak : Bytes
weak = codes "W/"

abbrev pub candidate_matches : Bytes → Bytes → Bool
candidate_matches etag candidate =
    let c = trim_space candidate in text_eq c (codes "*") || text_eq (trim_prefix c weak) etag

unfoldable pub etag_matches : Bytes → Bytes → Bool
unfolding text_eq trim_prefix trim_space split
etag_matches if_none_match etag =
    if text_eq if_none_match [] || text_eq etag []
    then false
    else any (candidate_matches (trim_prefix etag weak)) (split if_none_match b',')

abbrev second : Time
second = 1000000000

-- The conditional headers of a request, empty if absent.
pub record Conditions : Type 0 where
  pub if_none_match : Bytes
  pub if_modified_since : Bytes

unfoldable pub not_modified : (Bytes → Option Time) → Conditions → Bytes → Time → Bool
unfolding text_eq etag_matches
not_modified parse_time r etag last_modified =
    if not (text_eq r.if_none_match [])
    then etag_matches r.if_none_match etag
    else if text_eq r.if_modified_since [] || last_modified == 0
    then false
    else elim (parse_time r.if_modified_since) [
      | none ↦ false
      | some since ↦ leb (last_modified / second * second) since
    ]
