-- ===== src/Api/Laws.antt =====
-- Proofs about the small functions of api/package-controller.go and api/conditional-requests.go.
use gimme.Base.{
  Bytes, text_eq, text_eq_iff, if◌then◌else◌, Bool, false, [], ◌++◌, any, ◌≡◌, ◌≢◌, refl, sym, ap,
  ◌∙◌, Bool-cases, inl, inr,
}
use gimme.Strings.{
  Lacks, split_two, cut-append, trim_prefix, trim_prefix-append, trim_prefix-absent, split,
  has_prefix,
}
use gimme.Errors.{ok}
use gimme.Version.{at_version}
use gimme.Api.Conditional.{etag_matches, weak, candidate_matches}
use gimme.Api.Packages.{get_slice}

nonempty : (s : Bytes) → s ≢ [] → text_eq s [] ≡ false
nonempty s h = elim (Bool-cases (text_eq s [])) [
  | inl e ↦ absurd (h ((text_eq_iff s []).0 e))
  | inr e ↦ e
]

-- A name without `@` and a version, neither empty, are read back from `name@version`.
pub get_slice-at_version :
    (name version : Bytes)
    → Lacks b'@' name
    → name ≢ []
    → version ≢ []
    → get_slice (at_version name version) ≡ ok (record { name = name; version = version })
unfolding get_slice split_two
get_slice-at_version name version lacks named versioned =
    rw
      (
        cut-append name version b'@' lacks,
        nonempty name named,
        nonempty version versioned,
        get_slice,
        split_two,
      )
      refl

-- The comparison with a tag that is not empty, once its `W/` is off.
abbrev compared : Bytes → Bytes → Bool
compared if_none_match tag =
    if text_eq if_none_match []
    then false
    else any (candidate_matches tag) (split if_none_match b',')

etag_matches-compared :
    (if_none_match etag : Bytes)
    → text_eq etag [] ≡ false
    → etag_matches if_none_match etag ≡ compared if_none_match (trim_prefix etag weak)
unfolding etag_matches
etag_matches-compared if_none_match etag h = elim (Bool-cases (text_eq if_none_match [])) [
  | inl q ↦ rw (q, etag_matches) refl
  | inr q ↦ rw (q, h, etag_matches) refl
]

-- Comparing against a weak tag is comparing against the strong one, for a tag that is not empty and
-- does not itself begin with `W/`.
etag_matches-weak :
    (if_none_match etag : Bytes)
    → etag ≢ []
    → has_prefix etag weak ≡ false
    → etag_matches if_none_match (weak ++ etag) ≡ etag_matches if_none_match etag
unfolding text_eq
etag_matches-weak if_none_match etag h strong =
    etag_matches-compared if_none_match (weak ++ etag) refl
    ∙ ap (compared if_none_match)
        (trim_prefix-append weak etag ∙ sym (trim_prefix-absent etag weak strong))
    ∙ sym (etag_matches-compared if_none_match etag (nonempty etag h))
