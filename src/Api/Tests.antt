-- ===== src/Api/Tests.antt =====
-- The HTTP layer at concrete requests. Qualities are the numbers of tenths.
use gimme.Base.{
  ℕ, All, arith, ◌==◌, Bytes, codes, ltb, leb, false, any, ◌-◌, [], ◌∷◌, Option, none, some, ◌≡◌,
  refl, if◌then◌else◌,
}
use gimme.Errors.{ok}
use gimme.Dict.{lookup}
use gimme.Version.{at_version}
use gimme.Content.{brotli, gzip}
use gimme.Content.Serve.{get_encoded_object}
use gimme.Content.Tests.{service, readable}
use gimme.Content.MemoryCache.{memory_cache}
use gimme.Storage.{whole}
use gimme.Storage.Memory.{Memory}
use gimme.Api.Negotiate.{
  Quality, parse_accept_encoding, accepted_of, resolve_quality, token_of, acceptable,
}
use gimme.Api.Negotiated.{is_encoding, accepted_of-acceptable}
use gimme.Strings.{is_space}
use gimme.Api.Printed.{
  QualityLaws, Coding, header_of, IsWritten, wanted, parse_accept_encoding-wanted,
}
use gimme.Api.Packages.{get_slice}
use gimme.Api.Laws.{get_slice-at_version}

abbrev pub tenths : Bytes → Option ℕ
tenths (c ∷ []) = if c == b'1' then some 10 else if c == b'0' then some 0 else none
tenths (c ∷ d ∷ e ∷ []) = some (e - b'0')
tenths _ = none

abbrev pub quality : Quality
quality = record {
  Q = ℕ;
  one = 10;
  parse_float = tenths;
  in_range = λ q. leb q 10;
  is_positive = λ q. ltb 0 q;
  at_most = leb;
}

run_accept :
    parse_accept_encoding quality (codes "br;q=0.2, gzip;q=0.9, identity;q=0")
    ≡ record { encodings = gzip ∷ brotli ∷ []; identity = false }
unfolding parse_accept_encoding
run_accept = refl

run_wildcard :
    parse_accept_encoding quality (codes "*;q=0, BR")
    ≡ record { encodings = brotli ∷ []; identity = false }
unfolding parse_accept_encoding
run_wildcard = refl

get_slice-at_version_example :
    get_slice (at_version (codes "pkg") (codes "1.0.0"))
    ≡ ok (record { name = codes "pkg"; version = codes "1.0.0" })
get_slice-at_version_example =
    get_slice-at_version (codes "pkg") (codes "1.0.0") (λ p. cc, (λ p. cc, (λ p. cc, tt))) (λ p. cc)
      (λ p. cc)

accepted_of-acceptable_example :
    any (is_encoding gzip) (accepted_of quality ((codes "*", 3) ∷ [])).encodings
    ≡ acceptable quality (resolve_quality quality (token_of gzip) ((codes "*", 3) ∷ []))
accepted_of-acceptable_example = accepted_of-acceptable quality ((codes "*", 3) ∷ []) gzip

abbrev stored : Memory
stored = (codes "p@1.0.0/a.js.gz", whole (codes "z")) ∷ []

run_encoded :
    get_encoded_object service readable
      (some memory_cache)
      (codes "p@1.0.0/a.js")
      (codes "/a.js")
      (parse_accept_encoding quality (codes "gzip")).encodings
      stored
    ≡ ok (whole (codes "z"), some gzip)
unfolding get_encoded_object parse_accept_encoding lookup
run_encoded = refl

tenths-QualityLaws : QualityLaws quality
tenths-QualityLaws = record {
  positive_above = λ p q h k. ground (arith, h, k);
  positive_over = λ p q h k. ground (arith, h, k);
}

-- The header `br;q=0,*`.
abbrev no_brotli : Coding
no_brotli = record { name = codes "br"; weight = some (codes "0") }

abbrev any_other : Coding
any_other = record { name = codes "*"; weight = none }

no_brotli-IsWritten : All (IsWritten quality) (no_brotli ∷ any_other ∷ [])
unfolding is_space
no_brotli-IsWritten = (
  ((λ e. cc), (refl, (refl, tt)), ((refl, tt), 0, refl, refl)),
  (((λ e. cc), (refl, tt), tt), tt),
)

parse_accept_encoding-wanted_example :
    any
      (is_encoding gzip)
      (parse_accept_encoding quality (header_of (no_brotli ∷ any_other ∷ []))).encodings
    ≡ wanted quality (token_of gzip) (no_brotli ∷ any_other ∷ [])
parse_accept_encoding-wanted_example =
    parse_accept_encoding-wanted quality tenths-QualityLaws no_brotli (any_other ∷ []) gzip
      no_brotli-IsWritten
