-- ===== src/Api/Negotiated.antt =====
-- Proofs about `parseAcceptEncoding`.
use gimme.Base.{
  Bytes, Bool, true, false, List, ◌++◌, Option, none, some, any, map, ◌≡◌, refl, arith,
}
use gimme.Content.{Encoding, brotli, gzip}
use gimme.Api.Negotiate.{
  Quality, accepted_of, resolve_quality, token_of, by_quality, insert_preference, acceptable,
  preference,
}

abbrev pub is_encoding : Encoding → Encoding → Bool
is_encoding brotli brotli = true
is_encoding gzip gzip = true
is_encoding _ _ = false

module _ (quality : Quality) where
  abbrev Q : Type 0
  Q = quality.Q

  abbrev ranked : Option Q → Option Q → List Encoding
  ranked a b =
      map (λ p. p.0) (by_quality quality (preference quality brotli a ++ preference quality gzip b))

  ranked-brotli : (a b : Option Q) → any (is_encoding brotli) (ranked a b) ≡ acceptable quality a
  unfolding by_quality insert_preference
  ranked-brotli none none = refl
  ranked-brotli none (some q) = ground arith
  ranked-brotli (some p) none = ground arith
  ranked-brotli (some p) (some q) = ground arith

  ranked-gzip : (a b : Option Q) → any (is_encoding gzip) (ranked a b) ≡ acceptable quality b
  unfolding by_quality insert_preference
  ranked-gzip none none = refl
  ranked-gzip none (some q) = ground arith
  ranked-gzip (some p) none = ground arith
  ranked-gzip (some p) (some q) = ground arith

  -- The negotiated encodings are those whose quality, by name or else by the wildcard, is listed and
  -- above zero.
  pub accepted_of-acceptable :
      (qs : List (Bytes × Q)) (e : Encoding)
      → any (is_encoding e) (accepted_of quality qs).encodings
        ≡ acceptable quality (resolve_quality quality (token_of e) qs)
  unfolding accepted_of
  accepted_of-acceptable qs brotli =
      ranked-brotli (resolve_quality quality (token_of brotli) qs)
        (resolve_quality quality (token_of gzip) qs)
  accepted_of-acceptable qs gzip =
      ranked-gzip (resolve_quality quality (token_of brotli) qs)
        (resolve_quality quality (token_of gzip) qs)
