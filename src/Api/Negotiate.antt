-- ===== src/Api/Negotiate.antt =====
-- `parseAcceptEncoding` of api/content-negotiation.go. Quality values are abstract, since floats are
-- read by strconv and compared by the hardware.
use gimme.Base.{
  Bytes, codes, text_eq, if◌then◌else◌, Bool, true, false, not, ◌&&◌, List, [], ◌∷◌, ◌++◌, Option,
  none, some, map,
}
use gimme.Strings.{split, cut, trim_space, to_lower, equal_fold}
use gimme.Dict.{lookup, insert}
use gimme.Content.{Encoding, brotli, gzip}

pub record Quality : Type 1 where
  pub Q : Type 0
  -- 1.0
  pub one : Q
  -- strconv.ParseFloat, `none` for an error.
  pub parse_float : Bytes → Option Q
  -- Neither NaN nor below 0 nor above 1.
  pub in_range : Q → Bool
  pub is_positive : Q → Bool
  -- The first is at most the second.
  pub at_most : Q → Q → Bool

unfoldable pub token_of : Encoding → Bytes
token_of brotli = codes "br"
token_of gzip = codes "gzip"

pub record AcceptedEncodings : Type 0 where
  pub encodings : List Encoding
  pub identity : Bool

module _ (quality : Quality) where
  open quality use {Q, one, parse_float, in_range, is_positive, at_most}

  -- The parameters of one entry; `none` for a quality that is not valid.
  unfoldable pub parse_parameters : Q → List Bytes → Option Q
  unfolding cut trim_space equal_fold
  parse_parameters q [] = some q
  parse_parameters q (p ∷ ps) =
      let (name, value, found) = cut (trim_space p) b'=' in
      let skipped = parse_parameters q ps in
      if not (equal_fold name (codes "q")) then skipped else elim (parse_float (trim_space value)) [
        | none ↦ none
        | some parsed ↦
            let rest = parse_parameters parsed ps in if found && in_range parsed then rest else none
      ]

  -- A coding that is named again keeps the higher quality.
  abbrev pub raised : Bytes → Q → List (Bytes × Q) → Option Q → List (Bytes × Q)
  raised token q qs none = insert token q qs
  raised token q qs (some current) = if at_most q current then qs else insert token q qs

  abbrev pub entered : Bytes → Option Q → List (Bytes × Q) → List (Bytes × Q)
  entered token none qs = qs
  entered token (some q) qs = if text_eq token [] then qs else raised token q qs (lookup token qs)

  abbrev pub enter : List Bytes → List (Bytes × Q) → List (Bytes × Q)
  enter [] qs = qs
  enter (segment ∷ parameters) qs =
      entered (to_lower (trim_space segment)) (parse_parameters one parameters) qs

  unfoldable pub qualities : List Bytes → List (Bytes × Q) → List (Bytes × Q)
  unfolding split trim_space to_lower parse_parameters lookup insert text_eq
  qualities [] qs = qs
  qualities (part ∷ parts) qs = qualities parts (enter (split (trim_space part) b';') qs)

  abbrev pub or_else : Option Q → Option Q → Option Q
  or_else none o = o
  or_else (some q) o = some q

  -- `resolve`: the quality by name, else the one of the wildcard.
  unfoldable pub resolve_quality : Bytes → List (Bytes × Q) → Option Q
  unfolding lookup
  resolve_quality token qs = or_else (lookup token qs) (lookup (codes "*") qs)

  abbrev pub acceptable : Option Q → Bool
  acceptable none = false
  acceptable (some q) = is_positive q

  abbrev pub identity_acceptable : Option Q → Bool
  identity_acceptable none = true
  identity_acceptable (some q) = is_positive q

  abbrev pub preference : Encoding → Option Q → List (Encoding × Q)
  preference e none = []
  preference e (some q) = if is_positive q then (e, q) ∷ [] else []

  -- A stable insertion by falling quality.
  unfoldable pub insert_preference : Encoding × Q → List (Encoding × Q) → List (Encoding × Q)
  insert_preference p [] = p ∷ []
  insert_preference p (r ∷ rs) =
      let later = r ∷ insert_preference p rs in if at_most r.1 p.1 then p ∷ r ∷ rs else later

  unfoldable pub by_quality : List (Encoding × Q) → List (Encoding × Q)
  unfolding insert_preference
  by_quality [] = []
  by_quality (p ∷ ps) = insert_preference p (by_quality ps)

  unfoldable pub accepted_of : List (Bytes × Q) → AcceptedEncodings
  unfolding resolve_quality token_of by_quality
  accepted_of qs = record {
    encodings =
        map (λ p. p.0)
          (by_quality (
            preference brotli (resolve_quality (token_of brotli) qs)
            ++ preference gzip (resolve_quality (token_of gzip) qs)));
    identity = identity_acceptable (resolve_quality (codes "identity") qs);
  }

  unfoldable pub parse_accept_encoding : Bytes → AcceptedEncodings
  unfolding text_eq trim_space split qualities accepted_of
  parse_accept_encoding header =
      if text_eq (trim_space header) []
      then record { encodings = []; identity = true }
      else accepted_of (qualities (split header b',') [])
