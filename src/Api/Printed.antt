-- ===== src/Api/Printed.antt =====
-- Proofs about `parseAcceptEncoding` on a header that is written from a list of codings.
use gimme.Base.{
  ℕ, Bytes, codes, text_eq, text_eq_iff, ◌==◌, leb, if◌then◌else◌, Bool, true, false, not, ◌&&◌,
  ◌||◌, any, All, All-append, All-reverse, List, [], ◌∷◌, ◌++◌, reverse, reverse-reverse, Option,
  none, some, map, ◌≡◌, ◌≢◌, refl, sym, ap, ◌∙◌, arith, Bool-cases, Option-cases, inl, inr,
}
use gimme.Strings.{
  split, join, Lacks, split-join, cut, cut-append, trim_space, trim_left, trim_right, is_space,
  to_lower, lower, equal_fold,
}
use gimme.Dict.{lookup, lookup-insert}
use gimme.Content.{Encoding}
use gimme.Api.Negotiate.{
  Quality, token_of, parse_parameters, raised, enter, qualities, resolve_quality, acceptable,
  accepted_of, parse_accept_encoding,
}
use gimme.Api.Negotiated.{is_encoding, accepted_of-acceptable}

-- What is relied on of the comparison of qualities: above zero is kept upwards.
pub record QualityLaws (quality : Quality) : Type 0 where
  pub positive_above :
      (p q : quality.Q)
      → quality.at_most p q ≡ true
      → quality.is_positive p ≡ true
      → quality.is_positive q ≡ true
  pub positive_over :
      (p q : quality.Q)
      → quality.at_most p q ≡ false
      → quality.is_positive q ≡ true
      → quality.is_positive p ≡ true

-- A byte that a written coding or quality is made of: no white space, separator or capital.
abbrev pub is_plain : ℕ → Bool
is_plain c =
    not (is_space c) && (not (c == b',') && (not (c == b';') && not (leb b'A' c && leb c b'Z')))

abbrev pub AllPlain : Bytes → Type 0
AllPlain s = All (λ c. is_plain c ≡ true) s

-- A name, and the text of its quality where it has one.
pub record Coding : Type 0 where
  pub name : Bytes
  pub weight : Option Bytes

abbrev parameters : Option Bytes → List Bytes
parameters none = []
parameters (some w) = (codes "q=" ++ w) ∷ []

abbrev pub print_coding : Coding → Bytes
print_coding c = join (c.name ∷ parameters c.weight) b';'

abbrev pub header_of : List Coding → Bytes
header_of cs = join (map print_coding cs) b','

abbrev NoSpace : Bytes → Type 0
NoSpace s = All (λ c. is_space c ≡ false) s

trim_left-NoSpace : (s : Bytes) → NoSpace s → trim_left is_space s ≡ s
unfolding trim_left
trim_left-NoSpace [] h = refl
trim_left-NoSpace (c ∷ s) (n, h) = rw (n) refl

trim_space-NoSpace : (s : Bytes) → NoSpace s → trim_space s ≡ s
unfolding trim_space trim_right
trim_space-NoSpace s h =
    ap (λ t. reverse (trim_left is_space (reverse t))) (trim_left-NoSpace s h)
    ∙ ap reverse (trim_left-NoSpace (reverse s) (All-reverse _ s h))
    ∙ reverse-reverse s

NoSpace-plain : (s : Bytes) → AllPlain s → NoSpace s
NoSpace-plain [] h = tt
NoSpace-plain (c ∷ s) (p, h) = (ground (arith, p), NoSpace-plain s h)

Lacks-plain : (b : ℕ) (s : Bytes) → is_plain b ≡ false → AllPlain s → Lacks b s
Lacks-plain b [] n h = tt
Lacks-plain b (c ∷ s) n (p, h) = ((λ e. cc (e, n, p)), Lacks-plain b s n h)

to_lower-plain : (s : Bytes) → AllPlain s → to_lower s ≡ s
unfolding to_lower lower
to_lower-plain [] h = refl
to_lower-plain (c ∷ s) (p, h) =
    let rest = to_lower-plain s h in
    let small : (leb b'A' c && leb c b'Z') ≡ false = ground (arith, p) in
    rw (small) (ap (λ t. c ∷ t) rest)

module _ (quality : Quality) where
  -- The text of a quality is plain and one that is read.
  abbrev pub IsWeight : Option Bytes → Type 0
  IsWeight none = Unit
  IsWeight (some w) =
      AllPlain w × (q : quality.Q) × (quality.parse_float w ≡ some q) × (quality.in_range q ≡ true)

  abbrev pub IsWritten : Coding → Type 0
  IsWritten c = (c.name ≢ []) × AllPlain c.name × IsWeight c.weight

  abbrev read_or_one : Option quality.Q → quality.Q
  read_or_one none = quality.one
  read_or_one (some q) = q

  -- The quality of a coding, 1 where it has none.
  abbrev pub quality_of : Option Bytes → quality.Q
  quality_of none = quality.one
  quality_of (some w) = read_or_one (quality.parse_float w)

  abbrev pub names : Bytes → Coding → Bool
  names t c = text_eq c.name t

  abbrev pub wants : Bytes → Coding → Bool
  wants t c = text_eq c.name t && quality.is_positive (quality_of c.weight)

  -- A coding is wanted if an entry of its name has a quality above zero, or else, if no entry has its
  -- name, an entry of the wildcard.
  abbrev pub wanted : Bytes → List Coding → Bool
  wanted t cs = if any (names t) cs then any (wants t) cs else any (wants (codes "*")) cs

  plain_weight : (w : Bytes) → AllPlain w → NoSpace (codes "q=" ++ w)
  unfolding is_space
  plain_weight w h = (refl, (refl, NoSpace-plain w h))

  parse_parameters-one :
      (p value : Bytes) (q : quality.Q)
      → cut (trim_space p) b'=' ≡ (codes "q", value, true)
      → quality.parse_float (trim_space value) ≡ some q
      → quality.in_range q ≡ true
      → parse_parameters quality quality.one (p ∷ []) ≡ some q
  unfolding parse_parameters equal_fold to_lower lower text_eq
  parse_parameters-one p value q shape read inside = rw (shape, read, inside, shape) refl

  parse_parameters-weight :
      (o : Option Bytes)
      → IsWeight o
      → parse_parameters quality quality.one (parameters o) ≡ some (quality_of o)
  unfolding parse_parameters
  parse_parameters-weight none h = refl
  parse_parameters-weight (some w) (plain, q, read, inside) =
      let whole = trim_space-NoSpace (codes "q=" ++ w) (plain_weight w plain) in
      let value = trim_space-NoSpace w (NoSpace-plain w plain) in
      let parts : cut (codes "q=" ++ w) b'=' ≡ (codes "q", w, true) =
        cut-append (codes "q") w b'=' ((λ e. absurd (omega (arith, e))), tt) in
      parse_parameters-one (codes "q=" ++ w) w q (ap (λ x. cut x b'=') whole ∙ parts)
        (ap quality.parse_float value ∙ read) inside
      ∙ rw (read) refl

  NoSpace-join :
      (n : Bytes) (o : Option Bytes)
      → AllPlain n
      → IsWeight o
      → NoSpace (join (n ∷ parameters o) b';')
  unfolding join is_space
  NoSpace-join n none h k = NoSpace-plain n h
  NoSpace-join n (some w) h (plain, q, read, inside) =
      All-append _ n (b';' ∷ (codes "q=" ++ w)) (NoSpace-plain n h) (refl, plain_weight w plain)

  Lacks-parameters :
      (b : ℕ) (o : Option Bytes)
      → is_plain b ≡ false
      → b ≢ b'q'
      → b ≢ b'='
      → IsWeight o
      → All (Lacks b) (parameters o)
  Lacks-parameters b none n q e h = tt
  Lacks-parameters b (some w) n q e (plain, r, read, inside) =
      (((λ x. q (sym x)), ((λ x. e (sym x)), Lacks-plain b w n plain)), tt)

  enter-written :
      (c : Coding) (qs : List (Bytes × quality.Q))
      → IsWritten c
      → enter quality (split (trim_space (print_coding c)) b';') qs
        ≡ raised quality c.name (quality_of c.weight) qs (lookup c.name qs)
  unfolding is_space
  enter-written c qs (there, plain, weight) =
      let trimmed =
        trim_space-NoSpace (print_coding c) (NoSpace-join c.name c.weight plain weight) in
      let parts : split (print_coding c) b';' ≡ c.name ∷ parameters c.weight =
        split-join c.name (parameters c.weight) b';' (
          Lacks-plain b';' c.name refl plain,
          Lacks-parameters b';' c.weight refl (λ e. omega (arith, e)) (λ e. omega (arith, e))
              weight,
        ) in
      let name : to_lower (trim_space c.name) ≡ c.name =
        ap to_lower (trim_space-NoSpace c.name (NoSpace-plain c.name plain))
        ∙ to_lower-plain c.name plain in
      let value = parse_parameters-weight c.weight weight in
      let named : text_eq c.name [] ≡ false = ground (arith, text_eq_iff c.name [], there) in
      ap (λ x. enter quality (split x b';') qs) trimmed
      ∙ ap (λ x. enter quality x qs) parts
      ∙ rw (name, value, named) refl

  abbrev known : Option quality.Q → Bool
  known none = false
  known (some q) = true

  module _ (laws : QualityLaws quality) where
    raised-lookup :
        (t n : Bytes) (q : quality.Q) (qs : List (Bytes × quality.Q)) (o : Option quality.Q)
        → lookup n qs ≡ o
        → (known (lookup t (raised quality n q qs o)) ≡ (text_eq n t || known (lookup t qs)))
          × (acceptable quality (lookup t (raised quality n q qs o))
              ≡ ((text_eq n t && quality.is_positive q) || acceptable quality (lookup t qs)))
    raised-lookup t n q qs none h = elim (Bool-cases (text_eq n t)) [
      | inl e ↦
          let at : lookup t qs ≡ none = ap (λ x. lookup x qs) (sym ((text_eq_iff n t).0 e)) ∙ h in
          rw (lookup-insert n t q qs, e, at) (refl, ground arith)
      | inr e ↦ rw (lookup-insert n t q qs, e) (refl, refl)
    ]
    raised-lookup t n q qs (some current) h = elim (Bool-cases (text_eq n t)) [
      | inl e ↦
          let at : lookup t qs ≡ some current =
            ap (λ x. lookup x qs) (sym ((text_eq_iff n t).0 e)) ∙ h in
          elim (Bool-cases (quality.at_most q current)) [
            | inl low ↦
                let up = laws.positive_above q current low in
                rw (low, at, e) (refl, ground (arith, up))
            | inr high ↦
                let over = laws.positive_over q current high in
                rw (high, lookup-insert n t q qs, e, at) (refl, ground (arith, over))
          ]
      | inr e ↦ elim (Bool-cases (quality.at_most q current)) [
        | inl low ↦ rw (low, e) (refl, refl)
        | inr high ↦ rw (high, lookup-insert n t q qs, e) (refl, refl)
      ]
    ]

    -- What the map of the qualities holds after the entries.
    qualities-lookup :
        (t : Bytes) (cs : List Coding) (qs : List (Bytes × quality.Q))
        → All IsWritten cs
        → (known (lookup t (qualities quality (map print_coding cs) qs))
            ≡ (any (names t) cs || known (lookup t qs)))
          × (acceptable quality (lookup t (qualities quality (map print_coding cs) qs))
              ≡ (any (wants t) cs || acceptable quality (lookup t qs)))
    unfolding qualities
    qualities-lookup t [] qs h = (refl, refl)
    qualities-lookup t (c ∷ cs) qs (written, h) =
        let qs' = raised quality c.name (quality_of c.weight) qs (lookup c.name qs) in
        let (later, positive) = qualities-lookup t cs qs' h in
        let (here, above) =
          raised-lookup t c.name (quality_of c.weight) qs (lookup c.name qs) refl in
        let shape = ap (qualities quality (map print_coding cs)) (enter-written c qs written) in
        (
          ap (λ x. known (lookup t x)) shape ∙ ground (arith, later, here),
          ap (λ x. acceptable quality (lookup t x)) shape ∙ ground (arith, positive, above),
        )

    wanted-resolve :
        (t : Bytes) (cs : List Coding)
        → All IsWritten cs
        → acceptable quality
            (resolve_quality quality t (qualities quality (map print_coding cs) []))
          ≡ wanted t cs
    unfolding resolve_quality
    wanted-resolve t cs h =
        let (named, positive) = qualities-lookup t cs [] h in
        let (_, wild) = qualities-lookup (codes "*") cs [] h in
        elim (Option-cases (lookup t (qualities quality (map print_coding cs) []))) [
          | inl e ↦
              let absent : any (names t) cs ≡ false = ground (arith, named, e) in
              rw (e, absent) (ground (arith, wild))
          | inr (q, e) ↦
              let there : any (names t) cs ≡ true = ground (arith, named, e) in
              let value : quality.is_positive q ≡ any (wants t) cs = ground (arith, positive, e) in
              rw (e, there) value
        ]

    Lacks-join :
        (n : Bytes) (o : Option Bytes)
        → AllPlain n
        → IsWeight o
        → Lacks b',' (join (n ∷ parameters o) b';')
    unfolding join is_space
    Lacks-join n none h k = Lacks-plain b',' n refl h
    Lacks-join n (some w) h (plain, k, read, inside) =
        All-append _ n (b';' ∷ (codes "q=" ++ w)) (Lacks-plain b',' n refl h) (
          (λ e. omega (arith, e)),
          ((λ e. omega (arith, e)), ((λ e. omega (arith, e)), Lacks-plain b',' w refl plain)),
        )

    Lacks-printed : (cs : List Coding) → All IsWritten cs → All (Lacks b',') (map print_coding cs)
    Lacks-printed [] h = tt
    Lacks-printed (c ∷ cs) ((there, plain, weight), h) =
        (Lacks-join c.name c.weight plain weight, Lacks-printed cs h)

    NoSpace-header :
        (c : Coding) (cs : List Coding) → All IsWritten (c ∷ cs) → NoSpace (header_of (c ∷ cs))
    unfolding join is_space
    NoSpace-header c [] ((there, plain, weight), h) = NoSpace-join c.name c.weight plain weight
    NoSpace-header c (d ∷ cs) ((there, plain, weight), h) =
        All-append _ (print_coding c) (b',' ∷ header_of (d ∷ cs))
          (NoSpace-join c.name c.weight plain weight) (refl, NoSpace-header d cs h)

    name_first : (n : Bytes) (o : Option Bytes) → n ≢ [] → join (n ∷ parameters o) b';' ≢ []
    unfolding join
    name_first [] o h e = h refl
    name_first (b ∷ n) none h e = cc
    name_first (b ∷ n) (some w) h e = cc

    append_there : (s t : Bytes) → s ≢ [] → s ++ t ≢ []
    append_there [] t h e = h refl
    append_there (b ∷ s) t h e = cc

    header_there : (c : Coding) (cs : List Coding) → IsWritten c → header_of (c ∷ cs) ≢ []
    unfolding join
    header_there c [] (there, plain, weight) e = name_first c.name c.weight there e
    header_there c (d ∷ cs) (there, plain, weight) e =
        append_there (print_coding c) _ (name_first c.name c.weight there) e

    -- With the order of the qualities: of a header that is written from entries, each a name in lower case
    -- and, if it has one, a quality that is read and in range, the encodings that are negotiated are
    -- exactly those that some entry names with a quality above zero, or that no entry names while some
    -- entry of the wildcard has a quality above zero.
    pub parse_accept_encoding-wanted :
        (c : Coding) (cs : List Coding) (e : Encoding)
        → All IsWritten (c ∷ cs)
        → any (is_encoding e) (parse_accept_encoding quality (header_of (c ∷ cs))).encodings
          ≡ wanted (token_of e) (c ∷ cs)
    unfolding parse_accept_encoding
    parse_accept_encoding-wanted c cs e h =
        let header = header_of (c ∷ cs) in
        let trimmed = trim_space-NoSpace header (NoSpace-header c cs h) in
        let blank : text_eq (trim_space header) [] ≡ false =
          ground (arith, text_eq_iff (trim_space header) [], trimmed, header_there c cs h.0) in
        let parts : split header b',' ≡ map print_coding (c ∷ cs) =
          split-join (print_coding c) (map print_coding cs) b',' (Lacks-printed (c ∷ cs) h) in
        let shape : parse_accept_encoding quality header
            ≡ accepted_of quality (qualities quality (map print_coding (c ∷ cs)) []) =
          rw (blank, parse_accept_encoding)
            (ap (λ x. accepted_of quality (qualities quality x [])) parts) in
        ap (λ x. any (is_encoding e) x.encodings) shape
        ∙ accepted_of-acceptable quality (qualities quality (map print_coding (c ∷ cs)) []) e
        ∙ wanted-resolve (token_of e) (c ∷ cs) h
