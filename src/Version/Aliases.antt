-- ===== src/Version/Aliases.antt =====
-- Proofs about `versionMatches` and `mutableAliasPrefixes`.
use gimme.Base.{
  Bytes, text_eq_iff, ◌==◌, true, List, [], ◌∷◌, ◌++◌, length, ◌≡◌, ◌⊎◌, inl, inr, refl, ap, ◌∙◌,
  arith,
}
use gimme.Strings.{join}
use gimme.Storage.Laws.{holds}
use gimme.Version.{
  Semver, latest, with_v, version_parts, version_matches, is_full_semver, at_version,
  partial_versions, mutable_alias_prefixes,
}

-- A version of three parts, in the words of the semver library's documentation: Major("v2.1.0") is
-- "v2" and MajorMinor("v2.1.0") is "v2.1".
pub record PrefixLaws (semver : Semver) : Type 0 where
  pub major_of :
      (v p q r : Bytes)
      → semver.is_semver (with_v v) ≡ true
      → version_parts v ≡ p ∷ q ∷ r ∷ []
      → semver.major (with_v v) ≡ with_v p
  pub major_minor_of :
      (v p q r : Bytes)
      → semver.is_semver (with_v v) ≡ true
      → version_parts v ≡ p ∷ q ∷ r ∷ []
      → semver.major_minor (with_v v) ≡ with_v (p ++ (b'.' ∷ q))

record Three (parts : List Bytes) : Type 0 where
  major : Bytes
  minor : Bytes
  patch : Bytes
  shape : parts ≡ major ∷ minor ∷ patch ∷ []

Three-parts : (parts : List Bytes) → (length parts == 3) ≡ true → Three parts
Three-parts [] h = absurd (cc)
Three-parts (p ∷ []) h = absurd (cc)
Three-parts (p ∷ q ∷ []) h = absurd (cc)
Three-parts (p ∷ q ∷ r ∷ []) h = record { major = p; minor = q; patch = r; shape = refl }
Three-parts (p ∷ q ∷ r ∷ s ∷ ps) h = absurd (ground arith)

module _ (semver : Semver) (laws : PrefixLaws semver) where
  -- The three requests besides the version itself.
  aliases_of :
      (candidate requested p q r : Bytes)
      → version_parts candidate ≡ p ∷ q ∷ r ∷ []
      → version_matches semver candidate requested ≡ true
      → (candidate ≡ requested)
        ⊎ (requested ≡ latest)
        ⊎ (requested ≡ p)
        ⊎ (requested ≡ p ++ (b'.' ∷ q))
  unfolding version_matches
  aliases_of candidate requested p q r e h = ground (
    arith,
    text_eq_iff requested latest,
    text_eq_iff candidate requested,
    text_eq_iff (semver.major (with_v candidate)) (with_v requested),
    text_eq_iff (semver.major_minor (with_v candidate)) (with_v requested),
    laws.major_of candidate p q r,
    laws.major_minor_of candidate p q r,
  )

  aliases-eq :
      (pkg v p q r : Bytes)
      → version_parts v ≡ p ∷ q ∷ r ∷ []
      → mutable_alias_prefixes pkg v
        ≡ at_version pkg latest ∷ at_version pkg p ∷ at_version pkg (p ++ (b'.' ∷ q)) ∷ []
  unfolding mutable_alias_prefixes partial_versions join
  aliases-eq pkg v p q r e = rw (e, mutable_alias_prefixes)

  full_parts : (v : Bytes) → is_full_semver semver v ≡ true → (length (version_parts v) == 3) ≡ true
  unfolding is_full_semver
  full_parts v h = ground arith

  alias_held :
      (pkg requested p q : Bytes)
      → (requested ≡ latest) ⊎ (requested ≡ p) ⊎ (requested ≡ p ++ (b'.' ∷ q))
      → holds
          (at_version pkg requested)
          (at_version pkg latest ∷ at_version pkg p ∷ at_version pkg (p ++ (b'.' ∷ q)) ∷ [])
        ≡ true
  alias_held pkg requested p q h = ground (
    arith,
    text_eq_iff (at_version pkg latest) (at_version pkg requested),
    text_eq_iff (at_version pkg p) (at_version pkg requested),
    text_eq_iff (at_version pkg (p ++ (b'.' ∷ q))) (at_version pkg requested),
  )

  -- With the laws of the semver library: a request that a full version matches is that version itself, or `pkg@request` is among the cache
  -- prefixes that deleting the version invalidates.
  pub version_matches-aliases :
      (pkg candidate requested : Bytes)
      → is_full_semver semver candidate ≡ true
      → version_matches semver candidate requested ≡ true
      → (candidate ≡ requested)
        ⊎ (holds (at_version pkg requested) (mutable_alias_prefixes pkg candidate) ≡ true)
  version_matches-aliases pkg candidate requested full h =
      let t = Three-parts (version_parts candidate) (full_parts candidate full) in
      let same = aliases-eq pkg candidate t.major t.minor t.patch t.shape in
      elim (aliases_of candidate requested t.major t.minor t.patch t.shape h) [
        | inl e ↦ inl e
        | inr e ↦ inr (
            ap (holds (at_version pkg requested)) same ∙ alias_held pkg requested t.major t.minor e)
      ]
