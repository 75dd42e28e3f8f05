-- ===== src/Content/Uncached.antt =====
-- Proofs about `DeletePackage` and the cache.
use gimme.Base.{
  Bytes, text_eq, text_eq_iff, Bool, true, false, any, All, List, [], ◌∷◌, ◌++◌, Option, none, some,
  ◌≡◌, inl, inr, refl, sym, ap, ◌∙◌, arith, Bool-cases, Option-cases,
}
use gimme.Strings.{slash, has_prefix, has_prefix-append}
use gimme.Errors.{GimmeError}
use gimme.Storage.{remove_objects}
use gimme.Storage.Laws.{holds}
use gimme.Version.{
  version_matches, is_full_semver, at_version, validate_package_identity, mutable_alias_prefixes,
}
use gimme.Version.Aliases.{PrefixLaws, version_matches-aliases}
use gimme.Content.Upload.{Service}
use gimme.Content.Serve.{
  CacheManager, cache_key, invalidate_each, invalidated, after_removal, delete_package,
}
use gimme.Cache.Laws.{is_wild}
use gimme.Content.Cached.{CacheLaws}

module _ {W Object C : Type 0} (svc : Service W Object) (stat_ok : Object → W → Bool)
    (manager : CacheManager C) (is_text : Bytes → Bool) (laws : CacheLaws is_text manager) where
  -- Every invalidation succeeds, one after the other.
  abbrev pub AllDropped : List Bytes → C → Type 0
  AllDropped [] c = Unit
  AllDropped (p ∷ ps) c =
      ((manager.delete_by_prefix p c).0 ≡ true) × AllDropped ps (manager.delete_by_prefix p c).1

  abbrev pub AllPlain : List Bytes → Type 0
  AllPlain ps = All (λ p. any is_wild p ≡ false) ps

  absent_stays :
      (ps : List Bytes) (key : Bytes) (c : C)
      → AllPlain ps
      → manager.get key c ≡ none
      → manager.get key (invalidate_each svc stat_ok (some manager) manager ps c) ≡ none
  unfolding invalidate_each
  absent_stays [] key c plain h = h
  absent_stays (p ∷ ps) key c (plain, plains) h =
      absent_stays ps key (manager.delete_by_prefix p c).1 plains (laws.stays_out p key c plain h)

  held_dropped :
      (ps : List Bytes) (prefix file : Bytes) (c : C)
      → AllPlain ps
      → AllDropped ps c
      → holds prefix ps ≡ true
      → manager.get (prefix ++ file) (invalidate_each svc stat_ok (some manager) manager ps c)
        ≡ none
  unfolding invalidate_each
  held_dropped [] prefix file c plain done h = absurd (cc)
  held_dropped (p ∷ ps) prefix file c (plain, plains) (done, others) h =
      elim (Bool-cases (text_eq p prefix)) [
        | inl e ↦ absent_stays ps (prefix ++ file) (manager.delete_by_prefix p c).1 plains (
            laws.dropped p (prefix ++ file) c plain done (
              ap (has_prefix (prefix ++ file)) ((text_eq_iff p prefix).0 e)
              ∙ has_prefix-append prefix file))
        | inr e ↦
            held_dropped ps prefix file (manager.delete_by_prefix p c).1 plains others (rw e at h)
      ]

  valid_is_full :
      (pkg version : Bytes)
      → validate_package_identity svc.semver pkg version ≡ none
      → is_full_semver svc.semver version ≡ true
  unfolding validate_package_identity
  valid_is_full pkg version h = ground arith

  alias_listed :
      (prefix_laws : PrefixLaws svc.semver) (pkg version requested : Bytes)
      → is_full_semver svc.semver version ≡ true
      → version_matches svc.semver version requested ≡ true
      → holds
          (at_version pkg requested)
          (at_version pkg version ∷ mutable_alias_prefixes pkg version)
        ≡ true
  alias_listed prefix_laws pkg version requested full h =
      elim (version_matches-aliases svc.semver prefix_laws pkg version requested full h) [
        | inl e ↦ ground (
          arith,
          text_eq_iff (at_version pkg version) (at_version pkg requested),
          ap (at_version pkg) e,
        )
        | inr e ↦ ground arith
      ]

  after_removal_clean :
      (pkg version : Bytes) (c : C) (r : Option GimmeError × W)
      → (after_removal svc stat_ok (some manager) pkg version c r).0 ≡ none
      → (after_removal svc stat_ok (some manager) pkg version c r).2
        ≡ invalidated svc stat_ok (some manager) pkg version c
  after_removal_clean pkg version c (some e, w) h = absurd (cc)
  after_removal_clean pkg version c (none, w) h = refl

  removed_cleanly :
      (pkg version : Bytes) (w : W) (c : C)
      → (delete_package svc stat_ok (some manager) pkg version w c).0 ≡ none
      → (validate_package_identity svc.semver pkg version ≡ none)
        × ((delete_package svc stat_ok (some manager) pkg version w c).2
            ≡ invalidated svc stat_ok (some manager) pkg version c)
  unfolding delete_package
  removed_cleanly pkg version w c done =
      elim (Option-cases (validate_package_identity svc.semver pkg version)) [
        | inr (f, e) ↦ absurd (cc (e, done))
        | inl e ↦
            let r = remove_objects svc.client svc.osm (at_version pkg version ++ (slash ∷ [])) w in
            let shape : delete_package svc stat_ok (some manager) pkg version w c
                ≡ after_removal svc stat_ok (some manager) pkg version c r =
              rw (e, delete_package) in
            (
              e,
              ap (λ (x : Option GimmeError × W × C). x.2) shape
                  ∙ after_removal_clean pkg version c r
                      (sym (ap (λ (x : Option GimmeError × W × C). x.0) shape) ∙ done),
            )
      ]

  -- With the laws of the cache and of the semver library: when `DeletePackage` reports no error, and its
  -- invalidations succeed, of prefixes without a character that has a meaning in patterns, the cache
  -- answers no request, for any file, by a version that the deleted version matches: neither the exact
  -- version, nor a major or minor alias, nor `latest`.
  pub delete_package-uncached :
      (prefix_laws : PrefixLaws svc.semver) (pkg version requested file : Bytes) (w : W) (c : C)
      → (delete_package svc stat_ok (some manager) pkg version w c).0 ≡ none
      → AllPlain (at_version pkg version ∷ mutable_alias_prefixes pkg version)
      → AllDropped (at_version pkg version ∷ mutable_alias_prefixes pkg version) c
      → version_matches svc.semver version requested ≡ true
      → manager.get
          (cache_key svc stat_ok (some manager) pkg requested file)
          (delete_package svc stat_ok (some manager) pkg version w c).2
        ≡ none
  delete_package-uncached prefix_laws pkg version requested file w c done plain dropped h =
      let (identity, state) = removed_cleanly pkg version w c done in
      ap (manager.get (cache_key svc stat_ok (some manager) pkg requested file)) state
      ∙ held_dropped (at_version pkg version ∷ mutable_alias_prefixes pkg version)
          (at_version pkg requested) file c plain dropped
          (alias_listed prefix_laws pkg version requested (valid_is_full pkg version identity) h)
