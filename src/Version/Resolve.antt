-- ===== src/Version/Resolve.antt =====
-- Proofs about `resolveVersion`.
use gimme.Base.{
  Bytes, text_eq, text_eq_iff, text_eq_refl, Bool, true, false, List, [], ◌∷◌, ◌++◌, Option, none,
  some, map, ◌≡◌, ◌⊎◌, inl, inr, refl, sym, ap, ◌∙◌, subst, arith, Bool-cases, Option-cases,
}
use gimme.Strings.{trim_prefix, trim_prefix-append}
use gimme.Storage.Laws.{holds}
use gimme.Version.{
  Semver, with_v, version_of, version_matches, matching_versions, last_version, resolve_version,
}

-- Each element is at most the next.
abbrev pub Ascending : (Bytes → Bytes → Bool) → List Bytes → Type 0
Ascending at_most [] = Unit
Ascending at_most (v ∷ []) = Unit
Ascending at_most (v ∷ w ∷ vs) = (at_most v w ≡ true) × Ascending at_most (w ∷ vs)

-- semver.Sort puts its argument into the increasing order of semver.Compare, which `at_most` tests.
pub record SortLaws (semver : Semver) (at_most : Bytes → Bytes → Bool) : Type 0 where
  pub reflexive : (v : Bytes) → at_most v v ≡ true
  pub transitive : (u v w : Bytes) → at_most u v ≡ true → at_most v w ≡ true → at_most u w ≡ true
  pub sort-Ascending : (vs : List Bytes) → Ascending at_most (semver.sort vs)
  pub holds-sort : (v : Bytes) (vs : List Bytes) → holds v (semver.sort vs) ≡ holds v vs

holds_cases :
    (u x : Bytes) (ys : List Bytes) → holds u (x ∷ ys) ≡ true → (x ≡ u) ⊎ (holds u ys ≡ true)
holds_cases u x ys h = elim (Bool-cases (text_eq x u)) [
  | inl e ↦ inl ((text_eq_iff x u).0 e)
  | inr e ↦ inr (rw e at h)
]

only : (u x : Bytes) → holds u (x ∷ []) ≡ true → x ≡ u
only u x h = elim (holds_cases u x [] h) [ inl e ↦ e | inr e ↦ absurd (cc) ]

behind : (u x : Bytes) (ys : List Bytes) → holds u ys ≡ true → holds u (x ∷ ys) ≡ true
behind u x ys h = elim (Bool-cases (text_eq x u)) [ inl e ↦ rw e refl | inr e ↦ rw e h ]

module _ (semver : Semver) (at_most : Bytes → Bytes → Bool) (laws : SortLaws semver at_most) where
  -- A greatest element of the list, of which `v` is the text behind the `v`.
  record Last (vs : List Bytes) (v : Bytes) : Type 0 where
    full : Bytes
    shown : v ≡ trim_prefix full (b'v' ∷ [])
    held : holds full vs ≡ true
    greatest : (u : Bytes) → holds u vs ≡ true → at_most u full ≡ true

  last_version-Last :
      (vs : List Bytes) (v : Bytes)
      → Ascending at_most vs
      → last_version semver vs ≡ some v
      → Last vs v
  last_version-Last [] v up h = absurd (cc)
  last_version-Last (x ∷ []) v up h = record {
    full = x;
    shown = cc;
    held = ground (arith, text_eq_refl x);
    greatest = λ u q. subst (λ w. at_most w x ≡ true) (only u x q) (laws.reflexive x);
  }
  last_version-Last (x ∷ y ∷ ys) v (le, up) h =
      let r = last_version-Last (y ∷ ys) v up h in
      record {
        full = r.full;
        shown = r.shown;
        held = behind r.full x (y ∷ ys) r.held;
        greatest = λ u q. elim (holds_cases u x (y ∷ ys) q) [
          | inr e ↦ r.greatest u e
          | inl e ↦
              subst (λ w. at_most w r.full ≡ true) e
                (laws.transitive x y r.full le (r.greatest y (ground (arith, text_eq_refl y))))
        ];
      }

  last_version-none : (vs : List Bytes) → last_version semver vs ≡ none → vs ≡ []
  last_version-none [] h = refl
  last_version-none (x ∷ []) h = absurd (cc)
  last_version-none (x ∷ y ∷ ys) h = absurd (cc (last_version-none (y ∷ ys) h))

  -- The versions that the listing names.
  abbrev pub candidates : Bytes → List Bytes → List Bytes
  candidates prefix listing = map (version_of semver prefix) listing

  record Matching (prefix requested : Bytes) (listing : List Bytes) (u : Bytes) : Type 0 where
    version : Bytes
    named : u ≡ with_v version
    listed : holds version (candidates prefix listing) ≡ true
    matches : version_matches semver version requested ≡ true

  later :
      (prefix requested p : Bytes) (ps : List Bytes) (u : Bytes)
      → Matching prefix requested ps u
      → Matching prefix requested (p ∷ ps) u
  later prefix requested p ps u m = record {
    version = m.version;
    named = m.named;
    listed = behind m.version (version_of semver prefix p) (candidates prefix ps) m.listed;
    matches = m.matches;
  }

  matching_versions-Matching :
      (prefix requested : Bytes) (listing : List Bytes) (u : Bytes)
      → holds u (matching_versions semver prefix requested listing) ≡ true
      → Matching prefix requested listing u
  unfolding matching_versions
  matching_versions-Matching prefix requested [] u h = absurd (cc)
  matching_versions-Matching prefix requested (p ∷ ps) u h =
      elim (Bool-cases (version_matches semver (version_of semver prefix p) requested)) [
        | inr q ↦
            later prefix requested p ps u
              (matching_versions-Matching prefix requested ps u (rw q at h))
        | inl q ↦
            elim (holds_cases u (with_v (version_of semver prefix p))
              (matching_versions semver prefix requested ps) (rw q at h)) [
                | inl e ↦ record {
                  version = version_of semver prefix p;
                  named = sym e;
                  listed = ground (arith, text_eq_refl (version_of semver prefix p));
                  matches = q;
                }
                | inr e ↦
                    later prefix requested p ps u
                      (matching_versions-Matching prefix requested ps u e)
              ]
      ]

  matching_versions_complete :
      (prefix requested : Bytes) (listing : List Bytes) (w : Bytes)
      → holds w (candidates prefix listing) ≡ true
      → version_matches semver w requested ≡ true
      → holds (with_v w) (matching_versions semver prefix requested listing) ≡ true
  unfolding matching_versions
  matching_versions_complete prefix requested [] w h m = absurd (cc)
  matching_versions_complete prefix requested (p ∷ ps) w h m =
      elim (holds_cases w (version_of semver prefix p) (candidates prefix ps) h) [
        | inl e ↦
            let q : version_matches semver (version_of semver prefix p) requested ≡ true =
              ap (λ x. version_matches semver x requested) e ∙ m in
            let same : text_eq (with_v (version_of semver prefix p)) (with_v w) ≡ true =
              (text_eq_iff _ _).1 (ap with_v e) in
            rw (q, same) refl
        | inr e ↦
            let rest = matching_versions_complete prefix requested ps w e m in
            elim (Bool-cases (version_matches semver (version_of semver prefix p) requested)) [
              | inl q ↦ rw q (
                  behind (with_v w) (with_v (version_of semver prefix p))
                    (matching_versions semver prefix requested ps) rest)
              | inr q ↦ rw q rest
            ]
      ]

  -- What an answer says of the versions that the listing of `pkg@` names.
  abbrev pub Resolved : List Bytes → Bytes → Bytes → Option Bytes → Type 0
  Resolved listing pkg requested none =
      (w : Bytes)
      → holds w (candidates (pkg ++ (b'@' ∷ [])) listing) ≡ true
      → version_matches semver w requested ≡ false
  Resolved listing pkg requested (some v) =
      (holds v (candidates (pkg ++ (b'@' ∷ [])) listing) ≡ true)
      × (version_matches semver v requested ≡ true)
      × ((w : Bytes)
          → holds w (candidates (pkg ++ (b'@' ∷ [])) listing) ≡ true
          → version_matches semver w requested ≡ true
          → at_most (with_v w) (with_v v) ≡ true)

  none_matches :
      (listing : List Bytes) (pkg requested : Bytes)
      → last_version semver
          (semver.sort (matching_versions semver (pkg ++ (b'@' ∷ [])) requested listing))
        ≡ none
      → Resolved listing pkg requested none
  none_matches listing pkg requested q w h =
      let prefix = pkg ++ (b'@' ∷ []) in
      let found = matching_versions semver prefix requested listing in
      elim (Bool-cases (version_matches semver w requested)) [
        | inr e ↦ e
        | inl m ↦
            let held : holds (with_v w) (semver.sort found) ≡ true =
              laws.holds-sort (with_v w) found
              ∙ matching_versions_complete prefix requested listing w h m in
            let empty : semver.sort found ≡ [] = last_version-none (semver.sort found) q in
            absurd (cc (held, ap (holds (with_v w)) empty))
      ]

  highest_matches :
      (listing : List Bytes) (pkg requested v : Bytes)
      → last_version semver
          (semver.sort (matching_versions semver (pkg ++ (b'@' ∷ [])) requested listing))
        ≡ some v
      → Resolved listing pkg requested (some v)
  highest_matches listing pkg requested v q =
      let prefix = pkg ++ (b'@' ∷ []) in
      let found = matching_versions semver prefix requested listing in
      let r = last_version-Last (semver.sort found) v (laws.sort-Ascending found) q in
      let m =
        matching_versions-Matching prefix requested listing r.full
          (sym (laws.holds-sort r.full found) ∙ r.held) in
      let same : v ≡ m.version =
        r.shown
        ∙ ap (λ x. trim_prefix x (b'v' ∷ [])) m.named
        ∙ trim_prefix-append (b'v' ∷ []) m.version in
      (
        ap (λ x. holds x (candidates prefix listing)) same ∙ m.listed,
        ap (λ x. version_matches semver x requested) same ∙ m.matches,
        λ w h k.
            let highest : at_most (with_v w) r.full ≡ true = r.greatest (with_v w) (
              laws.holds-sort (with_v w) found
              ∙ matching_versions_complete prefix requested listing w h k) in
            ap (at_most (with_v w)) (ap with_v same ∙ sym m.named) ∙ highest,
      )

  -- With the order that semver.Sort documents: when `resolveVersion` answers a version, the listing
  -- names it, it matches the request, and every version of the listing that matches is at most it;
  -- when it answers that there is none, no version of the listing matches.
  pub resolve_version-Resolved :
      (listing : List Bytes) (pkg requested : Bytes)
      → Resolved listing pkg requested (resolve_version semver listing pkg requested)
  unfolding resolve_version
  resolve_version-Resolved listing pkg requested =
      let prefix = pkg ++ (b'@' ∷ []) in
      let found = matching_versions semver prefix requested listing in
      elim (Option-cases (last_version semver (semver.sort found))) [
        | inl q ↦
            subst (Resolved listing pkg requested) (sym q) (none_matches listing pkg requested q)
        | inr (v, q) ↦
            subst (Resolved listing pkg requested) (sym q)
              (highest_matches listing pkg requested v q)
      ]
