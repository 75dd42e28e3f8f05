-- ===== src/Version/Tests.antt =====
-- A semver library that reads the parts between the dots, and the version theorems at it.
use gimme.Base.{
  Bool, Bytes, codes, List, [], ◌∷◌, ◌++◌, true, ◌≡◌, ◌⊎◌, refl, leb, length, text_eq,
  if◌then◌else◌, Bool-cases, inl, inr, arith, false, ◌||◌, ◌∙◌, ap, some,
}
use gimme.Storage.Laws.{holds}
use gimme.Version.{
  resolve_version, Semver, with_v, version_parts, version_matches, is_full_semver, at_version,
  mutable_alias_prefixes,
}
use gimme.Version.Resolve.{Ascending, SortLaws, Resolved, resolve_version-Resolved}
use gimme.Version.Aliases.{PrefixLaws, version_matches-aliases}

abbrev without_v : Bytes → Bytes
without_v [] = []
without_v (c ∷ s) = s

abbrev major_part : List Bytes → Bytes
major_part [] = []
major_part (p ∷ ps) = with_v p

abbrev minor_part : List Bytes → Bytes
minor_part [] = []
minor_part (p ∷ []) = with_v p
minor_part (p ∷ q ∷ ps) = with_v (p ++ (b'.' ∷ q))

-- Takes every text for a version without a pre-release, and leaves lists in their order.
abbrev pub by_dots : Semver
by_dots = record {
  is_semver = λ v. true;
  prerelease = λ v. [];
  major = λ v. major_part (version_parts (without_v v));
  major_minor = λ v. minor_part (version_parts (without_v v));
  sort = λ vs. vs;
}

pub by_dots-PrefixLaws : PrefixLaws by_dots
by_dots-PrefixLaws = record {
  major_of = λ v p q r h e. rw e refl;
  major_minor_of = λ v p q r h e. rw e refl;
}

run_full : is_full_semver by_dots (codes "1.2.3") ≡ true
unfolding is_full_semver
run_full = refl

run_match : version_matches by_dots (codes "1.2.3") (codes "1.2") ≡ true
unfolding version_matches version_parts
run_match = refl

version_matches-aliases_example :
    (codes "1.2.3" ≡ codes "1.2")
    ⊎ (holds
          (at_version (codes "p") (codes "1.2"))
          (mutable_alias_prefixes (codes "p") (codes "1.2.3"))
        ≡ true)
version_matches-aliases_example =
    version_matches-aliases by_dots by_dots-PrefixLaws (codes "p") (codes "1.2.3") (codes "1.2")
      run_full run_match

-- The texts by their length, which is an order on the versions of one digit a part.
abbrev shorter : Bytes → Bytes → Bool
shorter v w = leb (length v) (length w)

unfoldable insert_sorted : Bytes → List Bytes → List Bytes
insert_sorted v [] = v ∷ []
insert_sorted v (w ∷ ws) =
    let rest = insert_sorted v ws in if shorter v w then v ∷ w ∷ ws else w ∷ rest

unfoldable sort_by_length : List Bytes → List Bytes
unfolding insert_sorted
sort_by_length [] = []
sort_by_length (v ∷ vs) = insert_sorted v (sort_by_length vs)

longer : (v w : Bytes) → shorter v w ≡ false → shorter w v ≡ true
longer v w h = ground arith

insert_sorted-behind :
    (b v : Bytes) (ws : List Bytes)
    → shorter b v ≡ true
    → Ascending shorter (b ∷ ws)
    → Ascending shorter (b ∷ insert_sorted v ws)
unfolding insert_sorted
insert_sorted-behind b v [] h up = (h, tt)
insert_sorted-behind b v (w ∷ ws) h (le, up) = elim (Bool-cases (shorter v w)) [
  | inl q ↦ rw q (h, (q, up))
  | inr q ↦ rw q (le, insert_sorted-behind w v ws (longer v w q) up)
]

insert_sorted-Ascending :
    (v : Bytes) (ws : List Bytes) → Ascending shorter ws → Ascending shorter (insert_sorted v ws)
unfolding insert_sorted
insert_sorted-Ascending v [] up = tt
insert_sorted-Ascending v (w ∷ ws) up = elim (Bool-cases (shorter v w)) [
  | inl q ↦ rw q (q, up)
  | inr q ↦ rw q (insert_sorted-behind w v ws (longer v w q) up)
]

sort_by_length-Ascending : (vs : List Bytes) → Ascending shorter (sort_by_length vs)
unfolding sort_by_length
sort_by_length-Ascending [] = tt
sort_by_length-Ascending (v ∷ vs) =
    insert_sorted-Ascending v (sort_by_length vs) (sort_by_length-Ascending vs)

holds-insert_sorted :
    (u v : Bytes) (ws : List Bytes) → holds u (insert_sorted v ws) ≡ holds u (v ∷ ws)
unfolding insert_sorted
holds-insert_sorted u v [] = refl
holds-insert_sorted u v (w ∷ ws) = ground (arith, holds-insert_sorted u v ws)

holds-sort_by_length : (u : Bytes) (vs : List Bytes) → holds u (sort_by_length vs) ≡ holds u vs
unfolding sort_by_length
holds-sort_by_length u [] = refl
holds-sort_by_length u (v ∷ vs) =
    holds-insert_sorted u v (sort_by_length vs)
    ∙ ap (λ b. text_eq v u || b) (holds-sort_by_length u vs)

abbrev sorting : Semver
sorting = record by_dots { sort = sort_by_length }

sorting-SortLaws : SortLaws sorting shorter
sorting-SortLaws = record {
  reflexive = λ v. ground arith;
  transitive = λ u v w h k. ground arith;
  sort-Ascending = sort_by_length-Ascending;
  holds-sort = holds-sort_by_length;
}

abbrev listing : List Bytes
listing = codes "p@1.0.10/" ∷ codes "p@2.0.0/" ∷ codes "p@1.0.9/" ∷ []

run_resolve : resolve_version sorting listing (codes "p") (codes "1") ≡ some (codes "1.0.10")
unfolding resolve_version version_matches version_parts sort_by_length
run_resolve = refl

resolve_version-Resolved_example :
    Resolved sorting shorter sorting-SortLaws listing
      (codes "p")
      (codes "1")
      (resolve_version sorting listing (codes "p") (codes "1"))
resolve_version-Resolved_example =
    resolve_version-Resolved sorting shorter sorting-SortLaws listing (codes "p") (codes "1")
