-- ===== src/Tokens/Purge.antt =====
-- `purgeExpired` of the file store: what a sweep leaves of each entry.
use gimme.Base.{
  ℕ, Bytes, text_eq, text_eq_iff, if◌then◌else◌, Bool, true, false, ◌&&◌, ◌||◌, List, [], ◌∷◌,
  Option, none, some, ◌≡◌, ◌≢◌, refl, sym, ap, ◌∙◌, subst, arith, Bool-cases, Option-cases, inl,
  inr, All, Distinct,
}
use gimme.Dict.{lookup, remove, lookup-remove, keys, Listed}
use gimme.Tokens.{Time, TokenEntry, is_expired}
use gimme.Tokens.FileStore.{Maps, get_by_hash, purge_entry, purge_each}
use gimme.Tokens.Consistent.{IdLinked, IsConsistent}
use gimme.Tokens.Steps.{Known, deleted_maps, deleted_maps-IsConsistent}
use gimme.Tokens.Views.{get_by_hash-HashLinked, get_by_hash-deleted}

-- What a purge of the listed ids leaves of an entry.
abbrev pub listed : Bytes → List (Bytes × ℕ) → Bool
listed id [] = false
listed id ((k, p) ∷ rest) = text_eq k id || listed id rest

abbrev pub survives : Time → List (Bytes × ℕ) → Option TokenEntry → Option TokenEntry
survives now rest none = none
survives now rest (some e) = if is_expired now e && listed e.id rest then none else some e

listed_of_lookup :
    (id : Bytes) (p : ℕ) (m : List (Bytes × ℕ)) → lookup id m ≡ some p → listed id m ≡ true
unfolding lookup
listed_of_lookup id p [] h = absurd (ground arith)
listed_of_lookup id p ((k, q) ∷ m) h = ground (arith, listed_of_lookup id p m)

-- The bindings that are still to come stay after one is removed.
Listed-remove :
    (id : Bytes) (m rest : List (Bytes × ℕ))
    → All (λ j. id ≢ j) (keys rest)
    → Listed m rest
    → Listed (remove id m) rest
Listed-remove id m [] n h = tt
Listed-remove id m ((k, p) ∷ rest) (n, ns) (h, hs) =
    (ground (arith, lookup-remove id k m, text_eq_iff id k), Listed-remove id m rest ns hs)

-- What one round of the purge does to a known entry.
record RoundOf (now : Time) (id : Bytes) (p : ℕ) (m : Maps) (rest : List (Bytes × ℕ)) (m' : Maps)
    : Type 0 where
  consistent : IsConsistent m'
  listing : Listed m'.by_id rest
  view :
      (j : Bytes)
      → survives now rest (get_by_hash j m') ≡ survives now ((id, p) ∷ rest) (get_by_hash j m)

abbrev Round : Time → Bytes → ℕ → Maps → List (Bytes × ℕ) → Type 0
Round now id p m rest = RoundOf now id p m rest (purge_entry now id p m).0

survives-nil : (now : Time) (o : Option TokenEntry) → survives now [] o ≡ o
survives-nil now none = refl
survives-nil now (some e) = ground arith

module _ (now : Time) (id : Bytes) (p : ℕ) (m : Maps) (c : IsConsistent m) (link : IdLinked m id p)
    (found : lookup id m.by_id ≡ some p) where
  abbrev k : Known m id
  k = record { at = p; found = found; link = link }

  purge_entry-live : is_expired now k.link.entry ≡ false → purge_entry now id p m ≡ (m, false)
  unfolding purge_entry is_expired
  purge_entry-live h = ground (arith, k.link.stored)

  purge_entry-expired :
      is_expired now k.link.entry ≡ true → purge_entry now id p m ≡ (deleted_maps m c id k, true)
  unfolding purge_entry is_expired
  purge_entry-expired h = ground (arith, k.link.stored)

  -- Which entry is behind a hash, if the id of the round is not expired or is another's.
  view_live :
      (rest : List (Bytes × ℕ)) (j : Bytes)
      → is_expired now k.link.entry ≡ false
      → survives now rest (get_by_hash j m) ≡ survives now ((id, p) ∷ rest) (get_by_hash j m)
  view_live rest j h = elim (Option-cases (get_by_hash j m)) [
    | inl a ↦ rw a
    | inr (e, a) ↦ elim (Bool-cases (text_eq id e.id)) [
      | inl b ↦
          let (q, _, cell, _, at) = get_by_hash-HashLinked m c j e a in
          let one : k.link.entry ≡ e =
            cc (k.link.stored, cell, at, k.found, (text_eq_iff id e.id).0 b) in
          let live : is_expired now e ≡ false = ap (is_expired now) (sym one) ∙ h in rw (a, live)
      | inr b ↦ rw (a, b)
    ]
  ]

  view_expired :
      (rest : List (Bytes × ℕ)) (j : Bytes)
      → is_expired now k.link.entry ≡ true
      → survives now rest (get_by_hash j (deleted_maps m c id k))
        ≡ survives now ((id, p) ∷ rest) (get_by_hash j m)
  view_expired rest j h = elim (Option-cases (get_by_hash j m)) [
    | inl a ↦ ground (arith, get_by_hash-deleted m c id k j)
    | inr (e, a) ↦
        let (q, bound, cell, hash, at) = get_by_hash-HashLinked m c j e a in
        elim (Bool-cases (text_eq id e.id)) [
          | inl b ↦
              let one : k.link.entry ≡ e =
                cc (k.link.stored, cell, at, k.found, (text_eq_iff id e.id).0 b) in
              let dead : is_expired now e ≡ true = ap (is_expired now) (sym one) ∙ h in
              let hit : text_eq k.link.entry.token_hash j ≡ true =
                (text_eq_iff k.link.entry.token_hash j).1
                  (ap (λ (x : TokenEntry). x.token_hash) one ∙ hash) in
              rw (get_by_hash-deleted m c id k j, hit, a, dead, b)
          | inr b ↦ elim (Bool-cases (text_eq k.link.entry.token_hash j)) [
            | inl hit ↦
                let found : lookup j m.by_hash ≡ some k.at =
                  ap (λ x. lookup x m.by_hash) (sym ((text_eq_iff k.link.entry.token_hash j).0 hit))
                  ∙ k.link.by_hash in
                let one : k.link.entry ≡ e = cc (k.link.stored, cell, bound, found) in
                let own : id ≡ e.id = sym k.link.same_id ∙ ap (λ (x : TokenEntry). x.id) one in
                absurd (cc (b, (text_eq_iff id e.id).1 own))
            | inr miss ↦ rw (get_by_hash-deleted m c id k j, miss, a, b)
          ]
        ]
  ]

  round :
      (rest : List (Bytes × ℕ))
      → All (λ j. id ≢ j) (keys rest)
      → Listed m.by_id rest
      → Round now id p m rest
  round rest n h = elim (Bool-cases (is_expired now k.link.entry)) [
    | inl dead ↦
        subst (λ r. RoundOf now id p m rest r.0) (sym (purge_entry-expired dead))
          (record {
            consistent = deleted_maps-IsConsistent m c id k;
            listing = Listed-remove id m.by_id rest n h;
            view = λ j. view_expired rest j dead;
          })
    | inr live ↦
        subst (λ r. RoundOf now id p m rest r.0) (sym (purge_entry-live live))
          (record { consistent = c; listing = h; view = λ j. view_live rest j live })
  ]

pub purge_each-IsConsistent :
    (now : Time) (rest : List (Bytes × ℕ)) (m : Maps)
    → IsConsistent m
    → Distinct (keys rest)
    → Listed m.by_id rest
    → IsConsistent (purge_each now rest m).0
      × ((j : Bytes)
          → get_by_hash j (purge_each now rest m).0 ≡ survives now rest (get_by_hash j m))
unfolding purge_each
purge_each-IsConsistent now [] m c d h = (c, λ j. sym (survives-nil now (get_by_hash j m)))
purge_each-IsConsistent now ((id, p) ∷ rest) m c (n, d) (found, h) =
    let r = round now id p m c (c.ids id p found) found rest n h in
    let (c', views) =
      purge_each-IsConsistent now rest (purge_entry now id p m).0 r.consistent d r.listing in
    (c', λ j. views j ∙ r.view j)
