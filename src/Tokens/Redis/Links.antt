-- ===== src/Tokens/Redis/Links.antt =====
-- Proofs about the two kinds of keys of the store over Redis: from a hash to an identifier, and from an
-- identifier to its entry.
use gimme.Base.{
  Bytes, text_eq, text_eq_iff, text_eq_refl, if◌then◌else◌, true, Option, none, some, ◌≡◌, ◌≢◌, ◌⊎◌,
  inl, inr, refl, sym, ap, ◌∙◌, subst, Bool-cases, Option-cases,
}
use gimme.Dict.{text_eq-ne}
use gimme.Tokens.{Time, TokenEntry}
use gimme.Tokens.Contract.{marked, without}

abbrev pub Ids : Type 0
Ids = Bytes → Option Bytes

abbrev pub Entries : Type 0
Entries = Bytes → Option TokenEntry

-- The entry of the identifier, if there is one.
abbrev pub entry_at : Entries → Option Bytes → Option TokenEntry
entry_at es none = none
entry_at es (some id) = es id

pub same_or_other : (a b : Bytes) → (a ≡ b) ⊎ (a ≢ b)
same_or_other a b = elim (Bool-cases (text_eq a b)) [
  | inl q ↦ inl ((text_eq_iff a b).0 q)
  | inr q ↦ inr (λ h. cc (q, (text_eq_iff a b).1 h))
]

-- Whatever the identifier's entry has become, what leads to it has become.
entry_at-step :
    (f : Option TokenEntry → Option TokenEntry) (o : Option Bytes) (es fs : Entries)
    → f none ≡ none
    → ((id : Bytes) → o ≡ some id → fs id ≡ f (es id))
    → entry_at fs o ≡ f (entry_at es o)
entry_at-step f none es fs z h = sym z
entry_at-step f (some id) es fs z h = h id refl

marked_same :
    (now : Time) (id : Bytes) (e : TokenEntry)
    → text_eq e.id id ≡ true
    → marked now id (some e) ≡ some (record e { revoked_at = now })
marked_same now id e q = rw (q) refl

pub entry_at-same :
    (o : Option Bytes) (es fs : Entries)
    → ((id : Bytes) → fs id ≡ es id)
    → entry_at fs o ≡ entry_at es o
entry_at-same none es fs h = refl
entry_at-same (some id) es fs h = h id

module _ (Plain : Bytes → Type 0) where
  -- The identifiers that hashes lead to are plain; an entry stands under its own identifier, and of all
  -- hashes its own alone leads there.
  pub record Sound (ids : Ids) (es : Entries) : Type 0 where
    pub named : (h id : Bytes) → ids h ≡ some id → Plain id
    pub linked :
        (id : Bytes) (e : TokenEntry) → es id ≡ some e → (e.id ≡ id) × (ids e.token_hash ≡ some id)
    pub owned :
        (h id : Bytes) (e : TokenEntry) → ids h ≡ some id → es id ≡ some e → e.token_hash ≡ h

  -- `ids` and `es` with the keys of an identifier changed; a key that is not plain may be lost.
  pub record Changed (id : Bytes) (ids ids' : Ids) (es es' : Entries) : Type 0 where
    pub kept : (j : Bytes) → id ≢ j → Plain j → es' j ≡ es j
    pub lost : (j : Bytes) → id ≢ j → (es' j ≡ none) ⊎ (es' j ≡ es j)

  -- An entry that another identifier has was there.
  was_there :
      (id j : Bytes) (f : TokenEntry) (ids ids' : Ids) (es es' : Entries)
      → Changed id ids ids' es es'
      → id ≢ j
      → es' j ≡ some f
      → es j ≡ some f
  was_there id j f ids ids' es es' c n h = elim (c.lost j n) [
    | inl gone ↦ cc (gone, h)
    | inr same ↦ sym same ∙ h
  ]

  module _ (ids ids' : Ids) (es es' : Entries) (sound : Sound ids es) where
    module _ (e : TokenEntry) (c : Changed e.id ids ids' es es') (plain : Plain e.id)
        (unknown : ids e.token_hash ≡ none) (unused : (h : Bytes) → ids h ≢ some e.id)
        (own_id : ids' e.token_hash ≡ some e.id)
        (other_ids : (h : Bytes) → e.token_hash ≢ h → ids' h ≡ ids h)
        (own_entry : es' e.id ≡ some e) where
      pub added-found :
          (h : Bytes)
          → entry_at es' (ids' h) ≡ (if text_eq e.token_hash h then some e else entry_at es (ids h))
      added-found h = elim (same_or_other e.token_hash h) [
        | inl same ↦
            subst
              (λ k.
                entry_at es' (ids' k)
                ≡ (if text_eq e.token_hash k then some e else entry_at es (ids k)))
              same (rw (own_id, text_eq_refl e.token_hash) own_entry)
        | inr other ↦
            rw (text_eq-ne e.token_hash h other, other_ids h other)
              (entry_at-step (λ o. o) (ids h) es es' refl
                (λ id at.
                  c.kept id (λ same. unused h (at ∙ ap some (sym same))) (sound.named h id at)))
      ]

      pub added-Sound : Sound ids' es'
      added-Sound = record {
        named = λ h id at. elim (same_or_other e.token_hash h) [
          | inl same ↦ subst Plain (cc (same, own_id, at)) plain
          | inr other ↦ sound.named h id (sym (other_ids h other) ∙ at)
        ];
        linked = λ id f at. elim (same_or_other e.id id) [
          | inl same ↦
              let one : e ≡ f = cc (same, own_entry, at) in (cc (one, same), cc (one, same, own_id))
          | inr other ↦
              let (here, back) =
                sound.linked id f (was_there e.id id f ids ids' es es' c other at) in
              let apart : e.token_hash ≢ f.token_hash = λ x. cc (x, unknown, back) in
              (here, other_ids f.token_hash apart ∙ back)
        ];
        owned = λ h id f at stored. elim (same_or_other e.token_hash h) [
          | inl same ↦
              let own : e.id ≡ id = cc (same, own_id, at) in
              let one : e ≡ f = cc (own, own_entry, stored) in cc (one, same)
          | inr other ↦
              let before = sym (other_ids h other) ∙ at in
              let apart : e.id ≢ id = λ x. unused h (before ∙ ap some (sym x)) in
              sound.owned h id f before (was_there e.id id f ids ids' es es' c apart stored)
        ];
      }

    module _ (now : Time) (id : Bytes) (e : TokenEntry) (here : es id ≡ some e)
        (same_ids : (h : Bytes) → ids' h ≡ ids h)
        (marked_entry : es' id ≡ some (record e { revoked_at = now }))
        (others : (j : Bytes) → id ≢ j → es' j ≡ es j) where
      marked_own : (j : Bytes) → es' j ≡ marked now id (es j)
      marked_own j = elim (same_or_other id j) [
        | inl same ↦
            let own = (text_eq_iff e.id id).1 (sound.linked id e here).0 in
            subst (λ k. es' k ≡ marked now id (es k)) same
              (marked_entry ∙ sym (ap (marked now id) here ∙ marked_same now id e own))
        | inr other ↦ others j other ∙ (elim (Option-cases (es j)) [
          | inl n ↦ rw (n) refl
          | inr (f, n) ↦
              let apart : f.id ≢ id = λ x. other (sym x ∙ (sound.linked j f n).0) in
              rw (n, text_eq-ne f.id id apart) refl
        ])
      ]

      pub marked-found : (h : Bytes) → entry_at es' (ids' h) ≡ marked now id (entry_at es (ids h))
      marked-found h =
          rw (same_ids h) (entry_at-step (marked now id) (ids h) es es' refl (λ j at. marked_own j))

      pub marked-Sound : Sound ids' es'
      marked-Sound = record {
        named = λ h j at. sound.named h j (sym (same_ids h) ∙ at);
        linked = λ j f at. elim (same_or_other id j) [
          | inl same ↦
              let one : record e { revoked_at = now } ≡ f = cc (same, marked_entry, at) in
              let (own, back) = sound.linked id e here in
              let hash : e.token_hash ≡ f.token_hash = ap (λ (x : TokenEntry). x.token_hash) one in
              let name : e.id ≡ f.id = ap (λ (x : TokenEntry). x.id) one in
              (cc (name, own, same), cc (hash, back, same, same_ids f.token_hash))
          | inr other ↦
              let (own, back) = sound.linked j f (sym (others j other) ∙ at) in
              (own, same_ids f.token_hash ∙ back)
        ];
        owned = λ h j f at stored. elim (same_or_other id j) [
          | inl same ↦
              let one : record e { revoked_at = now } ≡ f = cc (same, marked_entry, stored) in
              let hash : e.token_hash ≡ f.token_hash = ap (λ (x : TokenEntry). x.token_hash) one in
              let before : ids h ≡ some id = sym (same_ids h) ∙ at ∙ ap some (sym same) in
              sym hash ∙ sound.owned h id e before here
          | inr other ↦ sound.owned h j f (sym (same_ids h) ∙ at) (sym (others j other) ∙ stored)
        ];
      }

    module _ (id : Bytes) (e : TokenEntry) (here : es id ≡ some e) (c : Changed id ids ids' es es')
        (gone : es' id ≡ none) (own_id : ids' e.token_hash ≡ none)
        (other_ids : (h : Bytes) → e.token_hash ≢ h → ids' h ≡ ids h) where
      -- Behind another hash there is another identifier.
      apart_id : (h j : Bytes) → e.token_hash ≢ h → ids h ≡ some j → id ≢ j
      apart_id h j other at same =
          other (sound.owned h j e at (subst (λ k. es k ≡ some e) same here))

      without_other : (j : Bytes) → id ≢ j → es j ≡ without id (es j)
      without_other j other = elim (Option-cases (es j)) [
        | inl n ↦ rw (n) refl
        | inr (f, n) ↦
            let apart : f.id ≢ id = λ x. other (sym x ∙ (sound.linked j f n).0) in
            rw (n, text_eq-ne f.id id apart) refl
      ]

      pub without-found : (h : Bytes) → entry_at es' (ids' h) ≡ without id (entry_at es (ids h))
      without-found h = elim (same_or_other e.token_hash h) [
        | inl same ↦
            let (own, back) = sound.linked id e here in
            subst (λ k. entry_at es' (ids' k) ≡ without id (entry_at es (ids k))) same
              (rw (own_id, back, here, own, text_eq_refl id) refl)
        | inr other ↦ rw (other_ids h other) (
            entry_at-step (without id) (ids h) es es' refl (λ j at.
              let apart = apart_id h j other at in
              c.kept j apart (sound.named h j at) ∙ without_other j apart))
      ]

      before_id : (h j : Bytes) → ids' h ≡ some j → (ids h ≡ some j) × (e.token_hash ≢ h)
      before_id h j at =
          let other : e.token_hash ≢ h = λ x. cc (x, own_id, at) in
          (sym (other_ids h other) ∙ at, other)

      pub without-Sound : Sound ids' es'
      without-Sound = record {
        named = λ h j at. sound.named h j (before_id h j at).0;
        linked = λ j f at.
            let apart : id ≢ j = λ x. cc (x, gone, at) in
            let (own, back) = sound.linked j f (was_there id j f ids ids' es es' c apart at) in
            let other : e.token_hash ≢ f.token_hash =
              λ x. apart (cc (x, back, (sound.linked id e here).1)) in
            (own, other_ids f.token_hash other ∙ back);
        owned = λ h j f at stored.
            let (before, other) = before_id h j at in
            let apart = apart_id h j other before in
            sound.owned h j f before (was_there id j f ids ids' es es' c apart stored);
      }
