-- ===== src/Tokens/Redis/Texts.antt =====
-- Proofs about what the operations of the store over Redis leave under its keys.
use gimme.Base.{
  ℕ, ℤ, Bytes, codes, text_eq, text_eq_refl, if◌then◌else◌, true, false, [], ◌∷◌, Option, none,
  some, ◌≡◌, ◌≢◌, refl, sym, ap, ◌∙◌, subst, Bool-cases, inl, inr, is_positive,
}
use gimme.Strings.{has_prefix}
use gimme.Dict.{text_eq-ne}
use gimme.Tokens.{Time, TokenEntry, is_zero}
use gimme.Tokens.Redis.{
  to_redis_entry, as_entry, del, s_rem, RedisClient, Json, key, hash_key, token_index_key, count,
  save_commands, decoded, get_by_id, saved, save_for, redis_save, of_hash, of_id, redis_get_by_hash,
  revoke_as, delete_found,
}
use gimme.Tokens.Redis.Laws.{RedisLaws, JsonLaws, key_apart, key_apart_sym, saved_inv, either}
use gimme.Tokens.Redis.Revoke.{revoke_script-Rewritten, deleted_inv}
use gimme.Tokens.Redis.Links.{Changed, entry_at}

pub key_other : (id j : Bytes) → id ≢ j → text_eq (key id) (key j) ≡ false
unfolding text_eq
key_other id j n = text_eq-ne id j n

pub hash_other : (h k : Bytes) → h ≢ k → text_eq (hash_key h) (hash_key k) ≡ false
unfolding text_eq
hash_other h k n = text_eq-ne h k n

module _ {R : Type 0} (client : RedisClient R) (json : Json) where
  abbrev pub ids_in : R → Bytes → Option Bytes
  ids_in s hash = client.get (hash_key hash) s

  abbrev pub entries_in : R → Bytes → Option TokenEntry
  entries_in s id = decoded client json (client.get (key id) s)

  -- An identifier that does not look like the end of a hash's key, nor like an entry.
  abbrev pub Plain : Bytes → Type 0
  Plain id = (has_prefix id (codes "hash:") ≡ false) × (as_entry (json.unmarshal id) ≡ none)

  of_id-found : (id : Bytes) (o : Option TokenEntry) (s : R) → (of_id client json id o s).0 ≡ o
  of_id-found id none s = refl
  of_id-found id (some e) s = refl

  of_hash-found :
      (o : Option Bytes) (s : R) → (of_hash client json o s).0 ≡ entry_at (entries_in s) o
  unfolding get_by_id
  of_hash-found none s = refl
  of_hash-found (some id) s = of_id-found id (get_by_id client json id s) s

  pub redis_get_by_hash-found :
      (hash : Bytes) (s : R)
      → (redis_get_by_hash client json hash s).0 ≡ entry_at (entries_in s) (ids_in s hash)
  unfolding redis_get_by_hash
  redis_get_by_hash-found hash s = of_hash-found (client.get (hash_key hash) s) s

  module _ (laws : RedisLaws client) (codec : JsonLaws json) where
    -- What a save leaves under a key.
    abbrev pub Saved : TokenEntry → R → R → Type 0
    Saved e s x =
        (text : Bytes) × (as_entry (json.unmarshal text) ≡ some e)
        × ((k : Bytes)
            → client.get k x ≡ (
                if text_eq (hash_key e.token_hash) k
                then some e.id
                else if text_eq (key e.id) k
                then some text
                else client.get k s))

    exec-Saved :
        (e : TokenEntry) (text : Bytes) (ttl : ℕ) (s : R)
        → json.marshal (to_redis_entry e) ≡ some text
        → (saved client json (client.exec (save_commands e text ttl) s)).0 ≡ true
        → Saved e s (saved client json (client.exec (save_commands e text ttl) s)).1
    exec-Saved e text ttl s m done =
        let ((ns, ran), state) =
          saved_inv client json laws codec (client.exec (save_commands e text ttl) s) done in
        subst (Saved e s) (sym state) (
          text,
          ap as_entry (codec.unmarshal-marshal (to_redis_entry e) text m),
          λ k. laws.get-exec (save_commands e text ttl) s ns k ran,
        )

    save_for-Saved :
        (e : TokenEntry) (o : Option Bytes) (until : ℤ) (s : R)
        → json.marshal (to_redis_entry e) ≡ o
        → (save_for client json e o until s).0 ≡ true
        → Saved e s (save_for client json e o until s).1
    save_for-Saved e none until s m h = cc
    save_for-Saved e (some text) until s m h =
        either client json laws codec (Saved e s) (is_zero e.expires_at) _ _
          (λ done. exec-Saved e text 0 s m done)
          (λ other.
            either client json laws codec (Saved e s) (is_positive until) _ (false, s)
              (λ done. exec-Saved e text (count until) s m done) (λ n. cc) other)
          h

    pub redis_save-Saved :
        (until : Time → ℤ) (e : TokenEntry) (s : R)
        → (redis_save client json until e s).0 ≡ true
        → Saved e s (redis_save client json until e s).1
    unfolding redis_save
    redis_save-Saved until e s done =
        save_for-Saved e (json.marshal (to_redis_entry e)) (until e.expires_at) s refl done

    module _ (e : TokenEntry) (s x : R) (after : Saved e s x) (plain : Plain e.id) where
      pub Saved-own_id : ids_in x e.token_hash ≡ some e.id
      Saved-own_id =
          let (text, read, gets) = after in
          gets (hash_key e.token_hash) ∙ rw (text_eq_refl (hash_key e.token_hash)) refl

      pub Saved-other_ids : (h : Bytes) → e.token_hash ≢ h → ids_in x h ≡ ids_in s h
      Saved-other_ids h n =
          let (text, read, gets) = after in
          gets (hash_key h) ∙ rw (hash_other e.token_hash h n, key_apart_sym h e.id plain.0) refl

      pub Saved-own_entry : entries_in x e.id ≡ some e
      Saved-own_entry =
          let (text, read, gets) = after in
          let own : client.get (key e.id) x ≡ some text =
            gets (key e.id)
            ∙ rw (key_apart e.token_hash e.id plain.0, text_eq_refl (key e.id)) refl in
          ap (decoded client json) own ∙ read

      pub Saved-Changed : Changed Plain e.id (ids_in s) (ids_in x) (entries_in s) (entries_in x)
      Saved-Changed =
          let (text, read, gets) = after in
          record {
            kept = λ j n p.
                let same : client.get (key j) x ≡ client.get (key j) s =
                  gets (key j) ∙ rw (key_apart e.token_hash j p.0, key_other e.id j n) refl in
                ap (decoded client json) same;
            lost = λ j n. elim (Bool-cases (text_eq (hash_key e.token_hash) (key j))) [
              | inl q ↦
                  let id : client.get (key j) x ≡ some e.id = gets (key j) ∙ rw (q) refl in
                  inl (ap (decoded client json) id ∙ plain.1)
              | inr q ↦
                  let same : client.get (key j) x ≡ client.get (key j) s =
                    gets (key j) ∙ rw (q, key_other e.id j n) refl in
                  inr (ap (decoded client json) same)
            ];
          }

    -- What a revocation leaves under a key.
    abbrev pub Overwritten : Bytes → TokenEntry → R → R → Type 0
    Overwritten id e s x =
        (text : Bytes) × (as_entry (json.unmarshal text) ≡ some e)
        × ((k : Bytes)
            → client.get k x ≡ (if text_eq (key id) k then some text else client.get k s))

    pub revoke_as-Overwritten :
        (id : Bytes) (e : TokenEntry) (o : Option Bytes) (s : R)
        → json.marshal (to_redis_entry e) ≡ o
        → (revoke_as client json (key id) o s).0 ≡ true
        → Overwritten id e s (revoke_as client json (key id) o s).1
    revoke_as-Overwritten id e none s m h = cc
    revoke_as-Overwritten id e (some text) s m h = (
      text,
      ap as_entry (codec.unmarshal-marshal (to_redis_entry e) text m),
      (revoke_script-Rewritten client json laws codec (key id) text s h).0,
    )

    -- What a deletion leaves under a key.
    abbrev pub Deleted : Bytes → TokenEntry → R → R → Type 0
    Deleted id e s x =
        (k : Bytes)
        → client.get k x ≡ (
            if text_eq (hash_key e.token_hash) k
            then none
            else if text_eq (key id) k
            then none
            else client.get k s)

    pub delete_found-Deleted :
        (id : Bytes) (e : TokenEntry) (s : R)
        → (delete_found client json id (some e) s).0 ≡ true
        → Deleted id e s (delete_found client json id (some e) s).1
    delete_found-Deleted id e s h =
        let cs = del (key id) ∷ del (hash_key e.token_hash) ∷ s_rem token_index_key id ∷ [] in
        let ((ns, ran), state) = deleted_inv client json laws codec (client.exec cs s) h in
        subst (Deleted id e s) (sym state) (λ k. laws.get-exec cs s ns k ran)

    module _ (id : Bytes) (e : TokenEntry) (s x : R) (after : Deleted id e s x)
        (plain : Plain id) where
      pub Deleted-own_id : ids_in x e.token_hash ≡ none
      Deleted-own_id =
          after (hash_key e.token_hash) ∙ rw (text_eq_refl (hash_key e.token_hash)) refl

      pub Deleted-other_ids : (h : Bytes) → e.token_hash ≢ h → ids_in x h ≡ ids_in s h
      Deleted-other_ids h n =
          after (hash_key h) ∙ rw (hash_other e.token_hash h n, key_apart_sym h id plain.0) refl

      pub Deleted-own_entry : entries_in x id ≡ none
      Deleted-own_entry =
          let own : client.get (key id) x ≡ none =
            after (key id) ∙ rw (key_apart e.token_hash id plain.0, text_eq_refl (key id)) refl in
          ap (decoded client json) own

      pub Deleted-Changed : Changed Plain id (ids_in s) (ids_in x) (entries_in s) (entries_in x)
      Deleted-Changed = record {
        kept = λ j n p.
            let same : client.get (key j) x ≡ client.get (key j) s =
              after (key j) ∙ rw (key_apart e.token_hash j p.0, key_other id j n) refl in
            ap (decoded client json) same;
        lost = λ j n. elim (Bool-cases (text_eq (hash_key e.token_hash) (key j))) [
          | inl q ↦
              let none_left : client.get (key j) x ≡ none = after (key j) ∙ rw (q) refl in
              inl (ap (decoded client json) none_left)
          | inr q ↦
              let same : client.get (key j) x ≡ client.get (key j) s =
                after (key j) ∙ rw (q, key_other id j n) refl in
              inr (ap (decoded client json) same)
        ];
      }
