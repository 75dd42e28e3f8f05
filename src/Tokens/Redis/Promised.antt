-- ===== src/Tokens/Redis/Promised.antt =====
-- Proofs about the store over Redis as a token store.
use gimme.Base.{
  List, [], ◌∷◌, ℤ, Bytes, text_eq, text_eq_refl, if◌then◌else◌, true, Option, none, some, ◌≡◌, ◌≢◌,
  refl, sym, ap, ◌∙◌,
}
use gimme.Tokens.{Time, TokenEntry}
use gimme.Tokens.Contract.{Contract, marked, without}
use gimme.Tokens.Redis.{
  token_index_key, of_id, of_hash, prepended, collected, listed, redis_list, RedisClient, Json, key,
  decoded, get_by_id, redis_save, redis_get_by_hash, revoke_found, redis_revoke, delete_found,
  redis_delete, redis_store,
}
use gimme.Tokens.Redis.Laws.{RedisLaws, JsonLaws, key_apart_sym}
use gimme.Tokens.Redis.Links.{
  entry_at, entry_at-same, Sound, added-found, added-Sound, marked-found, marked-Sound,
  without-found, without-Sound,
}
use gimme.Tokens.Redis.Texts.{
  ids_in, entries_in, Plain, redis_get_by_hash-found, redis_save-Saved, Saved-own_id,
  Saved-other_ids, Saved-own_entry, Saved-Changed, revoke_as-Overwritten, key_other,
  delete_found-Deleted, Deleted-own_id, Deleted-other_ids, Deleted-own_entry, Deleted-Changed,
}

module _ {R : Type 0} (client : RedisClient R) (json : Json) where
  -- The two kinds of keys agree.
  abbrev pub RedisValid : R → Type 0
  RedisValid s = Sound (Plain client json) (ids_in client json s) (entries_in client json s)

  -- The identifier is plain and no hash leads to it; the hash is not known.
  pub record Unknown (e : TokenEntry) (s : R) : Type 0 where
    pub plain : Plain client json e.id
    pub hash : ids_in client json s e.token_hash ≡ none
    pub unused : (h : Bytes) → ids_in client json s h ≢ some e.id

  module _ (laws : RedisLaws client) (codec : JsonLaws json) where
    save-promised :
        (until : Time → ℤ) (e : TokenEntry) (s : R)
        → RedisValid s
        → Unknown e s
        → (redis_save client json until e s).0 ≡ true
        → RedisValid (redis_save client json until e s).1
          × ((h : Bytes)
              → (redis_get_by_hash client json h (redis_save client json until e s).1).0 ≡ (
                  if text_eq e.token_hash h then some e else (redis_get_by_hash client json h s).0))
    save-promised until e s v new done =
        let x = (redis_save client json until e s).1 in
        let after = redis_save-Saved client json laws codec until e s done in
        let own_id = Saved-own_id client json laws codec e s x after new.plain in
        let other_ids = Saved-other_ids client json laws codec e s x after new.plain in
        let own_entry = Saved-own_entry client json laws codec e s x after new.plain in
        let changed = Saved-Changed client json laws codec e s x after new.plain in
        let found =
          added-found (Plain client json) _ _ _ _ v e changed new.plain new.hash new.unused own_id
            other_ids own_entry in
        (
          added-Sound (Plain client json) _ _ _ _ v e changed new.plain new.hash new.unused own_id
              other_ids own_entry,
          λ h.
              redis_get_by_hash-found client json h x
              ∙ found h
              ∙ sym (
                  ap (λ o. if text_eq e.token_hash h then some e else o)
                    (redis_get_by_hash-found client json h s)),
        )

    -- The identifier of an entry that is found is plain.
    found_plain :
        (id : Bytes) (e : TokenEntry) (s : R)
        → RedisValid s
        → entries_in client json s id ≡ some e
        → Plain client json id
    found_plain id e s v h = v.named e.token_hash id (v.linked id e h).1

    abbrev Revoked : Time → Bytes → R → R → Type 0
    Revoked now id s x =
        RedisValid x
        × ((h : Bytes)
            → (redis_get_by_hash client json h x).0
              ≡ marked now id (redis_get_by_hash client json h s).0)

    revoke-promised :
        (now : Time) (id : Bytes) (s : R) (o : Option TokenEntry)
        → entries_in client json s id ≡ o
        → RedisValid s
        → (revoke_found client json now id o s).0 ≡ true
        → Revoked now id s (revoke_found client json now id o s).1
    revoke-promised now id s none k v done = cc
    revoke-promised now id s (some e) k v done =
        let x = (revoke_found client json now id (some e) s).1 in
        let (text, read, gets) =
          revoke_as-Overwritten client json laws codec id (record e { revoked_at = now }) _ s refl
            done in
        let plain = found_plain id e s v k in
        let same_ids : (h : Bytes) → ids_in client json x h ≡ ids_in client json s h =
          λ h. gets _ ∙ rw (key_apart_sym h id plain.0) refl in
        let others : (j : Bytes)
            → id ≢ j
            → entries_in client json x j ≡ entries_in client json s j =
          λ j n.
            let same : client.get (key j) x ≡ client.get (key j) s =
              gets (key j) ∙ rw (key_other id j n) refl in
            ap (decoded client json) same in
        let own : client.get (key id) x ≡ some text =
          gets (key id) ∙ rw (text_eq_refl (key id)) refl in
        let own_entry = ap (decoded client json) own ∙ read in
        (
          marked-Sound (Plain client json) _ _ _ _ v now id e k same_ids own_entry others,
          λ h.
              redis_get_by_hash-found client json h x
              ∙ marked-found (Plain client json) _ _ _ _ v now id e k same_ids own_entry others h
              ∙ sym (ap (marked now id) (redis_get_by_hash-found client json h s)),
        )

    delete-promised :
        (id : Bytes) (s : R) (o : Option TokenEntry)
        → entries_in client json s id ≡ o
        → RedisValid s
        → (delete_found client json id o s).0 ≡ true
        → RedisValid (delete_found client json id o s).1
          × ((h : Bytes)
              → (redis_get_by_hash client json h (delete_found client json id o s).1).0
                ≡ without id (redis_get_by_hash client json h s).0)
    delete-promised id s none k v done = cc
    delete-promised id s (some e) k v done =
        let x = (delete_found client json id (some e) s).1 in
        let after = delete_found-Deleted client json laws codec id e s done in
        let plain = found_plain id e s v k in
        let own_id = Deleted-own_id client json laws codec id e s x after plain in
        let other_ids = Deleted-other_ids client json laws codec id e s x after plain in
        let own_entry = Deleted-own_entry client json laws codec id e s x after plain in
        let changed = Deleted-Changed client json laws codec id e s x after plain in
        (
          without-Sound (Plain client json) _ _ _ _ v id e k changed own_entry own_id other_ids,
          λ h.
              redis_get_by_hash-found client json h x
              ∙ without-found (Plain client json) _ _ _ _ v id e k changed own_entry own_id
                  other_ids h
              ∙ sym (ap (without id) (redis_get_by_hash-found client json h s)),
        )

    -- A state with the same texts under its keys is as valid, and answers as the other does.
    Untouched : R → R → Type 0
    Untouched s x = (k : Bytes) → client.get k x ≡ client.get k s

    of_id-Untouched :
        (id : Bytes) (o : Option TokenEntry) (s : R) → Untouched s (of_id client json id o s).1
    unfolding Untouched
    of_id-Untouched id none s = λ k. laws.get-s_rem k token_index_key id s
    of_id-Untouched id (some e) s = λ k. refl

    of_hash-Untouched : (o : Option Bytes) (s : R) → Untouched s (of_hash client json o s).1
    unfolding Untouched get_by_id
    of_hash-Untouched none s = λ k. refl
    of_hash-Untouched (some id) s = of_id-Untouched id (get_by_id client json id s) s

    prepended_state :
        (o : Option TokenEntry) (x : List TokenEntry × R) → (prepended client json o x).1 ≡ x.1
    prepended_state none (es, s) = refl
    prepended_state (some e) (es, s) = refl

    collected-Untouched : (ids : List Bytes) (s : R) → Untouched s (collected client json ids s).1
    unfolding Untouched collected
    collected-Untouched [] s = λ k. refl
    collected-Untouched (id ∷ ids) s =
        let (o, next) = of_id client json id (get_by_id client json id s) s in
        λ k.
          ap (client.get k) (prepended_state o (collected client json ids next))
          ∙ collected-Untouched ids next k
          ∙ of_id-Untouched id (get_by_id client json id s) s k

    listed-Untouched : (o : Option (List Bytes)) (s : R) → Untouched s (listed client json o s).1
    unfolding Untouched
    listed-Untouched none s = λ k. refl
    listed-Untouched (some ids) s = collected-Untouched ids s

    Untouched-promised :
        (s x : R)
        → Untouched s x
        → RedisValid s
        → RedisValid x
          × ((h : Bytes)
              → (redis_get_by_hash client json h x).0 ≡ (redis_get_by_hash client json h s).0)
    unfolding Untouched
    Untouched-promised s x same v =
        let ids : (h : Bytes) → ids_in client json x h ≡ ids_in client json s h = λ h. same _ in
        let entries : (j : Bytes) → entries_in client json x j ≡ entries_in client json s j =
          λ j. ap (decoded client json) (same (key j)) in
        (
          record {
            named = λ h id at. v.named h id (sym (ids h) ∙ at);
            linked = λ id e at.
                let (own, back) = v.linked id e (sym (entries id) ∙ at) in
                (own, ids e.token_hash ∙ back);
            owned =
                λ h id e at stored. v.owned h id e (sym (ids h) ∙ at) (sym (entries id) ∙ stored);
          },
          λ h.
              redis_get_by_hash-found client json h x
              ∙ ap (entry_at (entries_in client json x)) (ids h)
              ∙ entry_at-same (ids_in client json s h) (entries_in client json s)
                  (entries_in client json x) entries
              ∙ sym (redis_get_by_hash-found client json h s),
        )

    -- If Redis and JSON keep their laws, the store over Redis keeps the contract of a token store, for a
    -- server whose hash keys lead to plain identifiers and agree with the entries, and for new entries
    -- whose identifier is plain and in no use and whose hash is not known.
    pub redis_store-Contract :
        (until : Time → ℤ) → Contract (λ t. t) (redis_store client json until) RedisValid Unknown
    unfolding redis_revoke redis_delete get_by_id redis_list redis_get_by_hash
    redis_store-Contract until = record {
      get-save = λ e s v new done. save-promised until e s v new done;
      get-revoke = λ now id s v done. revoke-promised now id s _ refl v done;
      get-delete = λ id s v done. delete-promised id s _ refl v done;
      get-looked_up = λ hash s v. Untouched-promised s _ (of_hash-Untouched _ s) v;
      get-listed = λ s v. Untouched-promised s _ (listed-Untouched _ s) v;
    }
