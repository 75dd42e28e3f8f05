-- ===== src/Tokens/Redis/Revoke.antt =====
-- Proofs about the revocation and the deletion of the store over Redis.
use gimme.Base.{
  ℕ, zero, suc, ℤ, pos, negsuc, Bytes, codes, text_eq, text_eq_refl, ltb, ◌==◌, if◌then◌else◌, Bool,
  true, false, not, List, [], ◌∷◌, Option, none, some, ◌≡◌, ◌≢◌, inl, inr, refl, sym, ap, ◌∙◌,
  subst, arith,
}
use gimme.Strings.{has_prefix}
use gimme.Tokens.{Time, TokenEntry}
use gimme.Tokens.Redis.{
  to_redis_entry, as_entry, del, s_rem, RedisClient, Json, key, hash_key, token_index_key,
  get_by_id, redis_get_by_hash, revoked_with, revoke_script, revoke_done, revoke_as, revoke_found,
  redis_revoke, deleted, delete_found, redis_delete,
}
use gimme.Tokens.Redis.Laws.{RedisLaws, JsonLaws, key_apart_sym, by_texts}

module _ {R : Type 0} (client : RedisClient R) (json : Json) (laws : RedisLaws client)
    (codec : JsonLaws json) where
  revoke_done_inv :
      (o : Option ℕ × R)
      → (revoke_done client json o).0 ≡ true
      → ((n : ℕ) × (o.0 ≡ some n) × (not (n == 0) ≡ true)) × ((revoke_done client json o).1 ≡ o.1)
  revoke_done_inv (none, s) h = cc
  revoke_done_inv (some n, s) h = ((n, refl, h), refl)

  -- `x` is `s` with `text` under `k`, to live as long as what stood there, unless that was to expire
  -- within the millisecond.
  abbrev pub Rewritten : Bytes → Bytes → R → R → Type 0
  Rewritten k text s x =
      ((l : Bytes) → client.get l x ≡ (if text_eq k l then some text else client.get l s))
      × (client.pttl k s ≢ pos 0 → client.pttl k x ≡ client.pttl k s)

  revoked_with-Rewritten :
      (k text : Bytes) (z : ℤ) (s : R)
      → client.pttl k s ≡ z
      → not ((revoked_with client json k text z s).0 == 0) ≡ true
      → Rewritten k text s (revoked_with client json k text z s).1
  revoked_with-Rewritten k text (pos zero) s q n =
      (λ l. laws.get-call_set l k text none s, λ other. absurd (other q))
  revoked_with-Rewritten k text (pos (suc m)) s q n =
      let lives : ltb 0 (suc m) ≡ true = ground arith in
      rw (lives) (
        λ l. laws.get-call_set l k text (some (suc m)) s,
        λ other. laws.pttl_bound k text m s ∙ sym q,
      )
  revoked_with-Rewritten k text (negsuc m) s q n = elim (laws.pttl_range k m s q) [
    | inr one ↦
        let gone =
          subst (λ j. not ((revoked_with client json k text (negsuc j) s).0 == 0) ≡ true) one n in
        absurd (cc gone)
    | inl for_ever ↦
        subst (λ j. Rewritten k text s (revoked_with client json k text (negsuc j) s).1)
          (sym for_ever)
          (
            λ l. laws.get-call_set l k text none s,
            λ other. laws.pttl_free k text s ∙ sym (q ∙ ap negsuc for_ever),
          )
  ]

  pub revoke_script-Rewritten :
      (k text : Bytes) (s : R)
      → (revoke_done client json (client.script (revoke_script client json k text) s)).0 ≡ true
      → Rewritten k text s
          (revoke_done client json (client.script (revoke_script client json k text) s)).1
  unfolding revoke_script
  revoke_script-Rewritten k text s h =
      let ((n, ran, nonzero), state) =
        revoke_done_inv (client.script (revoke_script client json k text) s) h in
      let (same, moved) = laws.ran (revoke_script client json k text) s n ran in
      subst (Rewritten k text s) (sym (state ∙ moved)) (
        revoked_with-Rewritten k text (client.pttl k s) s refl
          (subst (λ m. not (m == 0) ≡ true) same nonzero))

  revoke_as-found :
      (now : Time) (hash id : Bytes) (e : TokenEntry) (o : Option Bytes) (s : R)
      → json.marshal (to_redis_entry (record e { revoked_at = now })) ≡ o
      → has_prefix id (codes "hash:") ≡ false
      → client.get (hash_key hash) s ≡ some id
      → (revoke_as client json (key id) o s).0 ≡ true
      → ((redis_get_by_hash client json hash (revoke_as client json (key id) o s).1).0
          ≡ some (record e { revoked_at = now }))
        × (client.pttl (key id) s ≢ pos 0
            → client.pttl (key id) (revoke_as client json (key id) o s).1 ≡ client.pttl (key id) s)
  revoke_as-found now hash id e none s m apart h done = cc
  revoke_as-found now hash id e (some text) s m apart h done =
      let (gets, lives) = revoke_script-Rewritten (key id) text s done in
      (
        by_texts client json laws codec hash id text _ _
            (gets (hash_key hash) ∙ rw (key_apart_sym hash id apart) h)
            (gets (key id) ∙ rw (text_eq_refl (key id)) refl)
            (ap as_entry (codec.unmarshal-marshal _ text m)),
        lives,
      )

  -- If Redis and JSON keep their laws: a hash that leads to the entry of an identifier, which does not
  -- begin with `hash:`, leads after a revocation of that identifier that succeeds to the same entry
  -- revoked at that time, and the entry's key keeps its time to live, unless less than a millisecond of it
  -- was left.
  pub get_by_hash-redis_revoke :
      (now : Time) (hash id : Bytes) (e : TokenEntry) (s : R)
      → has_prefix id (codes "hash:") ≡ false
      → client.get (hash_key hash) s ≡ some id
      → get_by_id client json id s ≡ some e
      → (redis_revoke client json now id s).0 ≡ true
      → ((redis_get_by_hash client json hash (redis_revoke client json now id s).1).0
          ≡ some (record e { revoked_at = now }))
        × (client.pttl (key id) s ≢ pos 0
            → client.pttl (key id) (redis_revoke client json now id s).1 ≡ client.pttl (key id) s)
  unfolding redis_revoke
  get_by_hash-redis_revoke now hash id e s apart h found =
      let P = λ (x : Bool × R).
        x.0 ≡ true
        → ((redis_get_by_hash client json hash x.1).0 ≡ some (record e { revoked_at = now }))
          × (client.pttl (key id) s ≢ pos 0 → client.pttl (key id) x.1 ≡ client.pttl (key id) s) in
      subst (λ o. P (revoke_found client json now id o s)) (sym found)
        (revoke_as-found now hash id e _ s refl apart h)

  pub deleted_inv :
      (o : Option (List ℕ) × R)
      → (deleted client json o).0 ≡ true
      → ((ns : List ℕ) × (o.0 ≡ some ns)) × ((deleted client json o).1 ≡ o.1)
  deleted_inv (none, s) h = cc
  deleted_inv (some [], s) h = cc
  deleted_inv (some (n ∷ ns), s) h = ((n ∷ ns, refl), refl)

  missing_hash :
      (hash : Bytes) (s : R)
      → client.get (hash_key hash) s ≡ none
      → (redis_get_by_hash client json hash s).0 ≡ none
  unfolding redis_get_by_hash
  missing_hash hash s h = rw (h) refl

  delete_found-hash :
      (hash id : Bytes) (e : TokenEntry) (s : R)
      → e.token_hash ≡ hash
      → (delete_found client json id (some e) s).0 ≡ true
      → (redis_get_by_hash client json hash (delete_found client json id (some e) s).1).0 ≡ none
  delete_found-hash hash id e s same h =
      let cs = del (key id) ∷ del (hash_key e.token_hash) ∷ s_rem token_index_key id ∷ [] in
      let ((ns, ran), state) = deleted_inv (client.exec cs s) h in
      missing_hash hash _ (
        ap (client.get (hash_key hash)) state
        ∙ laws.get-exec cs s ns (hash_key hash) ran
        ∙ rw (same, text_eq_refl (hash_key hash)) refl)

  -- If Redis and JSON keep their laws: after a deletion that answers that the identifier is known, the
  -- hash of its entry leads to no entry.
  get_by_hash-redis_delete :
      (id : Bytes) (e : TokenEntry) (s : R)
      → get_by_id client json id s ≡ some e
      → (redis_delete client json id s).0 ≡ true
      → (redis_get_by_hash client json e.token_hash (redis_delete client json id s).1).0 ≡ none
  unfolding redis_delete
  get_by_hash-redis_delete id e s found =
      let P =
        λ (x : Bool × R). x.0 ≡ true → (redis_get_by_hash client json e.token_hash x.1).0 ≡ none in
      subst (λ o. P (delete_found client json id o s)) (sym found)
        (delete_found-hash e.token_hash id e s refl)
