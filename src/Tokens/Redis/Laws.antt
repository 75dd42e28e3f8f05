-- ===== src/Tokens/Redis/Laws.antt =====
-- What is relied on of Redis and of JSON, and proofs about the store over them.
use gimme.Base.{
  ℕ, suc, ℤ, pos, negsuc, Bytes, codes, text_eq, text_eq_iff, text_eq_refl, if◌then◌else◌, Bool,
  true, false, List, [], ◌∷◌, ◌++◌, Option, none, some, ◌≡◌, ◌⊎◌, inl, inr, refl, sym, ap, ◌∙◌,
  subst, Bool-cases, is_positive,
}
use gimme.Strings.{has_prefix, has_prefix-append}
use gimme.Tokens.{Time, TokenEntry, is_zero}
use gimme.Tokens.Redis.{
  RedisTokenEntry, to_redis_entry, as_entry, Command, set, s_add, del, s_rem, RedisClient, Json,
  key, hash_key, count, save_commands, get_by_id, saved, save_for, redis_save, redis_get_by_hash,
}

-- What commands do to the text under a key.
abbrev pub effect : Bytes → List Command → Option Bytes → Option Bytes
effect k [] v = v
effect k (set l text ttl ∷ cs) v = effect k cs (if text_eq l k then some text else v)
effect k (del l ∷ cs) v = effect k cs (if text_eq l k then none else v)
effect k (s_add l m ∷ cs) v = effect k cs v
effect k (s_rem l m ∷ cs) v = effect k cs v

-- A server on which no key expires between two calls: a pipeline or a script that succeeds has done what
-- its commands say.
pub record RedisLaws {R : Type 0} (client : RedisClient R) : Type 0 where
  pub get-exec :
      (cs : List Command) (s : R) (ns : List ℕ) (k : Bytes)
      → (client.exec cs s).0 ≡ some ns
      → client.get k (client.exec cs s).1 ≡ effect k cs (client.get k s)
  pub get-s_rem :
      (k l member : Bytes) (s : R) → client.get k (client.run (s_rem l member) s).1 ≡ client.get k s
  pub ran :
      (f : R → ℕ × R) (s : R) (n : ℕ)
      → (client.script f s).0 ≡ some n
      → (n ≡ (f s).0) × ((client.script f s).1 ≡ (f s).1)
  pub get-call_set :
      (k l text : Bytes) (ttl : Option ℕ) (s : R)
      → client.get k (client.call_set l text ttl s)
        ≡ (if text_eq l k then some text else client.get k s)
  pub pttl_bound :
      (k text : Bytes) (ttl : ℕ) (s : R)
      → client.pttl k (client.call_set k text (some (suc ttl)) s) ≡ pos (suc ttl)
  pub pttl_free :
      (k text : Bytes) (s : R) → client.pttl k (client.call_set k text none s) ≡ negsuc 0
  pub pttl_range : (k : Bytes) (n : ℕ) (s : R) → client.pttl k s ≡ negsuc n → (n ≡ 0) ⊎ (n ≡ 1)

pub record JsonLaws (json : Json) : Type 0 where
  pub unmarshal-marshal :
      (r : RedisTokenEntry) (text : Bytes)
      → json.marshal r ≡ some text
      → json.unmarshal text ≡ some r

-- A hash's key is the key of no identifier but one that begins with `hash:`.
pub key_apart :
    (hash id : Bytes)
    → has_prefix id (codes "hash:") ≡ false
    → text_eq (hash_key hash) (key id) ≡ false
unfolding text_eq
key_apart hash id h = elim (Bool-cases (text_eq (codes "hash:" ++ hash) id)) [
  | inr q ↦ q
  | inl q ↦
      let same = (text_eq_iff (codes "hash:" ++ hash) id).0 q in
      absurd (
        cc (
          h,
          subst (λ x. has_prefix x (codes "hash:") ≡ true) same
              (has_prefix-append (codes "hash:") hash),
        ))
]

pub key_apart_sym :
    (hash id : Bytes)
    → has_prefix id (codes "hash:") ≡ false
    → text_eq (key id) (hash_key hash) ≡ false
key_apart_sym hash id h = elim (Bool-cases (text_eq (key id) (hash_key hash))) [
  | inr q ↦ q
  | inl q ↦
      let same = (text_eq_iff (key id) (hash_key hash)).0 q in
      absurd (cc (key_apart hash id h, (text_eq_iff (hash_key hash) (key id)).1 (sym same)))
]

module _ {R : Type 0} (client : RedisClient R) (json : Json) (laws : RedisLaws client)
    (codec : JsonLaws json) where
  -- What a hash leads to, read off the texts of the two keys.
  pub by_texts :
      (hash id text : Bytes) (e : TokenEntry) (s : R)
      → client.get (hash_key hash) s ≡ some id
      → client.get (key id) s ≡ some text
      → as_entry (json.unmarshal text) ≡ some e
      → (redis_get_by_hash client json hash s).0 ≡ some e
  unfolding redis_get_by_hash get_by_id
  by_texts hash id text e s h k d = rw (h, k, d) refl

  pub saved_inv :
      (o : Option (List ℕ) × R)
      → (saved client json o).0 ≡ true
      → ((ns : List ℕ) × (o.0 ≡ some ns)) × ((saved client json o).1 ≡ o.1)
  saved_inv (none, s) h = cc
  saved_inv (some ns, s) h = ((ns, refl), refl)

  get-saved :
      (e : TokenEntry) (text : Bytes) (ttl : ℕ) (s : R)
      → json.marshal (to_redis_entry e) ≡ some text
      → has_prefix e.id (codes "hash:") ≡ false
      → (saved client json (client.exec (save_commands e text ttl) s)).0 ≡ true
      → (redis_get_by_hash client json e.token_hash
          (saved client json (client.exec (save_commands e text ttl) s)).1).0
        ≡ some e
  get-saved e text ttl s m apart done =
      let ((ns, ran), state) = saved_inv (client.exec (save_commands e text ttl) s) done in
      subst (λ x. (redis_get_by_hash client json e.token_hash x).0 ≡ some e) (sym state)
        (by_texts e.token_hash e.id text e _
          (laws.get-exec (save_commands e text ttl) s ns (hash_key e.token_hash) ran
            ∙ rw (text_eq_refl (hash_key e.token_hash)) refl)
          (laws.get-exec (save_commands e text ttl) s ns (key e.id) ran
            ∙ rw (key_apart e.token_hash e.id apart, text_eq_refl (key e.id)) refl)
          (ap as_entry (codec.unmarshal-marshal (to_redis_entry e) text m)))

  -- `text` is found after either of two calls that succeed, and so after the one that is made.
  pub either :
      (P : R → Type 0) (b : Bool) (x y : Bool × R)
      → (x.0 ≡ true → P x.1)
      → (y.0 ≡ true → P y.1)
      → (if b then x else y).0 ≡ true
      → P (if b then x else y).1
  either P true x y f g h = f h
  either P false x y f g h = g h

  save_for-found :
      (e : TokenEntry) (o : Option Bytes) (until : ℤ) (s : R)
      → json.marshal (to_redis_entry e) ≡ o
      → has_prefix e.id (codes "hash:") ≡ false
      → (save_for client json e o until s).0 ≡ true
      → (redis_get_by_hash client json e.token_hash (save_for client json e o until s).1).0 ≡ some e
  save_for-found e none until s m apart h = cc
  save_for-found e (some text) until s m apart h =
      let found = λ (x : R). (redis_get_by_hash client json e.token_hash x).0 ≡ some e in
      either found (is_zero e.expires_at) _ _ (λ done. get-saved e text 0 s m apart done)
        (λ other.
          either found (is_positive until) _ (false, s)
            (λ done. get-saved e text (count until) s m apart done) (λ n. cc) other)
        h

  -- If Redis and JSON keep their laws: an entry that was saved is found under its hash, if its identifier
  -- does not begin with `hash:`.
  get_by_hash-redis_save :
      (until : Time → ℤ) (e : TokenEntry) (s : R)
      → has_prefix e.id (codes "hash:") ≡ false
      → (redis_save client json until e s).0 ≡ true
      → (redis_get_by_hash client json e.token_hash (redis_save client json until e s).1).0 ≡ some e
  unfolding redis_save
  get_by_hash-redis_save until e s apart done =
      save_for-found e (json.marshal (to_redis_entry e)) (until e.expires_at) s refl apart done
