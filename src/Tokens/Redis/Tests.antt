-- ===== src/Tokens/Redis/Tests.antt =====
-- A server that keeps texts and times to live in lists, and the store's theorems over it.
use gimme.Base.{
  ℕ, zero, suc, ℤ, pos, negsuc, Bytes, codes, text_eq, text_eq_refl, if◌then◌else◌, true, false,
  List, [], ◌∷◌, Option, none, some, ◌≡◌, ◌≢◌, ◌⊎◌, inl, inr, refl, ap, ◌∙◌, Bool-cases,
}
use gimme.Strings.{has_prefix}
use gimme.Tokens.{Time, TokenEntry}
use gimme.Tokens.Redis.{
  RedisTokenEntry, to_redis_entry, from_redis_entry, Command, set, s_add, del, s_rem, RedisClient,
  Json, key, hash_key, get_by_id, redis_save, redis_get_by_hash, redis_revoke, revoke_script,
  redis_store,
}
use gimme.Tokens.Redis.Laws.{effect, RedisLaws, JsonLaws}
use gimme.Tokens.Redis.Promised.{RedisValid, Unknown, redis_store-Contract}
use gimme.Tokens.Contract.{Contract, marked}
use gimme.Tokens.Redis.Revoke.{get_by_hash-redis_revoke}
use gimme.Tokens.Files.{split_at}
use gimme.Tokens.Tests.{print, parse, parse-print, first_entry}

-- What each key holds, and how long it lives: 0 for ever.
abbrev Server : Type 0
Server = Bytes → Option (Bytes × ℕ)

abbrev text_in : Option (Bytes × ℕ) → Option Bytes
text_in none = none
text_in (some (text, ttl)) = some text

abbrev life_in : Option (Bytes × ℕ) → ℤ
life_in none = negsuc 1
life_in (some (text, zero)) = negsuc 0
life_in (some (text, suc n)) = pos (suc n)

abbrev with_key : Bytes → Option (Bytes × ℕ) → Server → Server
with_key k v s = λ l. if text_eq k l then v else s l

abbrev performed : List Command → Server → Server
performed [] s = s
performed (set k text ttl ∷ cs) s = performed cs (with_key k (some (text, ttl)) s)
performed (del k ∷ cs) s = performed cs (with_key k none s)
performed (s_add k m ∷ cs) s = performed cs s
performed (s_rem k m ∷ cs) s = performed cs s

abbrev ttl_or_zero : Option ℕ → ℕ
ttl_or_zero none = 0
ttl_or_zero (some n) = n

abbrev redis : RedisClient Server
redis = record {
  get = λ k s. text_in (s k);
  run = λ c s. (some 1, performed (c ∷ []) s);
  exec = λ cs s. (some (1 ∷ []), performed cs s);
  s_members = λ k s. some [];
  pttl = λ k s. life_in (s k);
  call_set = λ k text ttl s. with_key k (some (text, ttl_or_zero ttl)) s;
  script = λ f s. (some (f s).0, (f s).1);
}

text_in-with_key :
    (k l : Bytes) (v : Option (Bytes × ℕ)) (s : Server)
    → text_in (with_key k v s l) ≡ (if text_eq k l then text_in v else text_in (s l))
text_in-with_key k l v s = elim (Bool-cases (text_eq k l)) [
  | inl q ↦ rw (q) refl
  | inr q ↦ rw (q) refl
]

text_in-performed :
    (cs : List Command) (s : Server) (k : Bytes)
    → text_in (performed cs s k) ≡ effect k cs (text_in (s k))
text_in-performed [] s k = refl
text_in-performed (set l text ttl ∷ cs) s k =
    text_in-performed cs (with_key l (some (text, ttl)) s) k
    ∙ ap (effect k cs) (text_in-with_key l k (some (text, ttl)) s)
text_in-performed (del l ∷ cs) s k =
    text_in-performed cs (with_key l none s) k ∙ ap (effect k cs) (text_in-with_key l k none s)
text_in-performed (s_add l m ∷ cs) s k = text_in-performed cs s k
text_in-performed (s_rem l m ∷ cs) s k = text_in-performed cs s k

life_in-range : (o : Option (Bytes × ℕ)) (n : ℕ) → life_in o ≡ negsuc n → (n ≡ 0) ⊎ (n ≡ 1)
life_in-range none n h = inr cc
life_in-range (some (text, zero)) n h = inl cc
life_in-range (some (text, suc m)) n h = cc

same_answer : {m n : ℕ} → some m ≡ some n → n ≡ m
same_answer h = cc

redis-RedisLaws : RedisLaws redis
redis-RedisLaws = record {
  get-exec = λ cs s ns k done. text_in-performed cs s k;
  get-s_rem = λ k l member s. refl;
  ran = λ f s n done. (same_answer done, refl);
  get-call_set = λ k l text ttl s. text_in-with_key l k (some (text, ttl_or_zero ttl)) s;
  pttl_bound = λ k text ttl s. rw (text_eq_refl k) refl;
  pttl_free = λ k text s. rw (text_eq_refl k) refl;
  pttl_range = λ k n s h. life_in-range (s k) n h;
}

abbrev first_of : Option (List TokenEntry) → Option RedisTokenEntry
first_of none = none
first_of (some []) = none
first_of (some (e ∷ es)) = some (to_redis_entry e)

abbrev json : Json
json = record {
  marshal = λ r. print (from_redis_entry r ∷ []);
  unmarshal = λ t. first_of (parse t);
}

json-JsonLaws : JsonLaws json
json-JsonLaws = record {
  unmarshal-marshal = λ r t h. ap first_of (parse-print (from_redis_entry r ∷ []) t h);
}

abbrev empty_server : Server
empty_server k = none

abbrev until : Time → ℤ
until t = pos t

abbrev stored : Server
stored = (redis_save redis json until first_entry empty_server).1

no_clash : has_prefix (codes "1") (codes "hash:") ≡ false
unfolding has_prefix
no_clash = refl

run_save : (redis_save redis json until first_entry empty_server).0 ≡ true
unfolding redis_save
run_save = refl

hash_stored : redis.get (hash_key (codes "h1")) stored ≡ some (codes "1")
unfolding redis_save text_eq
hash_stored = refl

entry_stored : get_by_id redis json (codes "1") stored ≡ some first_entry
unfolding redis_save text_eq get_by_id split_at
entry_stored = refl

run_revoke : (redis_revoke redis json 20 (codes "1") stored).0 ≡ true
unfolding redis_revoke redis_save text_eq get_by_id revoke_script
run_revoke = refl

get_by_hash-redis_revoke_example :
    ((redis_get_by_hash redis json (codes "h1") (redis_revoke redis json 20 (codes "1") stored).1).0
      ≡ some (record first_entry { revoked_at = 20 }))
    × (redis.pttl (key (codes "1")) stored ≢ pos 0
        → redis.pttl (key (codes "1")) (redis_revoke redis json 20 (codes "1") stored).1
          ≡ redis.pttl (key (codes "1")) stored)
get_by_hash-redis_revoke_example =
    get_by_hash-redis_revoke redis json redis-RedisLaws json-JsonLaws 20 (codes "h1") (codes "1")
      first_entry stored no_clash hash_stored entry_stored run_revoke

redis_store-Contract_example :
    Contract (λ t. t) (redis_store redis json until) (RedisValid redis json) (Unknown redis json)
redis_store-Contract_example = redis_store-Contract redis json redis-RedisLaws json-JsonLaws until

empty_server-RedisValid : RedisValid redis json empty_server
empty_server-RedisValid = record {
  named = λ h id at. cc;
  linked = λ id e at. cc;
  owned = λ h id e at stored. cc;
}

first_entry-Unknown : Unknown redis json first_entry empty_server
unfolding has_prefix
first_entry-Unknown = record { plain = (refl, refl); hash = refl; unused = λ h at. cc }

-- What the contract says of a server with one entry: revoked, it is found under its hash as revoked.
revoked_on_server :
    (redis_get_by_hash redis json (codes "h1") (redis_revoke redis json 20 (codes "1") stored).1).0
    ≡ some (record first_entry { revoked_at = 20 })
unfolding text_eq
revoked_on_server =
    let contract = redis_store-Contract redis json redis-RedisLaws json-JsonLaws until in
    let (valid, found) =
      contract.get-save first_entry empty_server empty_server-RedisValid first_entry-Unknown
        run_save in
    (contract.get-revoke 20 (codes "1") stored valid run_revoke).1 (codes "h1")
    ∙ ap (marked 20 (codes "1")) (found (codes "h1"))
