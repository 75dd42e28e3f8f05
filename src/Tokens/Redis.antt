-- ===== src/Tokens/Redis.antt =====
-- internal/auth/redis-token-store.go. The client and the commands of the server are the interface
-- `RedisClient`; JSON is a parameter, and so is the time left until an expiry.
pub mod Laws
pub mod Revoke
pub mod Links
pub mod Texts
pub mod Promised
mod Tests
use gimme.Base.{
  ℕ, ℤ, pos, negsuc, Bytes, codes, text_eq, ltb, leb, ◌==◌, if◌then◌else◌, Bool, true, false, not,
  List, [], ◌∷◌, ◌++◌, Option, none, some, is_positive,
}
use gimme.Tokens.{Time, TokenEntry, TokenStore, is_zero}
use gimme.Tokens.Newest.{newest_first}

-- A time to live of 0 keeps a key for ever.
pub data Command : Type 0 where
  set : Bytes → Bytes → ℕ → Command
  s_add : Bytes → Bytes → Command
  del : Bytes → Command
  s_rem : Bytes → Bytes → Command

-- `none` is an error, for `get` also a key that is not there. `script` runs a Lua script, as a function
-- on the server's state, or fails.
pub record RedisClient (R : Type 0) : Type 1 where
  pub get : Bytes → R → Option Bytes
  pub run : Command → R → Option ℕ × R
  pub exec : List Command → R → Option (List ℕ) × R
  pub s_members : Bytes → R → Option (List Bytes)
  pub pttl : Bytes → R → ℤ
  pub call_set : Bytes → Bytes → Option ℕ → R → R
  pub script : (R → ℕ × R) → R → Option ℕ × R

-- `redisTokenEntry`, the form of an entry that is kept as JSON.
pub record RedisTokenEntry : Type 0 where
  pub id : Bytes
  pub name : Bytes
  pub token_hash : Bytes
  pub created_at : Time
  pub expires_at : Time
  pub revoked_at : Time

abbrev pub to_redis_entry : TokenEntry → RedisTokenEntry
to_redis_entry e = record {
  id = e.id;
  name = e.name;
  token_hash = e.token_hash;
  created_at = e.created_at;
  expires_at = e.expires_at;
  revoked_at = e.revoked_at;
}

abbrev pub from_redis_entry : RedisTokenEntry → TokenEntry
from_redis_entry r = record {
  id = r.id;
  name = r.name;
  token_hash = r.token_hash;
  created_at = r.created_at;
  expires_at = r.expires_at;
  revoked_at = r.revoked_at;
}

abbrev pub as_entry : Option RedisTokenEntry → Option TokenEntry
as_entry none = none
as_entry (some r) = some (from_redis_entry r)

pub record Json : Type 0 where
  pub marshal : RedisTokenEntry → Option Bytes
  pub unmarshal : Bytes → Option RedisTokenEntry

abbrev pub token_key_prefix : Bytes
token_key_prefix = codes "token:"

abbrev pub token_index_key : Bytes
token_index_key = codes "token:__index__"

abbrev pub token_hash_prefix : Bytes
token_hash_prefix = codes "token:hash:"

abbrev pub key : Bytes → Bytes
key id = token_key_prefix ++ id

abbrev pub hash_key : Bytes → Bytes
hash_key hash = token_hash_prefix ++ hash

-- The duration of a number that is positive.
abbrev pub count : ℤ → ℕ
count (pos n) = n
count (negsuc n) = 0

-- The answer -2 of PTTL.
abbrev pub is_missing : ℤ → Bool
is_missing (pos n) = false
is_missing (negsuc n) = n == 1

abbrev pub save_commands : TokenEntry → Bytes → ℕ → List Command
save_commands e text ttl =
    set (key e.id) text ttl ∷ set (hash_key e.token_hash) e.id ttl ∷ s_add token_index_key e.id ∷ []

module _ {R : Type 0} (client : RedisClient R) (json : Json) where
  abbrev pub decoded : Option Bytes → Option TokenEntry
  decoded none = none
  decoded (some text) = as_entry (json.unmarshal text)

  unfoldable pub get_by_id : Bytes → R → Option TokenEntry
  get_by_id id s = decoded (client.get (key id) s)

  abbrev pub saved : Option (List ℕ) × R → Bool × R
  saved (none, s) = (false, s)
  saved (some ns, s) = (true, s)

  abbrev pub save_for : TokenEntry → Option Bytes → ℤ → R → Bool × R
  save_for e none until s = (false, s)
  save_for e (some text) until s =
      if is_zero e.expires_at
      then saved (client.exec (save_commands e text 0) s)
      else if is_positive until
      then saved (client.exec (save_commands e text (count until)) s)
      else (false, s)

  -- `until` is time.Until of the entry's expiry.
  unfoldable pub redis_save : (Time → ℤ) → TokenEntry → R → Bool × R
  redis_save until e s = save_for e (json.marshal (to_redis_entry e)) (until e.expires_at) s

  abbrev pub of_id : Bytes → Option TokenEntry → R → Option TokenEntry × R
  of_id id none s = (none, (client.run (s_rem token_index_key id) s).1)
  of_id id (some e) s = (some e, s)

  abbrev pub of_hash : Option Bytes → R → Option TokenEntry × R
  of_hash none s = (none, s)
  of_hash (some id) s = of_id id (get_by_id id s) s

  unfoldable pub redis_get_by_hash : Bytes → R → Option TokenEntry × R
  unfolding get_by_id
  redis_get_by_hash hash s = of_hash (client.get (hash_key hash) s) s

  abbrev pub prepended : Option TokenEntry → List TokenEntry × R → List TokenEntry × R
  prepended none (es, s) = (es, s)
  prepended (some e) (es, s) = (e ∷ es, s)

  unfoldable pub collected : List Bytes → R → List TokenEntry × R
  unfolding get_by_id
  collected [] s = ([], s)
  collected (id ∷ ids) s =
      let (found, next) = of_id id (get_by_id id s) s in prepended found (collected ids next)

  abbrev pub listed : Option (List Bytes) → R → List TokenEntry × R
  listed none s = ([], s)
  listed (some ids) s = let (es, next) = collected ids s in (newest_first es, next)

  unfoldable pub redis_list : R → List TokenEntry × R
  unfolding collected newest_first
  redis_list s = listed (client.s_members token_index_key s) s

  abbrev pub revoked_with : Bytes → Bytes → ℤ → R → ℕ × R
  revoked_with k text ttl s =
      if is_missing ttl
      then (0, s)
      else if is_positive ttl
      then (1, client.call_set k text (some (count ttl)) s)
      else (1, client.call_set k text none s)

  -- The Lua script.
  unfoldable pub revoke_script : Bytes → Bytes → R → ℕ × R
  revoke_script k text s = revoked_with k text (client.pttl k s) s

  abbrev pub revoke_done : Option ℕ × R → Bool × R
  revoke_done (none, s) = (false, s)
  revoke_done (some n, s) = (not (n == 0), s)

  abbrev pub revoke_as : Bytes → Option Bytes → R → Bool × R
  revoke_as k none s = (false, s)
  revoke_as k (some text) s = revoke_done (client.script (revoke_script k text) s)

  abbrev pub revoke_found : Time → Bytes → Option TokenEntry → R → Bool × R
  revoke_found now id none s = (false, s)
  revoke_found now id (some e) s =
      revoke_as (key id) (json.marshal (to_redis_entry (record e { revoked_at = now }))) s

  unfoldable pub redis_revoke : Time → Bytes → R → Bool × R
  unfolding get_by_id revoke_script
  redis_revoke now id s = revoke_found now id (get_by_id id s) s

  -- The number of keys that the first command deleted.
  abbrev pub deleted : Option (List ℕ) × R → Bool × R
  deleted (none, s) = (false, s)
  deleted (some [], s) = (false, s)
  deleted (some (n ∷ ns), s) = (ltb 0 n, s)

  abbrev pub delete_found : Bytes → Option TokenEntry → R → Bool × R
  delete_found id none s = (false, s)
  delete_found id (some e) s =
      deleted
        (client.exec (del (key id) ∷ del (hash_key e.token_hash) ∷ s_rem token_index_key id ∷ []) s)

  unfoldable pub redis_delete : Bytes → R → Bool × R
  unfolding get_by_id
  redis_delete id s = delete_found id (get_by_id id s) s

  -- The store as the interface of token-store.go.
  abbrev pub redis_store : (Time → ℤ) → TokenStore R
  redis_store until = record {
    save = redis_save until;
    get_by_hash = λ hash s. (redis_get_by_hash hash s).0;
    looked_up = λ hash s. (redis_get_by_hash hash s).1;
    list = λ s. (redis_list s).0;
    listed = λ s. (redis_list s).1;
    revoke = redis_revoke;
    delete = redis_delete;
  }
