-- ===== src/Cache.antt =====
-- internal/cache/redis-cache.go. The client is the interface `CacheClient`, JSON a parameter; a key's
-- time to live is left to the server. The loop over SCAN runs on fuel.
pub mod Laws
pub mod Manager
pub mod Tests
use gimme.Base.{
  ℕ, zero, suc, Bytes, codes, ◌==◌, if◌then◌else◌, Bool, true, false, List, [], ◌∷◌, ◌++◌, Option,
  none, some,
}

-- `none` and `false` are errors, for `get` also a key that is not there. `scan` takes a cursor and a
-- pattern, and answers with keys and the next cursor.
pub record CacheClient (R : Type 0) : Type 0 where
  pub get : Bytes → R → Option Bytes
  pub set : Bytes → Bytes → R → Bool × R
  pub del : List Bytes → R → Option ℕ × R
  pub scan : ℕ → Bytes → R → Option (List Bytes × ℕ)

pub record EntryJson : Type 0 where
  pub marshal : Bytes → Option Bytes
  pub unmarshal : Bytes → Option Bytes

module _ {R : Type 0} (client : CacheClient R) (json : EntryJson) where
  abbrev entry_in : Option Bytes → Option Bytes
  entry_in none = none
  entry_in (some text) = json.unmarshal text

  unfoldable pub cache_get : Bytes → R → Option Bytes
  cache_get key s = entry_in (client.get key s)

  abbrev set_text : Bytes → Option Bytes → R → Bool × R
  set_text key none s = (false, s)
  set_text key (some text) s = client.set key text s

  unfoldable pub cache_set : Bytes → Bytes → R → Bool × R
  cache_set key path s = set_text key (json.marshal path) s

  abbrev pub del_done : Option ℕ × R → Bool × R
  del_done (none, s) = (false, s)
  del_done (some n, s) = (true, s)

  unfoldable pub cache_delete : Bytes → R → Bool × R
  cache_delete key s = del_done (client.del (key ∷ []) s)

  abbrev pub del_scanned : List Bytes → R → Bool × R
  del_scanned [] s = (true, s)
  del_scanned (k ∷ ks) s = del_done (client.del (k ∷ ks) s)

  abbrev pub next_round : (R → Option (Bool × R)) → ℕ → Bool × R → Option (Bool × R)
  next_round loop next (false, s) = some (false, s)
  next_round loop next (true, s) = if next == 0 then some (true, s) else loop s

  abbrev pub scanned_round :
      (ℕ → R → Option (Bool × R)) → R → Option (List Bytes × ℕ) → Option (Bool × R)
  scanned_round loop s none = some (false, s)
  scanned_round loop s (some (keys, next)) = next_round (loop next) next (del_scanned keys s)

  unfoldable pub scan_rounds : ℕ → Bytes → ℕ → R → Option (Bool × R)
  scan_rounds zero pattern cursor s = none
  scan_rounds (suc fuel) pattern cursor s =
      scanned_round (λ next t. scan_rounds fuel pattern next t) s (client.scan cursor pattern s)

  unfoldable pub delete_by_prefix : ℕ → Bytes → R → Option (Bool × R)
  unfolding scan_rounds
  delete_by_prefix fuel prefix s = scan_rounds fuel (prefix ++ codes "*") 0 s
