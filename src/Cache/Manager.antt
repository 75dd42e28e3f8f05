-- ===== src/Cache/Manager.antt =====
-- internal/cache/redis-cache.go as a `CacheManager`, and proofs that it is a cache of internal/cache/cache.go.
use gimme.Base.{
  ℕ, ◌<◌, Bytes, Bool, true, false, Option, none, some, ◌≡◌, ◌⊎◌, inl, inr, refl, ◌∙◌, subst,
  Option-cases,
}
use gimme.Strings.{has_prefix}
use gimme.Cache.{CacheClient, EntryJson, cache_get, cache_set, delete_by_prefix}
use gimme.Cache.Laws.{ScanLaws, Cleared, delete_by_prefix-Cleared}
use gimme.Content.Serve.{CacheManager}
use gimme.Content.Cached.{CacheLaws}

-- What is relied on of SET and of JSON: a SET stores the text or, when it fails, may leave the key as it
-- was; an entry whose path is text reads back.
pub record EntryLaws {R : Type 0} (is_text : Bytes → Bool) (client : CacheClient R)
    (json : EntryJson) : Type 0 where
  pub get-set :
      (key text : Bytes) (s : R)
      → (client.get key (client.set key text s).1 ≡ some text)
        ⊎ (client.get key (client.set key text s).1 ≡ client.get key s)
  pub unmarshal-marshal :
      (path text : Bytes)
      → is_text path ≡ true
      → json.marshal path ≡ some text
      → json.unmarshal text ≡ some path

module _ {R : Type 0} (client : CacheClient R) (json : EntryJson) (fuel : R → ℕ) where
  abbrev answered : R → Option (Bool × R) → Bool × R
  answered s none = (false, s)
  answered s (some a) = a

  -- `redisCache`, with the fuel of a loop over SCAN by the state of the server.
  abbrev pub redis_cache : CacheManager R
  redis_cache = record {
    get = cache_get client json;
    set = cache_set client json;
    delete_by_prefix = λ prefix s. answered s (delete_by_prefix client json (fuel s) prefix s);
  }

  entry_gone : (key : Bytes) (s : R) → client.get key s ≡ none → cache_get client json key s ≡ none
  unfolding cache_get
  entry_gone key s h = rw h refl

  entry_same :
      (key : Bytes) (s t : R)
      → client.get key t ≡ client.get key s
      → cache_get client json key t ≡ cache_get client json key s
  unfolding cache_get
  entry_same key s t h = rw h refl

  entry_read :
      (key path text : Bytes) (s : R)
      → client.get key s ≡ some text
      → json.unmarshal text ≡ some path
      → cache_get client json key s ≡ some path
  unfolding cache_get
  entry_read key path text s h e = rw h e

  module _ (is_text : Bytes → Bool) (entries : EntryLaws is_text client json)
      (laws : ScanLaws client) (enough : (s : R) → laws.rounds 0 s < fuel s) where
    set_or_kept :
        (key path : Bytes) (s : R)
        → is_text path ≡ true
        → (redis_cache.get key (redis_cache.set key path s).1 ≡ some path)
          ⊎ (redis_cache.get key (redis_cache.set key path s).1 ≡ redis_cache.get key s)
    unfolding cache_set
    set_or_kept key path s clean = elim (Option-cases (json.marshal path)) [
      | inl e ↦ rw (e) (inr refl)
      | inr (text, e) ↦ rw (e) (elim (entries.get-set key text s) [
        | inl put ↦
            inl (entry_read key path text _ put (entries.unmarshal-marshal path text clean e))
        | inr kept ↦ inr (entry_same key s _ kept)
      ])
    ]

    dropped_keys :
        (prefix : Bytes) (s : R) (o : Option (Bool × R))
        → Cleared client json laws prefix s o
        → ((answered s o).0 ≡ true
            → (key : Bytes) → has_prefix key prefix ≡ true
            → cache_get client json key (answered s o).1 ≡ none)
          × ((key : Bytes)
              → cache_get client json key s ≡ none
              → cache_get client json key (answered s o).1 ≡ none)
    dropped_keys prefix s none (a, same, cleared, stays) = absurd (cc)
    dropped_keys prefix s (some b) (a, same, cleared, stays) =
        let is : a ≡ b = cc in
        subst
          (λ (x : Bool × R).
            (x.0 ≡ true
              → (key : Bytes) → has_prefix key prefix ≡ true
              → cache_get client json key x.1 ≡ none)
            × ((key : Bytes)
                → cache_get client json key s ≡ none
                → cache_get client json key x.1 ≡ none))
          is
          (
            (λ done key inside. entry_gone key a.1 (cleared done key inside)),
            (λ key out. elim (stays key) [
              | inl gone ↦ entry_gone key a.1 gone
              | inr kept ↦ entry_same key s a.1 kept ∙ out
            ]),
          )

    -- With the laws of the server and of JSON, and more fuel than a scan takes rounds: the Redis cache is
    -- a cache as the content service relies on it. A key that is set leads to its path or to what it led
    -- to before; an invalidation that succeeds, of a prefix without a character that has a meaning in
    -- patterns, drops every key of the prefix; and it brings no key back, even when it fails.
    pub redis_cache-CacheLaws : CacheLaws is_text redis_cache
    redis_cache-CacheLaws = record {
      get-set = set_or_kept;
      dropped = λ prefix key s plain done inside.
          (dropped_keys prefix s (delete_by_prefix client json (fuel s) prefix s)
              (delete_by_prefix-Cleared client json laws prefix (fuel s) s plain (enough s))).0
            done key inside;
      stays_out = λ prefix key s plain out.
          (dropped_keys prefix s (delete_by_prefix client json (fuel s) prefix s)
              (delete_by_prefix-Cleared client json laws prefix (fuel s) s plain (enough s))).1
            key out;
    }
