-- ===== src/Content/Cached.antt =====
-- What is relied on of a cache, for internal/cache/cache.go.
use gimme.Base.{Bytes, Bool, true, false, any, none, some, ◌≡◌, ◌⊎◌}
use gimme.Strings.{has_prefix}
use gimme.Cache.Laws.{is_wild}
use gimme.Content.Serve.{CacheManager}

-- What is relied on of a cache whose calls may fail, where `is_text` says what an entry can hold: a key
-- that is set leads to its path or to what it led to before; an invalidation that succeeds, of a
-- prefix without a character that has a meaning in patterns, drops every key of its prefix; and no
-- invalidation brings a key back.
pub record CacheLaws {C : Type 0} (is_text : Bytes → Bool) (manager : CacheManager C) : Type 0 where
  pub get-set :
      (key path : Bytes) (c : C)
      → is_text path ≡ true
      → (manager.get key (manager.set key path c).1 ≡ some path)
        ⊎ (manager.get key (manager.set key path c).1 ≡ manager.get key c)
  pub dropped :
      (prefix key : Bytes) (c : C)
      → any is_wild prefix ≡ false
      → (manager.delete_by_prefix prefix c).0 ≡ true
      → has_prefix key prefix ≡ true
      → manager.get key (manager.delete_by_prefix prefix c).1 ≡ none
  pub stays_out :
      (prefix key : Bytes) (c : C)
      → any is_wild prefix ≡ false
      → manager.get key c ≡ none
      → manager.get key (manager.delete_by_prefix prefix c).1 ≡ none
