-- ===== src/Content/MemoryCache.antt =====
-- A cache in memory whose calls succeed, as test/mocks/cache-manager.go keeps one in a map.
use gimme.Base.{Bytes, if◌then◌else◌, true, List, [], ◌∷◌}
use gimme.Strings.{has_prefix}
use gimme.Dict.{lookup, insert}
use gimme.Content.Serve.{CacheManager}

abbrev pub MemoryCache : Type 0
MemoryCache = List (Bytes × Bytes)

unfoldable pub drop_prefix : Bytes → MemoryCache → MemoryCache
drop_prefix p [] = []
drop_prefix p ((k, v) ∷ m) =
    let rest = drop_prefix p m in if has_prefix k p then rest else (k, v) ∷ rest

abbrev pub memory_cache : CacheManager MemoryCache
memory_cache = record {
  get = λ key m. lookup key m;
  set = λ key path m. (true, insert key path m);
  delete_by_prefix = λ p m. (true, drop_prefix p m);
}
