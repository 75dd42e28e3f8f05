-- ===== src/Persistence.antt =====
-- internal/persistence: the connections to Redis and to PostgreSQL. The libraries that parse an address,
-- open a connection and ping are parameters.
use gimme.Base.{Bytes, if◌then◌else◌, Bool, List, [], ◌∷◌, Option, none, some}

abbrev reached {ℓ} : {A : Type ℓ} → (A → Bool) → Option A → Option A
reached ping none = none
reached ping (some client) = if ping client then some client else none

-- `parse_url` is redis.ParseURL and `new_client` redis.NewClient.
unfoldable pub new_redis_client :
    {Options Client : Type 0}
    → (Bytes → Option Options)
    → (Options → Client)
    → (Client → Bool)
    → Bytes
    → Option Client
new_redis_client parse_url new_client ping url = elim (parse_url url) [
  | none ↦ none
  | some opt ↦ reached ping (some (new_client opt))
]

-- `new_pool` is pgxpool.New.
unfoldable pub new_pg_client :
    {Pool : Type 0} → (Bytes → Option Pool) → (Pool → Bool) → Bytes → Option Pool
new_pg_client new_pool ping url = reached ping (new_pool url)

-- `CloseConnection` of both clients: the connections that are closed, and the client that is left, which is
-- nil. An error of the closing is logged.
unfoldable pub close_connection {ℓ} : {A : Type ℓ} → Option A → List A × Option A
close_connection none = ([], none)
close_connection (some c) = (c ∷ [], none)
