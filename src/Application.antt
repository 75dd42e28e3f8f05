-- ===== src/Application.antt =====
-- internal/application/application.go: what the server is built of, and what it closes in the end. The
-- libraries behind the connections, and HMAC-SHA256, are parameters; sockets and signals are left out.
pub mod Laws
pub mod Server
mod Tests
use gimme.Base.{
  ℕ, ℤ, pos, negsuc, Bytes, codes, text_eq, ◌==◌, if◌then◌else◌, Bool, true, false, not, List, [],
  ◌∷◌, ◌++◌, map, Option, none, some,
}
use gimme.Archive.Limits.{UploadLimits}
use gimme.Auth.{hex}
use gimme.Auth.Oidc.{Discovery, Jwt, OidcProvider, new_oidc_provider}
use gimme.Auth.Provider.{BasicAuthProvider, new_basic_auth_provider}
use gimme.Errors.{GimmeError}
use gimme.Persistence.{new_redis_client, new_pg_client, close_connection}
use gimme.Storage.{
  ObjectStorageClient, ObjectStorageManager, new_object_storage_manager, create_bucket,
}
use gimme.Tokens.Files.{Codec, Disk, derive_aes_key}
use gimme.Tokens.FileStore.{FileTokenStore, new_file_token_store}
use gimme.Tokens.Postgres.{PgPool, new_pg_token_store}
use gimme.Config.{Configuration}
use gimme.Config.Validate.{is_mode, redis_mode, postgres_mode, oidc_mode}

-- What the program reaches through its libraries: `none` or `false` is an error. `pool` is the database
-- behind a connection.
pub record Surroundings (Redis Postgres W Object : Type 0) : Type 0 where
  pub parse_redis_url : Bytes → Option Bytes
  pub new_client : Bytes → Redis
  pub ping_redis : Redis → Bool
  pub new_pool : Bytes → Option Postgres
  pub ping_pg : Postgres → Bool
  pub pool : PgPool Postgres
  pub hkdf : Bytes → Bytes → ℕ → Option Bytes
  pub codec : Bytes → Codec
  pub disk : Bytes → Disk
  pub discover : Discovery
  pub jwt : Jwt
  pub new_minio : Bytes → Bytes → Bytes → Bool → Option (ObjectStorageClient W Object)
  pub objects : W
  pub hmac_sha256 : Bytes → Bytes → Bytes

pub data Fatal : Type 0 where
  redis_failed postgres_failed pg_store_failed file_store_failed oidc_failed storage_failed : Fatal
  bucket_failed : Fatal

pub data Startup {ℓ} (A : Type ℓ) : Type ℓ where
  fatal : Fatal → Startup A
  ready : A → Startup A

infixl 5 ◌>>=◌
abbrev pub ◌>>=◌ {ℓ μ} : {X : Type ℓ} {Y : Type μ} → Startup X → (X → Startup Y) → Startup Y
fatal f >>= next = fatal f
ready x >>= next = next x

abbrev pub required {ℓ} : {A : Type ℓ} → Fatal → Option A → Startup A
required f none = fatal f
required f (some a) = ready a

-- `deriveSecret`
unfoldable pub derive_secret : (Bytes → Bytes → Bytes) → Bytes → Bytes → Bytes
unfolding hex
derive_secret hmac_sha256 master_secret label = hex (hmac_sha256 master_secret label)

pub data CorsConfig : Type 0 where
  allow_all_origins : CorsConfig
  allow_origins : List Bytes → CorsConfig

unfoldable pub cors_config : List Bytes → CorsConfig
unfolding text_eq
cors_config [] = allow_all_origins
cors_config (o ∷ []) = if text_eq o (codes "*") then allow_all_origins else allow_origins (o ∷ [])
cors_config (o ∷ p ∷ os) = allow_origins (o ∷ p ∷ os)

-- The labels under which `metricsMiddleware` counts a request, if it does.
unfoldable pub metrics_labels : Bytes → Bytes → ℕ → Option (Bytes × Bytes × ℕ)
unfolding text_eq
metrics_labels full_path method status =
    if text_eq full_path []
    then some (codes "unknown", method, (if status == 0 then 500 else status))
    else if text_eq full_path (codes "/metrics")
    then none
    else some (full_path, method, (if status == 0 then 500 else status))

module _ {Redis Postgres W Object : Type 0} (out : Surroundings Redis Postgres W Object) where
  -- The Redis client that a store is given may be nil.
  pub data StoreChoice : Type 0 where
    redis_store : Option Redis → StoreChoice
    postgres_store : Postgres → StoreChoice
    file_store : FileTokenStore → StoreChoice

  pub data ProviderChoice : Type 0 where
    oidc_provider : OidcProvider → ProviderChoice
    basic_provider : BasicAuthProvider → ProviderChoice

  -- The object store with the manager that knows its bucket.
  pub record Storage : Type 0 where
    pub client : ObjectStorageClient W Object
    pub manager : ObjectStorageManager
    pub objects : W

  -- The fields of Application, with the limits that the content service is given.
  pub record Modules : Type 0 where
    pub redis_client : Option Redis
    pub token_store : StoreChoice
    pub auth_provider : ProviderChoice
    pub storage : Storage
    pub cache_manager : Option (Option Redis)
    pub limits : UploadLimits
    pub compression : Bool

  -- `NewFileTokenStore` with the derivation of its key.
  abbrev pub opened_file_store : Bytes → Option Bytes → Option FileTokenStore
  opened_file_store path none = none
  opened_file_store path (some k) = new_file_token_store (out.codec k) (out.disk path)

  -- `NewPGTokenStore`, whose table is in the database that is left.
  abbrev pub opened_pg_store : Bool × Postgres → Startup StoreChoice
  opened_pg_store (true, pg) = ready (postgres_store pg)
  opened_pg_store (false, pg) = fatal pg_store_failed

  unfoldable pub configure_token_store : Configuration → Option Redis → Startup StoreChoice
  unfolding text_eq new_pg_client new_pg_token_store new_file_token_store derive_aes_key
  configure_token_store c redis =
      if is_mode redis_mode c.token_store.mode
      then ready (redis_store redis)
      else if is_mode postgres_mode c.token_store.mode
      then required postgres_failed
          (new_pg_client out.new_pool out.ping_pg c.token_store.postgres_url)
        >>= (λ pg. opened_pg_store (new_pg_token_store out.pool pg))
      else required file_store_failed
          (opened_file_store c.token_file (derive_aes_key out.hkdf c.secret))
        >>= (λ s. ready (file_store s))

  unfoldable pub configure_auth_provider : Configuration → Startup ProviderChoice
  unfolding text_eq derive_secret new_oidc_provider new_basic_auth_provider
  configure_auth_provider c =
      if is_mode oidc_mode c.auth.mode
      then required oidc_failed (
          new_oidc_provider out.discover out.jwt c.auth.oidc.issuer c.auth.oidc.client_id
            c.auth.oidc.client_secret c.auth.oidc.redirect_url
            (derive_secret out.hmac_sha256 c.secret (codes "oidc-session"))
            c.auth.oidc.secure_cookies)
        >>= (λ p. ready (oidc_provider p))
      else ready (basic_provider (new_basic_auth_provider c.admin_user c.admin_password))

  abbrev pub connect_redis : Configuration → Startup (Option Redis)
  connect_redis c =
      if text_eq c.redis_url []
      then ready none
      else required redis_failed
          (new_redis_client out.parse_redis_url out.new_client out.ping_redis c.redis_url)
        >>= (λ r. ready (some r))

  abbrev pub modules_of :
      Configuration → Option Redis → StoreChoice → ProviderChoice → Storage → Modules
  modules_of c redis store provider storage = record {
    redis_client = redis;
    token_store = store;
    auth_provider = provider;
    storage = storage;
    cache_manager = if c.cache.enabled then some redis else none;
    limits = record {
      max_size = c.upload.max_size.bytes;
      max_entries = c.upload.max_entries;
      max_uncompressed_size = c.upload.max_uncompressed_size.bytes;
    };
    compression = c.compression.enabled;
  }

  abbrev pub with_bucket :
      ObjectStorageClient W Object → Option GimmeError × ObjectStorageManager × W → Startup Storage
  with_bucket client (none, manager, w) =
      ready (record { client = client; manager = manager; objects = w })
  with_bucket client (some e, manager, w) = fatal bucket_failed

  unfoldable pub load_modules : Configuration → Startup Modules
  unfolding text_eq configure_token_store configure_auth_provider new_redis_client create_bucket
  load_modules c = connect_redis c >>= (λ redis. configure_token_store c redis >>= (λ store.
      configure_auth_provider c >>= (λ provider.
        required storage_failed (out.new_minio c.s3_url c.s3_key c.s3_secret c.s3_ssl)
        >>= (λ client.
            with_bucket client (
              create_bucket client c.s3_bucket_name c.s3_location new_object_storage_manager
                out.objects)
            >>= (λ storage. ready (modules_of c redis store provider storage))))))

  abbrev pub pg_of : StoreChoice → Option Postgres
  pg_of (redis_store r) = none
  pg_of (postgres_store pg) = some pg
  pg_of (file_store s) = none

  -- What the server closes, in its order, after it has stopped to serve: its token store, which ends the
  -- store's purges, and then the clients, of which each is closed once at most.
  pub data Closing : Type 0 where
    store_closed : Closing
    redis_closed : Redis → Closing
    pg_closed : Postgres → Closing

  -- `drained` is whether the server could end its requests in time; if not, the program ends at once.
  unfoldable pub shut_down : Bool → Modules → List Closing
  unfolding close_connection
  shut_down drained m =
      if drained
      then store_closed
        ∷ (map redis_closed (close_connection m.redis_client).0
            ++ map pg_closed (close_connection (pg_of m.token_store)).0)
      else []
