-- ===== src/Application/Tests.antt =====
-- A configuration that is usable, as it is loaded and as the server is built of it.
use gimme.Base.{
  ℕ, pos, Bytes, codes, text_eq, if◌then◌else◌, true, List, [], ◌∷◌, none, some, is_positive, ltb,
  ◌≡◌, ◌≢◌, ◌↔◌, ◌*◌, ◌+◌, ◌-◌, refl, length,
}
use gimme.Config.{Configuration}
use gimme.Config.Sizes.{Floats, parse_size}
use gimme.Config.Viper.{
  file_read, file_unreadable, Library, bindings, defaults, assemble, configured, new_config,
}
use gimme.Config.Usable.{IsUsable}
use gimme.Config.Accept.{new_config-configured}
use gimme.Application.{
  Surroundings, Modules, modules_of, redis_store, basic_provider, ready, configure_token_store,
  configure_auth_provider, load_modules,
}
use gimme.Auth.Oidc.Tests.{jwt}
use gimme.Auth.Provider.{new_basic_auth_provider}
use gimme.Persistence.{new_redis_client}
use gimme.Storage.{Body, create_bucket}
use gimme.Storage.Memory.{Memory, memory_client}
use gimme.Tokens.Postgres.{PgPool}
use gimme.Tokens.Tests.{codec, empty_disk}
use gimme.Application.Laws.{load_modules-Usable}

abbrev decimal : ℕ → Bytes → ℕ
decimal n [] = n
decimal n (c ∷ s) = decimal (10 * n + (c - b'0')) s

-- Stands for the floats: whole numbers.
abbrev whole_numbers : Floats
whole_numbers = record {
  F = ℕ;
  parse = λ s. some (decimal 0 s);
  times = λ f m. f * m;
  in_range = λ f. ltb f 9223372036854775808;
  to_int64 = λ f. pos f;
}

run_size : parse_size whole_numbers (codes " 100 mb ") ≡ some (pos 104857600)
unfolding parse_size
run_size = refl

run_unit : parse_size whole_numbers (codes "1.5.2 GB") ≡ none
unfolding parse_size
run_unit = refl

abbrev settings : List (Bytes × Bytes)
settings =
    (codes "admin.user", codes "a")
    ∷ (codes "admin.password", codes "b")
    ∷ (codes "secret", codes "0123456789abcdef0123456789abcdef")
    ∷ (codes "s3.url", codes "s3")
    ∷ (codes "s3.key", codes "k")
    ∷ (codes "s3.secret", codes "s")
    ∷ (codes "s3.location", codes "eu")
    ∷ (codes "auth.mode", codes "basic")
    ∷ (codes "tokenStore.mode", codes "redis")
    ∷ (codes "redis_url", codes "redis://r")
    ∷ (codes "cache.type", codes "redis")
    ∷ (codes "upload.max_size", codes "100MB")
    ∷ (codes "upload.max_uncompressed_size", codes "500MB")
    ∷ []

abbrev setting_in : Bytes → List (Bytes × Bytes) → Bytes
setting_in key [] = []
setting_in key ((k, v) ∷ rest) =
    let later = setting_in key rest in if text_eq k key then v else later

abbrev library : Library
library = λ bound fallback. record {
  read_in_config = file_read;
  get_string = λ key. setting_in key settings;
  get_bool = λ key. true;
  get_int = λ key. pos 10;
  get_string_slice = λ key. codes "https://a.b, ," ∷ [];
}

abbrev config : Configuration
config = assemble whole_numbers (library bindings defaults)

new_config-configured_example : (new_config whole_numbers library ≡ configured config) ↔ (
    ((library bindings defaults).read_in_config ≢ file_unreadable)
    × (assemble whole_numbers (library bindings defaults) ≡ config)
    × IsUsable config)
new_config-configured_example = new_config-configured whole_numbers library config

run_config : new_config whole_numbers library ≡ configured config
unfolding new_config assemble parse_size
run_config = refl

config-IsUsable : IsUsable config
config-IsUsable = (new_config-configured_example.0 run_config).2

-- A database whose statements all fail.
abbrev no_pool : PgPool ℕ
no_pool = record { exec = λ c t. (none, t); query_row = λ h t. none; query = λ t. none }

abbrev surroundings : Surroundings ℕ ℕ Memory Body
surroundings = record {
  parse_redis_url = λ url. some url;
  new_client = λ opt. length opt;
  ping_redis = λ r. true;
  new_pool = λ url. some 2;
  ping_pg = λ pg. true;
  pool = no_pool;
  hkdf = λ secret info n. some secret;
  codec = λ k. codec;
  disk = λ path. empty_disk;
  discover = λ issuer client secret redirect scopes. none;
  jwt = jwt;
  new_minio = λ url key secret ssl. some memory_client;
  objects = [];
  hmac_sha256 = λ key label. label;
}

abbrev modules : Modules surroundings
modules =
    modules_of surroundings config (some 9) (redis_store (some 9))
      (basic_provider (new_basic_auth_provider (codes "a") (codes "b")))
      (record {
        client = memory_client;
        manager = record { bucket_name = config.s3_bucket_name; location = config.s3_location };
        objects = [];
      })

run_load : load_modules surroundings config ≡ ready modules
unfolding load_modules assemble configure_token_store configure_auth_provider text_eq parse_size
    new_redis_client create_bucket new_basic_auth_provider
run_load = refl

load_modules-Usable_example :
    (modules.token_store ≢ redis_store none)
    × (modules.cache_manager ≢ some none)
    × (is_positive modules.limits.max_size ≡ true)
    × (is_positive modules.limits.max_entries ≡ true)
    × (is_positive modules.limits.max_uncompressed_size ≡ true)
load_modules-Usable_example =
    load_modules-Usable surroundings config modules config-IsUsable run_load
