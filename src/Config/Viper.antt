-- ===== src/Config/Viper.antt =====
-- `NewConfig` of configs/config.go. The library viper is the interface `Viper`: what it answers for a
-- key, given the bindings and the defaults that the code declares.
use gimme.Base.{ℤ, pos, Bytes, codes, Bool, true, false, List, [], ◌∷◌, Option, none, some}
use gimme.Errors.{ErrorKind, internal_error}
use gimme.Config.{Configuration}
use gimme.Config.Sizes.{Floats, read_size}
use gimme.Config.Origins.{split_origins}
use gimme.Config.Validate.{Report, validate_config}

pub data Default : Type 0 where
  text : Bytes → Default
  flag : Bool → Default
  number : ℤ → Default
  no_texts : Default

-- What ReadInConfig did: a file that is not found is no error.
pub data ReadOutcome : Type 0 where
  file_read file_not_found file_unreadable : ReadOutcome

pub record Viper : Type 0 where
  pub read_in_config : ReadOutcome
  pub get_string : Bytes → Bytes
  pub get_bool : Bytes → Bool
  pub get_int : Bytes → ℤ
  pub get_string_slice : Bytes → List Bytes

abbrev pub Library : Type 0
Library = List (Bytes × Bytes) → List (Bytes × Default) → Viper

abbrev pub bindings : List (Bytes × Bytes)
bindings =
    (codes "secret", codes "GIMME_SECRET")
    ∷ (codes "admin.user", codes "GIMME_ADMIN_USER")
    ∷ (codes "admin.password", codes "GIMME_ADMIN_PASSWORD")
    ∷ (codes "s3.url", codes "GIMME_S3_URL")
    ∷ (codes "s3.key", codes "GIMME_S3_KEY")
    ∷ (codes "s3.secret", codes "GIMME_S3_SECRET")
    ∷ (codes "s3.bucketName", codes "GIMME_S3_BUCKETNAME")
    ∷ (codes "s3.location", codes "GIMME_S3_LOCATION")
    ∷ (codes "s3.ssl", codes "GIMME_S3_SSL")
    ∷ (codes "cors.allowed_origins", codes "GIMME_CORS_ALLOWED_ORIGINS")
    ∷ (codes "port", codes "GIMME_APP_PORT")
    ∷ (codes "metrics", codes "GIMME_METRICS")
    ∷ (codes "redis_url", codes "GIMME_REDIS_URL")
    ∷ (codes "token_file", codes "GIMME_TOKEN_FILE")
    ∷ (codes "cache.enabled", codes "GIMME_CACHE_ENABLED")
    ∷ (codes "compression.enabled", codes "GIMME_COMPRESSION_ENABLED")
    ∷ (codes "cache.type", codes "GIMME_CACHE_TYPE")
    ∷ (codes "cache.ttl", codes "GIMME_CACHE_TTL")
    ∷ (codes "auth.mode", codes "GIMME_AUTH_MODE")
    ∷ (codes "auth.oidc.issuer", codes "GIMME_AUTH_OIDC_ISSUER")
    ∷ (codes "auth.oidc.client_id", codes "GIMME_AUTH_OIDC_CLIENT_ID")
    ∷ (codes "auth.oidc.client_secret", codes "GIMME_AUTH_OIDC_CLIENT_SECRET")
    ∷ (codes "auth.oidc.redirect_url", codes "GIMME_AUTH_OIDC_REDIRECT_URL")
    ∷ (codes "auth.oidc.secure_cookies", codes "GIMME_AUTH_OIDC_SECURE_COOKIES")
    ∷ (codes "tokenStore.mode", codes "GIMME_TOKENSTORE_MODE")
    ∷ (codes "tokenStore.pg_url", codes "GIMME_TOKENSTORE_PG_URL")
    ∷ (codes "upload.max_size", codes "GIMME_UPLOAD_MAX_SIZE")
    ∷ (codes "upload.max_entries", codes "GIMME_UPLOAD_MAX_ENTRIES")
    ∷ (codes "upload.max_uncompressed_size", codes "GIMME_UPLOAD_MAX_UNCOMPRESSED_SIZE")
    ∷ []

abbrev pub defaults : List (Bytes × Default)
defaults =
    (codes "port", text (codes "8080"))
    ∷ (codes "s3.bucketName", text (codes "gimme"))
    ∷ (codes "s3.ssl", flag true)
    ∷ (codes "metrics", flag true)
    ∷ (codes "cors.allowed_origins", no_texts)
    ∷ (codes "redis_url", text [])
    ∷ (codes "token_file", text (codes "/tmp/gimme-tokens.enc"))
    ∷ (codes "cache.enabled", flag false)
    ∷ (codes "compression.enabled", flag true)
    ∷ (codes "cache.type", text (codes "redis"))
    ∷ (codes "cache.ttl", number (pos 3600))
    ∷ (codes "auth.mode", text (codes "basic"))
    ∷ (codes "auth.oidc.secure_cookies", flag true)
    ∷ (codes "tokenStore.mode", text (codes "file"))
    ∷ (codes "upload.max_size", text (codes "100MB"))
    ∷ (codes "upload.max_entries", number (pos 10000))
    ∷ (codes "upload.max_uncompressed_size", text (codes "500MB"))
    ∷ []

-- The answer of `NewConfig`: both errors are business errors of the kind they carry.
pub data Outcome : Type 0 where
  configured : Configuration → Outcome
  unreadable_file : ErrorKind → Outcome
  invalid : ErrorKind → Report → Outcome

module _ (floats : Floats) where
  unfoldable pub assemble : Viper → Configuration
  unfolding read_size split_origins
  assemble v = record {
    app_port = v.get_string (codes "port");
    admin_user = v.get_string (codes "admin.user");
    admin_password = v.get_string (codes "admin.password");
    secret = v.get_string (codes "secret");
    s3_url = v.get_string (codes "s3.url");
    s3_key = v.get_string (codes "s3.key");
    s3_secret = v.get_string (codes "s3.secret");
    s3_bucket_name = v.get_string (codes "s3.bucketName");
    s3_location = v.get_string (codes "s3.location");
    s3_ssl = v.get_bool (codes "s3.ssl");
    enable_metrics = v.get_bool (codes "metrics");
    cors_allowed_origins = split_origins (v.get_string_slice (codes "cors.allowed_origins"));
    redis_url = v.get_string (codes "redis_url");
    token_file = v.get_string (codes "token_file");
    cache = record {
      enabled = v.get_bool (codes "cache.enabled");
      type = v.get_string (codes "cache.type");
      ttl = v.get_int (codes "cache.ttl");
    };
    compression = record { enabled = v.get_bool (codes "compression.enabled") };
    auth = record {
      mode = v.get_string (codes "auth.mode");
      oidc = record {
        issuer = v.get_string (codes "auth.oidc.issuer");
        client_id = v.get_string (codes "auth.oidc.client_id");
        client_secret = v.get_string (codes "auth.oidc.client_secret");
        redirect_url = v.get_string (codes "auth.oidc.redirect_url");
        secure_cookies = v.get_bool (codes "auth.oidc.secure_cookies");
      };
    };
    token_store = record {
      mode = v.get_string (codes "tokenStore.mode");
      postgres_url = v.get_string (codes "tokenStore.pg_url");
    };
    upload = record {
      max_size = read_size floats (v.get_string (codes "upload.max_size"));
      max_entries = v.get_int (codes "upload.max_entries");
      max_uncompressed_size =
          read_size floats (v.get_string (codes "upload.max_uncompressed_size"));
    };
  }

  abbrev pub checked : Configuration → Option Report → Outcome
  checked c none = configured c
  checked c (some r) = invalid internal_error r

  abbrev pub loaded : Viper → ReadOutcome → Outcome
  loaded v file_unreadable = unreadable_file internal_error
  loaded v file_read = checked (assemble v) (validate_config (assemble v))
  loaded v file_not_found = checked (assemble v) (validate_config (assemble v))

  unfoldable pub new_config : Library → Outcome
  unfolding assemble validate_config
  new_config library = let v = library bindings defaults in loaded v v.read_in_config
