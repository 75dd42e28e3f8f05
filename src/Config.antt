-- ===== src/Config.antt =====
-- configs/config.go: the types of the configuration. A size that could not be read has `failed`, and
-- its text is kept.
pub mod Origins
pub mod Sizes
pub mod Validate
pub mod Viper
pub mod Usable
pub mod Accept
use gimme.Base.{ℤ, Bytes, Bool, List}

pub record CacheConfig : Type 0 where
  pub enabled : Bool
  pub type : Bytes
  pub ttl : ℤ

pub record CompressionConfig : Type 0 where
  pub enabled : Bool

pub record Size : Type 0 where
  pub bytes : ℤ
  pub raw : Bytes
  pub failed : Bool

pub record UploadConfig : Type 0 where
  pub max_size : Size
  pub max_entries : ℤ
  pub max_uncompressed_size : Size

pub record OidcConfig : Type 0 where
  pub issuer : Bytes
  pub client_id : Bytes
  pub client_secret : Bytes
  pub redirect_url : Bytes
  pub secure_cookies : Bool

pub record AuthConfig : Type 0 where
  pub mode : Bytes
  pub oidc : OidcConfig

pub record TokenStoreConfig : Type 0 where
  pub mode : Bytes
  pub postgres_url : Bytes

pub record Configuration : Type 0 where
  pub app_port : Bytes
  pub admin_user : Bytes
  pub admin_password : Bytes
  pub secret : Bytes
  pub s3_url : Bytes
  pub s3_key : Bytes
  pub s3_secret : Bytes
  pub s3_bucket_name : Bytes
  pub s3_location : Bytes
  pub s3_ssl : Bool
  pub enable_metrics : Bool
  pub cors_allowed_origins : List Bytes
  pub redis_url : Bytes
  pub token_file : Bytes
  pub cache : CacheConfig
  pub compression : CompressionConfig
  pub auth : AuthConfig
  pub token_store : TokenStoreConfig
  pub upload : UploadConfig
