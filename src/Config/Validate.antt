-- ===== src/Config/Validate.antt =====
-- `validateConfig` and `sizeProblem` of configs/config.go. A text of a problem is the constructor of
-- its format; the warning on an empty client secret is left out.
use gimme.Base.{
  ℕ, ℤ, Bytes, codes, text_eq, ltb, if◌then◌else◌, Bool, true, false, not, ◌&&◌, List, [], ◌∷◌,
  ◌++◌, Option, none, some, length, is_positive,
}
use gimme.Config.{Configuration, Size}

pub data Problem : Type 0 where
  not_set : Bytes → Problem
  too_short : Bytes → ℕ → Problem
  not_a_size : Bytes → Bytes → Problem
  not_positive : Bytes → ℤ → Problem
  not_supported : Bytes → Bytes → Problem
  required_when : Bytes → Bytes → Problem

-- One problem is reported on the line of the error, several as a list below it.
pub data Report : Type 0 where
  single : Problem → Report
  several : List Problem → Report

abbrev pub unset : Bytes → Bool
unset s = text_eq s []

abbrev pub when : Bool → Problem → List Problem
when true p = p ∷ []
when false p = []

unfoldable pub size_problem : Bytes → Size → List Problem
size_problem key size =
    if size.failed
    then not_a_size key size.raw ∷ []
    else when (not (is_positive size.bytes)) (not_positive key size.bytes)

abbrev pub is_mode : Bytes → Bytes → Bool
is_mode name mode = text_eq mode name

abbrev pub basic : Bytes
basic = codes "basic"

abbrev pub oidc_mode : Bytes
oidc_mode = codes "oidc"

abbrev pub file_mode : Bytes
file_mode = codes "file"

abbrev pub redis_mode : Bytes
redis_mode = codes "redis"

abbrev pub postgres_mode : Bytes
postgres_mode = codes "postgres"

unfoldable pub admin_problems : Configuration → List Problem
unfolding text_eq
admin_problems c =
    if is_mode basic c.auth.mode
    then when (unset c.admin_user) (not_set (codes "admin.user"))
      ++ when (unset c.admin_password) (not_set (codes "admin.password"))
    else []

unfoldable pub secret_problems : Configuration → List Problem
unfolding text_eq
secret_problems c =
    if unset c.secret
    then not_set (codes "secret") ∷ []
    else when (ltb (length c.secret) 32) (too_short (codes "secret") (length c.secret))

unfoldable pub s3_problems : Configuration → List Problem
unfolding text_eq
s3_problems c =
    when (unset c.s3_url) (not_set (codes "s3.url"))
    ++ (when (unset c.s3_key) (not_set (codes "s3.key"))
        ++ (when (unset c.s3_secret) (not_set (codes "s3.secret"))
            ++ when (unset c.s3_location) (not_set (codes "s3.location"))))

unfoldable pub upload_problems : Configuration → List Problem
unfolding size_problem
upload_problems c =
    size_problem (codes "upload.max_size") c.upload.max_size
    ++ (size_problem (codes "upload.max_uncompressed_size") c.upload.max_uncompressed_size
        ++ when (not (is_positive c.upload.max_entries))
            (not_positive (codes "upload.max_entries") c.upload.max_entries))

unfoldable pub cache_problems : Configuration → List Problem
unfolding text_eq
cache_problems c =
    if c.cache.enabled
    then when (not (is_mode redis_mode c.cache.type))
        (not_supported (codes "cache.type") c.cache.type)
      ++ when (unset c.redis_url) (required_when (codes "redis_url") (codes "cache.enabled"))
    else []

unfoldable pub store_problems : Configuration → List Problem
unfolding text_eq
store_problems c =
    let mode = c.token_store.mode in
    when
      (not (is_mode file_mode mode)
        && (not (is_mode redis_mode mode) && not (is_mode postgres_mode mode)))
      (not_supported (codes "tokenStore.mode") mode)
    ++ (when (is_mode redis_mode mode && unset c.redis_url)
          (required_when (codes "redis_url") (codes "tokenStore.mode"))
        ++ when (is_mode postgres_mode mode && unset c.token_store.postgres_url)
            (required_when (codes "tokenStore.pg_url") (codes "tokenStore.mode")))

unfoldable pub auth_problems : Configuration → List Problem
unfolding text_eq
auth_problems c =
    if is_mode basic c.auth.mode
    then []
    else if is_mode oidc_mode c.auth.mode
    then when (unset c.auth.oidc.issuer)
        (required_when (codes "auth.oidc.issuer") (codes "auth.mode"))
      ++ (when (unset c.auth.oidc.client_id)
            (required_when (codes "auth.oidc.client_id") (codes "auth.mode"))
          ++ when (unset c.auth.oidc.redirect_url)
              (required_when (codes "auth.oidc.redirect_url") (codes "auth.mode")))
    else not_supported (codes "auth.mode") c.auth.mode ∷ []

unfoldable pub problems_of : Configuration → List Problem
unfolding admin_problems secret_problems s3_problems upload_problems cache_problems store_problems
    auth_problems
problems_of c =
    admin_problems c
    ++ (secret_problems c
        ++ (s3_problems c
            ++ (upload_problems c ++ (cache_problems c ++ (store_problems c ++ auth_problems c)))))

abbrev pub report_of : List Problem → Option Report
report_of [] = none
report_of (p ∷ []) = some (single p)
report_of (p ∷ q ∷ ps) = some (several (p ∷ q ∷ ps))

unfoldable pub validate_config : Configuration → Option Report
unfolding problems_of
validate_config c = report_of (problems_of c)
