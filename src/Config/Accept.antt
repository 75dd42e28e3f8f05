-- ===== src/Config/Accept.antt =====
-- Proofs about which configurations `validateConfig` and `NewConfig` accept.
use gimme.Base.{
  ◌≤◌, Bytes, codes, text_eq, text_eq_iff, ltb, true, false, List, [], ◌∷◌, Option, none, some,
  length, is_positive, ◌≡◌, ◌≢◌, ◌↔◌, ◌⊎◌, inl, inr, refl, sym, ◌∙◌, subst, ap, arith, Bool-cases,
}
use gimme.Config.{Configuration, Size}
use gimme.Config.Validate.{
  Problem, Report, size_problem, is_mode, file_mode, redis_mode, postgres_mode, admin_problems,
  secret_problems, s3_problems, upload_problems, cache_problems, store_problems, auth_problems,
  problems_of, report_of, validate_config,
}
use gimme.Config.Sizes.{Floats}
use gimme.Config.Viper.{
  Viper, ReadOutcome, file_read, file_not_found, file_unreadable, Library, configured, bindings,
  defaults, assemble, checked, loaded, new_config,
}
use gimme.Config.Usable.{IsPositiveSize, UsableAuth, IsUsable, unset_of, problems_of-nil}

is_mode_of : (name mode : Bytes) → mode ≡ name → is_mode name mode ≡ true
is_mode_of name mode h = (text_eq_iff mode name).1 h

size_problem-PositiveSize : (key : Bytes) (s : Size) → IsPositiveSize s → size_problem key s ≡ []
unfolding size_problem
size_problem-PositiveSize key s (f, p) = rw (f, p) refl

secret_problems_usable : (c : Configuration) → 32 ≤ length c.secret → secret_problems c ≡ []
unfolding secret_problems
secret_problems_usable c h =
    let set = unset_of c.secret (λ e. absurd (omega (arith, h, ap length e))) in
    let long : ltb (length c.secret) 32 ≡ false = ground (arith, h) in rw (set, long) refl

cache_problems_usable :
    (c : Configuration)
    → (c.cache.enabled ≡ true → (c.cache.type ≡ redis_mode) × (c.redis_url ≢ []))
    → cache_problems c ≡ []
unfolding cache_problems
cache_problems_usable c h = elim (Bool-cases c.cache.enabled) [
  | inr q ↦ rw (q) refl
  | inl q ↦ rw (q, is_mode_of redis_mode c.cache.type (h q).0, unset_of c.redis_url (h q).1) refl
]

store_problems_usable :
    (c : Configuration)
    → (c.token_store.mode ≡ file_mode)
      ⊎ (c.token_store.mode ≡ redis_mode) × (c.redis_url ≢ [])
      ⊎ (c.token_store.mode ≡ postgres_mode) × (c.token_store.postgres_url ≢ [])
    → store_problems c ≡ []
unfolding store_problems text_eq
store_problems_usable c (inl m) = rw (m) refl
store_problems_usable c (inr (inl (m, u))) = rw (m, unset_of c.redis_url u) refl
store_problems_usable c (inr (inr (m, u))) = rw (m, unset_of c.token_store.postgres_url u) refl

admin_problems_usable : (c : Configuration) → UsableAuth c → admin_problems c ≡ []
unfolding admin_problems text_eq
admin_problems_usable c (inl (m, u, p)) =
    rw (m, unset_of c.admin_user u, unset_of c.admin_password p) refl
admin_problems_usable c (inr (m, _, _, _)) = rw (m) refl

auth_problems_usable : (c : Configuration) → UsableAuth c → auth_problems c ≡ []
unfolding auth_problems text_eq
auth_problems_usable c (inl (m, _, _)) = rw (m) refl
auth_problems_usable c (inr (m, i, k, r)) =
    rw
      (
        m,
        unset_of c.auth.oidc.issuer i,
        unset_of c.auth.oidc.client_id k,
        unset_of c.auth.oidc.redirect_url r,
      )
      refl

s3_problems_usable :
    (c : Configuration)
    → (c.s3_url ≢ []) × (c.s3_key ≢ []) × (c.s3_secret ≢ []) × (c.s3_location ≢ [])
    → s3_problems c ≡ []
unfolding s3_problems
s3_problems_usable c (a, b, d, e) =
    rw (unset_of c.s3_url a, unset_of c.s3_key b, unset_of c.s3_secret d, unset_of c.s3_location e)
      refl

upload_problems_usable :
    (c : Configuration)
    → IsPositiveSize c.upload.max_size
    → IsPositiveSize c.upload.max_uncompressed_size
    → is_positive c.upload.max_entries ≡ true
    → upload_problems c ≡ []
unfolding upload_problems
upload_problems_usable c m x n =
    rw
      (
        size_problem-PositiveSize (codes "upload.max_size") c.upload.max_size m,
        size_problem-PositiveSize (codes "upload.max_uncompressed_size")
            c.upload.max_uncompressed_size x,
        n,
      )
      refl

problems_of-Usable : (c : Configuration) → IsUsable c → problems_of c ≡ []
unfolding problems_of
problems_of-Usable c u =
    rw
      (
        admin_problems_usable c u.auth,
        secret_problems_usable c u.secret,
        s3_problems_usable c u.s3,
        upload_problems_usable c u.max_size u.max_uncompressed_size u.max_entries,
        cache_problems_usable c u.cache,
        store_problems_usable c u.token_store,
        auth_problems_usable c u.auth,
      )
      refl

report_of-nil : (ps : List Problem) → report_of ps ≡ none → ps ≡ []
report_of-nil [] h = refl
report_of-nil (p ∷ []) h = cc
report_of-nil (p ∷ q ∷ ps) h = cc

-- A configuration is accepted exactly if it is usable.
pub validate_config-Usable : (c : Configuration) → (validate_config c ≡ none) ↔ IsUsable c
unfolding validate_config
validate_config-Usable c = (
  λ h. problems_of-nil c (report_of-nil (problems_of c) h),
  λ u. rw (problems_of-Usable c u) refl,
)

module _ (floats : Floats) where
  checked_inv :
      (c d : Configuration) (o : Option Report)
      → checked floats c o ≡ configured d
      → (c ≡ d) × (o ≡ none)
  checked_inv c d none h = (cc, refl)
  checked_inv c d (some r) h = cc

  accepted :
      (v : Viper) (c : Configuration)
      → (checked floats (assemble floats v) (validate_config (assemble floats v)) ≡ configured c)
        ↔ ((assemble floats v ≡ c) × IsUsable c)
  accepted v c = (
    λ h.
        let (same, valid) = checked_inv (assemble floats v) c _ h in
        (same, subst IsUsable same ((validate_config-Usable (assemble floats v)).0 valid)),
    λ (same, u).
        let valid = (validate_config-Usable (assemble floats v)).1 (subst IsUsable (sym same) u) in
        ap (checked floats (assemble floats v)) valid ∙ ap configured same,
  )

  loaded_iff :
      (v : Viper) (c : Configuration) (o : ReadOutcome)
      → (loaded floats v o ≡ configured c)
        ↔ ((o ≢ file_unreadable) × (assemble floats v ≡ c) × IsUsable c)
  loaded_iff v c file_unreadable = (λ h. cc, λ (n, _, _). absurd (n refl))
  loaded_iff v c file_read = (
    λ h. (λ e. cc, ((accepted v c).0 h).0, ((accepted v c).0 h).1),
    λ (_, same, u). (accepted v c).1 (same, u),
  )
  loaded_iff v c file_not_found = (
    λ h. (λ e. cc, ((accepted v c).0 h).0, ((accepted v c).0 h).1),
    λ (_, same, u). (accepted v c).1 (same, u),
  )

  -- `NewConfig` returns a configuration exactly if the file was read, or was not found, the returned
  -- configuration is made of what viper answers, and it is usable.
  pub new_config-configured :
      (library : Library) (c : Configuration)
      → (new_config floats library ≡ configured c) ↔ (
          ((library bindings defaults).read_in_config ≢ file_unreadable)
          × (assemble floats (library bindings defaults) ≡ c)
          × IsUsable c)
  unfolding new_config
  new_config-configured library c =
      loaded_iff (library bindings defaults) c (library bindings defaults).read_in_config
