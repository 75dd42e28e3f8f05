-- ===== src/Config/Usable.antt =====
-- What a usable configuration is, with proofs about the problems that `validateConfig` collects.
use gimme.Base.{
  ◌≤◌, Bytes, codes, text_eq, text_eq_iff, if◌then◌else◌, Bool, true, false, not, ◌&&◌, List, [],
  ◌∷◌, ◌++◌, length, is_positive, ◌≡◌, ◌≢◌, ◌⊎◌, inl, inr, refl, arith, Bool-cases,
}
use gimme.Config.{Configuration, Size}
use gimme.Config.Validate.{
  Problem, not_positive, not_supported, required_when, unset, when, size_problem, is_mode, basic,
  oidc_mode, file_mode, redis_mode, postgres_mode, admin_problems, secret_problems, s3_problems,
  upload_problems, cache_problems, store_problems, auth_problems, problems_of,
}

abbrev pub IsPositiveSize : Size → Type 0
IsPositiveSize s = (s.failed ≡ false) × (is_positive s.bytes ≡ true)

-- Basic authentication with credentials, or a provider that is named in full.
abbrev pub UsableAuth : Configuration → Type 0
UsableAuth c =
    (c.auth.mode ≡ basic) × (c.admin_user ≢ []) × (c.admin_password ≢ [])
    ⊎ (c.auth.mode ≡ oidc_mode)
      × (c.auth.oidc.issuer ≢ [])
      × (c.auth.oidc.client_id ≢ [])
      × (c.auth.oidc.redirect_url ≢ [])

-- What the code asks of a configuration, by the parts that it belongs to.
pub record IsUsable (c : Configuration) : Type 0 where
  pub auth : UsableAuth c
  pub secret : 32 ≤ length c.secret
  pub s3 : (c.s3_url ≢ []) × (c.s3_key ≢ []) × (c.s3_secret ≢ []) × (c.s3_location ≢ [])
  pub max_size : IsPositiveSize c.upload.max_size
  pub max_uncompressed_size : IsPositiveSize c.upload.max_uncompressed_size
  pub max_entries : is_positive c.upload.max_entries ≡ true
  pub cache : c.cache.enabled ≡ true → (c.cache.type ≡ redis_mode) × (c.redis_url ≢ [])
  pub token_store :
      (c.token_store.mode ≡ file_mode)
      ⊎ (c.token_store.mode ≡ redis_mode) × (c.redis_url ≢ [])
      ⊎ (c.token_store.mode ≡ postgres_mode) × (c.token_store.postgres_url ≢ [])

append-nil : (xs ys : List Problem) → xs ++ ys ≡ [] → (xs ≡ []) × (ys ≡ [])
append-nil [] ys h = (refl, h)
append-nil (x ∷ xs) ys h = cc

when-nil : (b : Bool) (p : Problem) → when b p ≡ [] → b ≡ false
when-nil true p h = cc
when-nil false p h = refl

set_of : (s : Bytes) → unset s ≡ false → s ≢ []
unfolding text_eq
set_of [] h = cc
set_of (c ∷ s) h = λ e. cc

pub unset_of : (s : Bytes) → s ≢ [] → unset s ≡ false
unfolding text_eq
unset_of [] h = absurd (h refl)
unset_of (c ∷ s) h = refl

on_of_negation : (b : Bool) → not b ≡ false → b ≡ true
on_of_negation true h = refl
on_of_negation false h = cc

negation_of_off : (b : Bool) → b ≡ false → not b ≡ true
negation_of_off true h = cc
negation_of_off false h = refl

s3_problems-nil :
    (c : Configuration)
    → s3_problems c ≡ []
    → (c.s3_url ≢ []) × (c.s3_key ≢ []) × (c.s3_secret ≢ []) × (c.s3_location ≢ [])
unfolding s3_problems
s3_problems-nil c h =
    let (a, b) = append-nil _ _ h in
    let (d, e) = append-nil _ _ b in
    let (f, g) = append-nil _ _ e in
    (
      set_of c.s3_url (when-nil _ _ a),
      set_of c.s3_key (when-nil _ _ d),
      set_of c.s3_secret (when-nil _ _ f),
      set_of c.s3_location (when-nil _ _ g),
    )

secret_problems-nil : (c : Configuration) → secret_problems c ≡ [] → 32 ≤ length c.secret
unfolding secret_problems
secret_problems-nil c h = ground arith

size_problem-nil : (key : Bytes) (s : Size) → size_problem key s ≡ [] → IsPositiveSize s
unfolding size_problem
size_problem-nil key s h = ground arith

upload_problems-nil :
    (c : Configuration)
    → upload_problems c ≡ []
    → IsPositiveSize c.upload.max_size
      × IsPositiveSize c.upload.max_uncompressed_size
      × (is_positive c.upload.max_entries ≡ true)
unfolding upload_problems
upload_problems-nil c h =
    let (a, b) = append-nil _ _ h in
    let (d, e) = append-nil _ _ b in
    (
      size_problem-nil (codes "upload.max_size") c.upload.max_size a,
      size_problem-nil (codes "upload.max_uncompressed_size") c.upload.max_uncompressed_size d,
      on_of_negation _
          (when-nil _ (not_positive (codes "upload.max_entries") c.upload.max_entries) e),
    )

then_nil : (b : Bool) (xs ys : List Problem) → (if b then xs else ys) ≡ [] → b ≡ true → xs ≡ []
then_nil true xs ys h e = h
then_nil false xs ys h e = cc

else_nil : (b : Bool) (xs ys : List Problem) → (if b then xs else ys) ≡ [] → b ≡ false → ys ≡ []
else_nil true xs ys h e = cc
else_nil false xs ys h e = h

mode_is : (name mode : Bytes) → is_mode name mode ≡ true → mode ≡ name
mode_is name mode h = (text_eq_iff mode name).0 h

cache_problems-nil :
    (c : Configuration)
    → cache_problems c ≡ []
    → c.cache.enabled ≡ true
    → (c.cache.type ≡ redis_mode) × (c.redis_url ≢ [])
unfolding cache_problems
cache_problems-nil c h on =
    let (a, b) = append-nil _ _ (then_nil c.cache.enabled _ [] h on) in
    (
      mode_is redis_mode c.cache.type (on_of_negation _ (when-nil _ _ a)),
      set_of c.redis_url (when-nil _ _ b),
    )

and_left : (a b : Bool) → (a && b) ≡ false → a ≡ true → b ≡ false
and_left true b h e = h
and_left false b h e = cc

store_problems-nil :
    (c : Configuration)
    → store_problems c ≡ []
    → (c.token_store.mode ≡ file_mode)
      ⊎ (c.token_store.mode ≡ redis_mode) × (c.redis_url ≢ [])
      ⊎ (c.token_store.mode ≡ postgres_mode) × (c.token_store.postgres_url ≢ [])
unfolding store_problems
store_problems-nil c h =
    let mode = c.token_store.mode in
    let (a, b) = append-nil _ _ h in
    let (d, e) = append-nil _ _ b in
    let known =
      when-nil
        (not (is_mode file_mode mode)
          && (not (is_mode redis_mode mode) && not (is_mode postgres_mode mode)))
        (not_supported (codes "tokenStore.mode") mode) a in
    let redis =
      when-nil (is_mode redis_mode mode && unset c.redis_url)
        (required_when (codes "redis_url") (codes "tokenStore.mode")) d in
    let postgres =
      when-nil (is_mode postgres_mode mode && unset c.token_store.postgres_url)
        (required_when (codes "tokenStore.pg_url") (codes "tokenStore.mode")) e in
    elim (Bool-cases (is_mode file_mode mode)) [
      | inl f ↦ inl (mode_is file_mode mode f)
      | inr f ↦ elim (Bool-cases (is_mode redis_mode mode)) [
        | inl r ↦ inr (inl (mode_is redis_mode mode r, set_of c.redis_url (and_left _ _ redis r)))
        | inr r ↦
            let p : is_mode postgres_mode mode ≡ true = on_of_negation _ (
              and_left (not (is_mode redis_mode mode)) _
                (and_left (not (is_mode file_mode mode)) _ known (negation_of_off _ f))
                (negation_of_off _ r)) in
            inr (
              inr (
                mode_is postgres_mode mode p,
                set_of c.token_store.postgres_url (and_left _ _ postgres p),
              ))
      ]
    ]

auth_nil : (c : Configuration) → admin_problems c ≡ [] → auth_problems c ≡ [] → UsableAuth c
unfolding admin_problems auth_problems
auth_nil c h k = elim (Bool-cases (is_mode basic c.auth.mode)) [
  | inl q ↦
      let (a, b) = append-nil _ _ (then_nil (is_mode basic c.auth.mode) _ [] h q) in
      inl (
        mode_is basic c.auth.mode q,
        set_of c.admin_user (when-nil _ _ a),
        set_of c.admin_password (when-nil _ _ b),
      )
  | inr q ↦
      let rest = else_nil (is_mode basic c.auth.mode) [] _ k q in
      elim (Bool-cases (is_mode oidc_mode c.auth.mode)) [
        | inr r ↦ absurd (cc (else_nil (is_mode oidc_mode c.auth.mode) _ (_ ∷ []) rest r))
        | inl r ↦
            let (a, b) = append-nil _ _ (then_nil (is_mode oidc_mode c.auth.mode) _ _ rest r) in
            let (d, e) = append-nil _ _ b in
            inr (
              mode_is oidc_mode c.auth.mode r,
              set_of c.auth.oidc.issuer (when-nil _ _ a),
              set_of c.auth.oidc.client_id (when-nil _ _ d),
              set_of c.auth.oidc.redirect_url (when-nil _ _ e),
            )
      ]
]

pub problems_of-nil : (c : Configuration) → problems_of c ≡ [] → IsUsable c
unfolding problems_of
problems_of-nil c h =
    let (admin, h1) = append-nil _ _ h in
    let (secret, h2) = append-nil _ _ h1 in
    let (s3, h3) = append-nil _ _ h2 in
    let (upload, h4) = append-nil _ _ h3 in
    let (cache, h5) = append-nil _ _ h4 in
    let (store, auth) = append-nil _ _ h5 in
    let (size, expanded, entries) = upload_problems-nil c upload in
    record {
      auth = auth_nil c admin auth;
      secret = secret_problems-nil c secret;
      s3 = s3_problems-nil c s3;
      max_size = size;
      max_uncompressed_size = expanded;
      max_entries = entries;
      cache = cache_problems-nil c cache;
      token_store = store_problems-nil c store;
    }
