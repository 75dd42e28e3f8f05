-- ===== src/Application/Laws.antt =====
-- Proofs about what the server is built of.
use gimme.Base.{
  text_eq, text_eq_iff, if◌then◌else◌, Bool, true, false, [], Option, none, some, is_positive, ◌≡◌,
  ◌≢◌, ◌⊎◌, inl, inr, refl, subst,
}
use gimme.Config.{Configuration}
use gimme.Config.Validate.{is_mode, redis_mode, postgres_mode}
use gimme.Config.Usable.{IsUsable}
use gimme.Application.{
  Surroundings, redis_failed, postgres_failed, file_store_failed, storage_failed, Startup, fatal,
  ready, ◌>>=◌, required, StoreChoice, redis_store, postgres_store, file_store, Modules,
  configure_token_store, configure_auth_provider, connect_redis, modules_of, load_modules,
  opened_file_store, opened_pg_store, with_bucket,
}
use gimme.Tokens.Files.{derive_aes_key}
use gimme.Persistence.{new_redis_client, new_pg_client}
use gimme.Storage.{new_object_storage_manager, create_bucket}
use gimme.Tokens.Postgres.{new_pg_token_store}

ready_injective {ℓ} : {A : Type ℓ} {a b : A} → ready a ≡ ready b → a ≡ b
ready_injective h = cc

-- A start that is ready has a first step that is ready.
>>=-ready {ℓ μ} :
    {X : Type ℓ} {Y : Type μ} (first : Startup X) (next : X → Startup Y) {y : Y}
    → (first >>= next) ≡ ready y
    → (x : X) × (first ≡ ready x) × (next x ≡ ready y)
>>=-ready (fatal f) next h = cc
>>=-ready (ready x) next h = (x, refl, h)

if_ready {ℓ} :
    {A : Type ℓ} (b : Bool) (x y : Startup A) {a : A}
    → (if b then x else y) ≡ ready a
    → (b ≡ true) × (x ≡ ready a) ⊎ (b ≡ false) × (y ≡ ready a)
if_ready true x y h = inl (refl, h)
if_ready false x y h = inr (refl, h)

module _ {Redis Postgres W Object : Type 0} (out : Surroundings Redis Postgres W Object) where
  connect_redis-some :
      (c : Configuration) (redis : Option Redis)
      → c.redis_url ≢ []
      → connect_redis out c ≡ ready redis
      → redis ≢ none
  connect_redis-some c redis set h = elim (if_ready (text_eq c.redis_url []) (ready none) _ h) [
    | inl (q, _) ↦ absurd (set ((text_eq_iff c.redis_url []).0 q))
    | inr (_, made) ↦
        let (r, _, same) =
          >>=-ready
            (required redis_failed
              (new_redis_client out.parse_redis_url out.new_client out.ping_redis c.redis_url))
            (λ r. ready (some r)) made in
        λ e. cc (same, e)
  ]

  redis_url_set :
      (c : Configuration) → IsUsable c → c.token_store.mode ≡ redis_mode → c.redis_url ≢ []
  redis_url_set c u mode = elim u.token_store [
    | inl file ↦ absurd (cc (file, mode))
    | inr rest ↦ elim rest [ inl (_, set) ↦ set | inr (pg, _) ↦ absurd (cc (pg, mode)) ]
  ]

  cache_over_nil :
      (on : Bool) (redis : Option Redis)
      → (if on then some redis else none) ≡ some none
      → (on ≡ true) × (redis ≡ none)
  cache_over_nil true redis h = (refl, cc)
  cache_over_nil false redis h = cc

  opened_pg_store-postgres :
      (x : Bool × Postgres) (store : StoreChoice out)
      → opened_pg_store out x ≡ ready store
      → (pg : Postgres) × (store ≡ postgres_store pg)
  opened_pg_store-postgres (true, pg) store h = (pg, cc)
  opened_pg_store-postgres (false, pg) store h = cc

  -- A store of Redis stands for the mode `redis`, and has the client that was made.
  configure_token_store-redis :
      (c : Configuration) (redis : Option Redis) (store : StoreChoice out)
      → configure_token_store out c redis ≡ ready store
      → store ≡ redis_store none
      → (c.token_store.mode ≡ redis_mode) × (redis ≡ none)
  unfolding configure_token_store
  configure_token_store-redis c redis store h e =
      elim (if_ready (is_mode redis_mode c.token_store.mode) (ready (redis_store redis)) _ h) [
        | inl (q, made) ↦ ((text_eq_iff c.token_store.mode redis_mode).0 q, cc (made, e))
        | inr (_, later) ↦ elim (if_ready (is_mode postgres_mode c.token_store.mode) _ _ later) [
          | inr (_, made) ↦ absurd (
              let (s, _, same) =
                >>=-ready
                  (required file_store_failed
                    (opened_file_store out c.token_file (derive_aes_key out.hkdf c.secret)))
                  (λ s. ready (file_store s)) made in
              cc (same, e))
          | inl (_, made) ↦ absurd (
              let (pg, _, opened) =
                >>=-ready
                  (required postgres_failed
                    (new_pg_client out.new_pool out.ping_pg c.token_store.postgres_url))
                  (λ pg. opened_pg_store out (new_pg_token_store out.pool pg)) made in
              let (pg', same) = opened_pg_store-postgres _ store opened in cc (same, e))
        ]
      ]

  -- From a configuration that is usable, the modules that are loaded have no store and no cache over a
  -- Redis client that is missing, and limits of uploads that are all above zero.
  pub load_modules-Usable :
      (c : Configuration) (m : Modules out)
      → IsUsable c
      → load_modules out c ≡ ready m
      → (m.token_store ≢ redis_store none)
        × (m.cache_manager ≢ some none)
        × (is_positive m.limits.max_size ≡ true)
        × (is_positive m.limits.max_entries ≡ true)
        × (is_positive m.limits.max_uncompressed_size ≡ true)
  unfolding load_modules
  load_modules-Usable c m u h =
      let (redis, connected, h1) = >>=-ready (connect_redis out c) _ h in
      let (store, configured, h2) = >>=-ready (configure_token_store out c redis) _ h1 in
      let (provider, _, h3) = >>=-ready (configure_auth_provider out c) _ h2 in
      let (client, _, h4) =
        >>=-ready (required storage_failed (out.new_minio c.s3_url c.s3_key c.s3_secret c.s3_ssl)) _
          h3 in
      let (storage, _, h5) =
        >>=-ready
          (with_bucket out client (
            create_bucket client c.s3_bucket_name c.s3_location new_object_storage_manager
              out.objects))
          _ h4 in
      let built : modules_of out c redis store provider storage ≡ m = ready_injective h5 in
      subst
        (λ (x : Modules out).
          (x.token_store ≢ redis_store none)
          × (x.cache_manager ≢ some none)
          × (is_positive x.limits.max_size ≡ true)
          × (is_positive x.limits.max_entries ≡ true)
          × (is_positive x.limits.max_uncompressed_size ≡ true))
        built
        (
          (λ e.
              let (mode, missing) = configure_token_store-redis c redis store configured e in
              connect_redis-some c redis (redis_url_set c u mode) connected missing),
          (λ e.
              let (on, missing) = cache_over_nil c.cache.enabled redis e in
              connect_redis-some c redis (u.cache on).1 connected missing),
          u.max_size.1,
          u.max_entries,
          u.max_uncompressed_size.1,
        )
