-- ===== src/Content/Coherent.antt =====
-- Proofs about `GetFile` with its cache.
use gimme.Base.{
  Bytes, text_eq, Bool, true, not, ◌||◌, List, none, some, ◌≡◌, inl, inr, refl, sym, ap, ◌∙◌,
  Bool-cases, Option-cases,
}
use gimme.Errors.{ok, err, business_error, bad_request, asked_version}
use gimme.Version.{latest, with_v, is_pinned_version}
use gimme.Content.{Encoding}
use gimme.Content.Upload.{Service}
use gimme.Content.Serve.{
  CacheManager, Answer, cache_key, get_encoded_object, resolved_path, remembered, through, get_file,
}
use gimme.Content.Cached.{CacheLaws}

module _ {W Object C : Type 0} (svc : Service W Object) (stat_ok : Object → W → Bool)
    (manager : CacheManager C) (is_text : Bytes → Bool) (laws : CacheLaws is_text manager) where
  remembered-again :
      (key path file : Bytes) (accepted : List Encoding) (w : W) (c : C)
      (a : Answer svc stat_ok (some manager))
      → get_encoded_object svc stat_ok (some manager) path file accepted w ≡ a
      → is_text path ≡ true
      → manager.get key c ≡ none
      → (through svc stat_ok
          (some manager)
          manager
          key
          path
          file
          accepted
          w
          (remembered svc stat_ok (some manager) manager key path a c).1).0
        ≡ (remembered svc stat_ok (some manager) manager key path a c).0
  remembered-again key path file accepted w c (err e) h clean miss = rw (miss, h, through) refl
  remembered-again key path file accepted w c (ok a) h clean miss =
      elim (laws.get-set key path c clean) [
        | inl put ↦ rw (put, through) h
        | inr kept ↦ rw (kept ∙ miss, h, through) refl
      ]

  through-again :
      (key path file : Bytes) (accepted : List Encoding) (w : W) (c : C)
      → is_text path ≡ true
      → (through svc stat_ok
          (some manager)
          manager
          key
          path
          file
          accepted
          w
          (through svc stat_ok (some manager) manager key path file accepted w c).1).0
        ≡ (through svc stat_ok (some manager) manager key path file accepted w c).0
  through-again key path file accepted w c clean = elim (Option-cases (manager.get key c)) [
    | inl miss ↦
        let a = get_encoded_object svc stat_ok (some manager) path file accepted w in
        let shape : through svc stat_ok (some manager) manager key path file accepted w c
            ≡ remembered svc stat_ok (some manager) manager key path a c =
          rw (miss, through) in
        rw shape (remembered-again key path file accepted w c a refl clean miss)
    | inr (cached, hit) ↦
        let shape : through svc stat_ok (some manager) manager key path file accepted w c
            ≡ (get_encoded_object svc stat_ok (some manager) cached file accepted w, c) =
          rw (hit, through) in
        rw (shape, hit, through) refl
  ]

  -- What a request computes from the cache.
  abbrev Asked : Type 0
  Asked = C → Answer svc stat_ok (some manager) × C

  again-of :
      (ask known : Asked)
      → ((d : C) → ask d ≡ known d)
      → ((d : C) → (known (known d).1).0 ≡ (known d).0)
      → (c : C) → (ask (ask c).1).0 ≡ (ask c).0
  again-of ask known same stable c =
      ap (λ (x : Answer svc stat_ok (some manager) × C). x.0) (same (ask c).1)
      ∙ ap (λ (x : Answer svc stat_ok (some manager) × C). (known x.1).0) (same c)
      ∙ stable c
      ∙ ap (λ (x : Answer svc stat_ok (some manager) × C). x.0) (sym (same c))

  -- With the laws of the cache, whose calls may fail: a request whose resolved path an entry can hold,
  -- when it is repeated against an unchanged store, gets the answer it got, an error included, whatever
  -- the cache held before.
  pub get_file-again :
      (pkg version file : Bytes) (accepted : List Encoding) (w : W) (c : C)
      → is_text (resolved_path svc stat_ok (some manager) pkg version file w) ≡ true
      → (get_file svc stat_ok
          (some manager)
          pkg
          version
          file
          accepted
          w
          (get_file svc stat_ok (some manager) pkg version file accepted w c).1).0
        ≡ (get_file svc stat_ok (some manager) pkg version file accepted w c).0
  unfolding get_file
  get_file-again pkg version file accepted w c clean =
      let ask : Asked = get_file svc stat_ok (some manager) pkg version file accepted w in
      let key = cache_key svc stat_ok (some manager) pkg version file in
      let path = resolved_path svc stat_ok (some manager) pkg version file w in
      elim (Bool-cases (not (text_eq version latest || svc.semver.is_semver (with_v version)))) [
        | inl q ↦
            again-of ask (λ d. (business_error bad_request asked_version, d))
              (λ d. rw (q, get_file)) (λ d. refl) c
        | inr q ↦ elim (Bool-cases (is_pinned_version svc.semver version)) [
          | inl pinned ↦
              again-of ask
                (λ d. (get_encoded_object svc stat_ok (some manager) key file accepted w, d))
                (λ d. rw (q, pinned, get_file)) (λ d. refl) c
          | inr free ↦
              again-of ask (through svc stat_ok (some manager) manager key path file accepted w)
                (λ d. rw (q, free, get_file)) (λ d. through-again key path file accepted w d clean)
                c
        ]
      ]
