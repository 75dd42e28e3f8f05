-- ===== src/Auth/Laws.antt =====
-- Proofs about `CreateToken` and `AuthenticateMiddleware` of internal/auth/auth-manager.go.
use gimme.Base.{
  ◌<◌, ◌≤◌, Bytes, codes, text_eq, text_eq_iff, text_eq_refl, Bool, true, false, [], ◌∷◌, ◌++◌,
  Option, some, ◌≡◌, ◌≢◌, refl, sym, ap, ◌∙◌, arith, Option-cases, Bool-cases, inl, inr,
}
use gimme.Errors.{Result, ok, Result-cases}
use gimme.Tokens.{Time, TokenEntry, is_valid}
use gimme.Tokens.Files.{Codec}
use gimme.Tokens.FileStore.{FileTokenStore, get_by_hash, put, file_store, save}
use gimme.Tokens.Steps.{Known}
use gimme.Tokens.Views.{get_by_hash-put, get_by_hash-HashLinked, get_by_hash_known}
use gimme.Tokens.Reach.{Valid, maps-save}
use gimme.Auth.{
  Draw, token_prefix, hex, hash_token, generate_opaque_token, expiry, new_entry, create_token,
  issue, keep_token, extract_token, admits, authenticate,
}

module _ (codec : Codec) (sha256 : Bytes → Bytes) where
  -- What a successful `CreateToken` has done.
  record Issued (draw : Draw) (s : FileTokenStore) (e : TokenEntry) (raw : Bytes)
      (s' : FileTokenStore) : Type 0 where
    hashed : e.token_hash ≡ hash_token sha256 raw
    unrevoked : e.revoked_at ≡ 0
    prefixed : (body : Bytes) × (raw ≡ token_prefix ++ body)
    stored : s' ≡ (save codec e s).1

  keep_token-ok :
      (e f : TokenEntry) (raw raw' : Bytes) (r : Bool × FileTokenStore) (s' : FileTokenStore)
      → keep_token sha256 (file_store codec) e raw r ≡ (ok (f, raw'), s')
      → (e ≡ f) × (raw ≡ raw') × (r.1 ≡ s')
  keep_token-ok e f raw raw' (true, s) s' h = (cc, cc, cc)
  keep_token-ok e f raw raw' (false, s) s' h =
      absurd (cc (ap (λ (x : Result (TokenEntry × Bytes) × FileTokenStore). x.0) h))

  issue-Issued :
      (draw : Draw) (name : Bytes) (expires_at : Time) (s s' : FileTokenStore) (e : TokenEntry)
      (raw : Bytes)
      → issue sha256 (file_store codec) draw name s expires_at ≡ (ok (e, raw), s')
      → Issued draw s e raw s'
  unfolding issue generate_opaque_token new_entry
  issue-Issued draw name expires_at s s' e raw h = elim (Option-cases draw.random) [
    | inl q ↦
        absurd
          (cc (ap (λ (x : Result (TokenEntry × Bytes) × FileTokenStore). x.0) (rw (q, issue) at h)))
    | inr (buf, q) ↦
        let raw' : Bytes = token_prefix ++ hex buf in
        let made = new_entry sha256 draw name expires_at (hash_token sha256 raw') in
        let (same, same_raw, state) =
          keep_token-ok made e raw' raw (save codec made s) s' (rw (q, issue) at h) in
        rw (← same, ← same_raw, ← state)
          (record { hashed = refl; unrevoked = refl; prefixed = (hex buf, refl); stored = refl })
  ]

  abbrev pub bearer_header : Bytes → Bytes
  bearer_header raw = codes "Bearer" ++ (b' ' ∷ raw)

  extract_token-bearer : (raw : Bytes) → extract_token (bearer_header raw) ≡ raw
  unfolding extract_token
  extract_token-bearer raw = refl

  abbrev pub admitted : Time → Bytes → FileTokenStore → Bool
  admitted = authenticate sha256 (file_store codec)

  -- The entry that a header's token leads to.
  abbrev pub entry_behind : Bytes → FileTokenStore → Option TokenEntry
  entry_behind header s = get_by_hash (hash_token sha256 (extract_token header)) s.maps

  pub authenticate-eq :
      (now : Time) (header : Bytes) (s : FileTokenStore)
      → text_eq (extract_token header) [] ≡ false
      → admitted now header s ≡ admits sha256 (file_store codec) now (entry_behind header s)
  unfolding authenticate
  authenticate-eq now header s h = rw (h, authenticate)

  pub authenticate_invalid :
      (now : Time) (header : Bytes) (s : FileTokenStore)
      → admits sha256 (file_store codec) now (entry_behind header s) ≡ false
      → admitted now header s ≡ false
  unfolding authenticate
  authenticate_invalid now header s h = elim (Bool-cases (text_eq (extract_token header) [])) [
    | inl q ↦ rw (q, authenticate)
    | inr q ↦ authenticate-eq now header s q ∙ h
  ]

  valid_of :
      (now : Time) (e : TokenEntry) → e.revoked_at ≡ 0 → now ≤ e.expires_at → is_valid now e ≡ true
  unfolding is_valid
  valid_of now e h k = ground arith

  pub revoked_invalid :
      (now t : Time) (e : TokenEntry) → 0 < t → is_valid now (record e { revoked_at = t }) ≡ false
  unfolding is_valid
  revoked_invalid now t e h = ground arith

  prefixed-ne-nil : (body : Bytes) → text_eq (token_prefix ++ body) [] ≡ false
  unfolding text_eq
  prefixed-ne-nil body = refl

  -- From a valid store, a token that `CreateToken` hands out is admitted as a bearer token as long as
  -- its entry has not expired.
  pub authenticate-create_token :
      (parse_date : Bytes → Option Time) (draw : Draw) (name date : Bytes) (s s' : FileTokenStore)
      (e : TokenEntry) (raw : Bytes) (now : Time)
      → Valid s
      → create_token sha256 (file_store codec) parse_date draw name date s ≡ (ok (e, raw), s')
      → now ≤ e.expires_at
      → admitted now (bearer_header raw) s' ≡ true
  unfolding create_token
  authenticate-create_token parse_date draw name date s s' e raw now c h k =
      elim (Result-cases (expiry sha256 parse_date draw.now date)) [
        | inl (end, q) ↦
            let i = issue-Issued draw name end s s' e raw (rw (q, create_token) at h) in
            let (body, shape) = i.prefixed in
            let stored : s'.maps ≡ put e s.maps =
              ap (λ (x : FileTokenStore). x.maps) i.stored ∙ maps-save codec s e in
            let token : extract_token (bearer_header raw) ≡ raw = extract_token-bearer raw in
            let found : get_by_hash (hash_token sha256 raw) (put e s.maps) ≡ some e =
              get_by_hash-put s.maps c e (hash_token sha256 raw)
              ∙ rw (← i.hashed, text_eq_refl e.token_hash) in
            let seen : entry_behind (bearer_header raw) s' ≡ some e =
              ap (λ x. get_by_hash (hash_token sha256 (extract_token (bearer_header raw))) x) stored
              ∙ ap (λ x. get_by_hash (hash_token sha256 x) (put e s.maps)) token
              ∙ found in
            let some_token : text_eq (extract_token (bearer_header raw)) [] ≡ false =
              ap (λ x. text_eq x []) (token ∙ shape) ∙ prefixed-ne-nil body in
            authenticate-eq now (bearer_header raw) s' some_token
            ∙ ap (admits sha256 (file_store codec) now) seen
            ∙ valid_of now e i.unrevoked k
        | inr (bad, q) ↦ absurd (
            cc (
              ap (λ (x : Result (TokenEntry × Bytes) × FileTokenStore). x.0)
                (rw (q, create_token) at h)))
      ]

  -- Admission looks at the store through the entry alone.
  pub admitted-congr :
      (now : Time) (header : Bytes) (s t : FileTokenStore)
      → entry_behind header s ≡ entry_behind header t
      → admitted now header s ≡ admitted now header t
  unfolding authenticate
  admitted-congr now header s t h = rw (h, authenticate)

  module _ (header : Bytes) (s : FileTokenStore) (c : Valid s) (id : Bytes)
      (k : Known s.maps id) where
    abbrev hash : Bytes
    hash = hash_token sha256 (extract_token header)

    pub hash_of_own :
        (e : TokenEntry)
        → entry_behind header s ≡ some e
        → e.id ≡ id
        → text_eq k.link.entry.token_hash hash ≡ true
    hash_of_own e seen own =
        let (q, _, cell, hashed, at) = get_by_hash-HashLinked s.maps c hash e seen in
        let one : k.link.entry ≡ e = cc (k.link.stored, cell, at, k.found, own) in
        (text_eq_iff _ _).1 (ap (λ (x : TokenEntry). x.token_hash) one ∙ hashed)

    pub hash_of_other :
        ((e : TokenEntry) → entry_behind header s ≡ some e → e.id ≢ id)
        → text_eq k.link.entry.token_hash hash ≡ false
    hash_of_other others = elim (Bool-cases (text_eq k.link.entry.token_hash hash)) [
      | inl q ↦
          let seen : entry_behind header s ≡ some k.link.entry =
            ap (λ x. get_by_hash x s.maps) (sym ((text_eq_iff _ _).0 q))
            ∙ get_by_hash_known s.maps c id k in
          absurd (others k.link.entry seen k.link.same_id)
      | inr q ↦ q
    ]
