-- ===== src/Auth.antt =====
-- internal/auth/auth-manager.go: API tokens are random strings, known to the store by the hash of the
-- text. SHA-256 (as its 32 bytes), the random bytes, the UUIDs, the clock and time.Parse are
-- parameters.
pub mod Laws
pub mod Revocation
pub mod Sweeps
pub mod AnyStore
pub mod Oidc
pub mod Provider
pub mod Tests
mod StoreTests
mod SweepTests
use gimme.Base.{
  ℕ, suc, ◌+◌, ◌*◌, ◌/◌, ◌%◌, Bytes, codes, ltb, leb, text_eq, if◌then◌else◌, Bool, true, false,
  ◌&&◌, List, [], ◌∷◌, ◌++◌, Option, none, some, length,
}
use gimme.Strings.{split_two, equal_fold}
use gimme.Errors.{
  Result, ok, err, GimmeError, business_error, bad_request, internal_error, bad_date_format,
  past_date, token_generation, token_saving, ◌>>=◌,
}
use gimme.Tokens.{Time, TokenEntry, TokenStore, is_valid}

abbrev pub token_prefix : Bytes
token_prefix = codes "gim_"

abbrev hex_digit : ℕ → ℕ
hex_digit d = if ltb d 10 then b'0' + d else b'W' + d

-- hex.EncodeToString
unfoldable pub hex : Bytes → Bytes
hex [] = []
hex (b ∷ bs) = hex_digit (b / 16) ∷ hex_digit (b % 16) ∷ hex bs

-- What one call of `CreateToken` draws from its surroundings: the clock at the check of the expiry
-- and at the creation, the random bytes (`none` if reading them fails), and the identifier.
pub record Draw : Type 0 where
  pub now : Time
  pub created : Time
  pub random : Option Bytes
  pub uuid : Bytes

-- 90 days.
abbrev pub default_lifetime : Time
default_lifetime = 90 * 24 * 3600 * 1000000000

abbrev bearer : List Bytes → Bytes
bearer (scheme ∷ token ∷ []) = if equal_fold scheme (codes "Bearer") then token else []
bearer _ = []

unfoldable pub extract_token : Bytes → Bytes
unfolding split_two equal_fold
extract_token header = bearer (split_two header b' ')

unfoldable pub revoke_token : {S : Type 0} → TokenStore S → Time → Bytes → S → Bool × S
revoke_token store now id s = store.revoke now id s

unfoldable pub list_tokens : {S : Type 0} → TokenStore S → S → List TokenEntry
list_tokens store s = store.list s

module _ (sha256 : Bytes → Bytes) where
  unfoldable pub hash_token : Bytes → Bytes
  unfolding hex
  hash_token raw = hex (sha256 raw)

  -- `generateOpaqueToken`: the raw token and its hash.
  unfoldable pub generate_opaque_token : Option Bytes → Option (Bytes × Bytes)
  unfolding hash_token
  generate_opaque_token none = none
  generate_opaque_token (some buf) =
      some (token_prefix ++ hex buf, hash_token (token_prefix ++ hex buf))

  -- The expiry that a request asks for.
  unfoldable pub expiry : (Bytes → Option Time) → Time → Bytes → Result Time
  expiry parse_date now [] = ok (now + default_lifetime)
  expiry parse_date now (c ∷ date) = elim (parse_date (c ∷ date)) [
    | none ↦ business_error bad_request bad_date_format
    | some end ↦ if leb end now then business_error bad_request past_date else ok end
  ]

  unfoldable pub new_entry : Draw → Bytes → Time → Bytes → TokenEntry
  new_entry draw name expires_at hash = record {
    id = draw.uuid;
    name = name;
    token_hash = hash;
    created_at = draw.created;
    expires_at = expires_at;
    revoked_at = 0;
  }

  module _ {S : Type 0} (store : TokenStore S) where
    abbrev keep_token : TokenEntry → Bytes → Bool × S → Result (TokenEntry × Bytes) × S
    keep_token e raw (true, s) = (ok (e, raw), s)
    keep_token e raw (false, s) = (business_error internal_error token_saving, s)

    issue : Draw → Bytes → S → Time → Result (TokenEntry × Bytes) × S
    issue draw name s expires_at = elim (generate_opaque_token draw.random) [
      | none ↦ (business_error internal_error token_generation, s)
      | some (raw, hash) ↦
          let e = new_entry draw name expires_at hash in keep_token e raw (store.save e s)
    ]

    abbrev issue_if : Draw → Bytes → S → Result Time → Result (TokenEntry × Bytes) × S
    issue_if draw name s (err e) = (err e, s)
    issue_if draw name s (ok expires_at) = issue draw name s expires_at

    -- The entry comes with the raw token, which is not stored.
    unfoldable pub create_token :
        (Bytes → Option Time) → Draw → Bytes → Bytes → S → Result (TokenEntry × Bytes) × S
    unfolding generate_opaque_token expiry new_entry issue
    create_token parse_date draw name expiration_date s =
        issue_if draw name s (expiry parse_date draw.now expiration_date)

    abbrev pub admits : Time → Option TokenEntry → Bool
    admits now none = false
    admits now (some e) = is_valid now e

    -- `AuthenticateMiddleware`: `true` goes on to the handler, `false` answers 401 and aborts.
    unfoldable pub authenticate : Time → Bytes → S → Bool
    unfolding extract_token hash_token text_eq is_valid
    authenticate now header s =
        let raw = extract_token header in
        if text_eq raw [] then false else admits now (store.get_by_hash (hash_token raw) s)

    -- The store after `AuthenticateMiddleware`, which looks a token up.
    unfoldable pub after_lookup : Bytes → S → S
    unfolding extract_token hash_token text_eq
    after_lookup header s =
        let raw = extract_token header in
        if text_eq raw [] then s else store.looked_up (hash_token raw) s
