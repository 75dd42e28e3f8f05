-- ===== src/Auth/Oidc.antt =====
-- internal/auth/oidc-provider.go: the login by an OIDC provider and the session cookie. The libraries
-- oauth2, go-oidc and jwt, the random bytes and the clock are parameters.
pub mod Laws
pub mod Handshake
pub mod Admission
pub mod Tests
use gimme.Base.{
  ℕ, ℤ, pos, negsuc, ◌+◌, ◌*◌, Bytes, codes, text_eq, ◌==◌, if◌then◌else◌, Bool, true, false, not,
  ◌&&◌, ◌||◌, List, [], ◌∷◌, ◌++◌, Option, none, some,
}
use gimme.Strings.{has_prefix, contains}
use gimme.Tokens.{Time}

-- `oidcClaims`, with the fields of jwt.RegisteredClaims that the code sets or reads.
pub record OidcClaims : Type 0 where
  pub email : Bytes
  pub name : Bytes
  pub issuer : Bytes
  pub audience : List Bytes
  pub subject : Bytes
  pub expires_at : Time
  pub issued_at : Time

-- The algorithm of a token: an HMAC, or any other.
pub data SigningMethod : Type 0 where
  hmac other_method : SigningMethod

-- `sign` is SignedString with HS256; `parse` is ParseWithClaims, which asks its function for the key
-- of an algorithm and answers with the claims and whether the token is valid.
pub record Jwt : Type 0 where
  pub numeric_date : Time → Time
  pub sign : Bytes → OidcClaims → Option Bytes
  pub parse : Bytes → (SigningMethod → Option Bytes) → Time → Option (OidcClaims × Bool)
  pub verify_issuer : OidcClaims → Bytes → Bool
  pub verify_audience : OidcClaims → Bytes → Bool

pub record IdToken : Type 0 where
  pub nonce : Bytes
  pub claims : Option OidcClaims

-- `exchange` answers with the text `id_token` of the token response, if the response has it.
pub record IdentityProvider : Type 0 where
  pub auth_code_url : Bytes → Bytes → Bytes
  pub exchange : Bytes → Option (Option Bytes)
  pub verify : Bytes → Option IdToken

pub record OidcProvider : Type 0 where
  pub identity : IdentityProvider
  pub jwt : Jwt
  pub signing_secret : Bytes
  pub secure_cookies : Bool

pub record Cookie : Type 0 where
  pub name : Bytes
  pub value : Bytes
  pub max_age : ℤ
  pub path : Bytes
  pub secure : Bool
  pub http_only : Bool
  pub lax : Bool

pub record Request : Type 0 where
  pub cookie : Bytes → Option Bytes
  pub query : Bytes → Bytes
  pub path : Bytes
  pub accept : Bytes

pub data Answer : Type 0 where
  json_error : ℕ → Bytes → Answer
  redirect : Bytes → Answer

-- The cookies that are set, in order, and the answer.
abbrev pub Reply : Type 0
Reply = List Cookie × Answer

abbrev pub session_cookie_name : Bytes
session_cookie_name = codes "gimme_session"

abbrev pub state_cookie_name : Bytes
state_cookie_name = codes "gimme_oidc_state"

abbrev pub nonce_cookie_name : Bytes
nonce_cookie_name = codes "gimme_oidc_nonce"

abbrev pub session_issuer : Bytes
session_issuer = codes "gimme"

abbrev pub session_audience : Bytes
session_audience = codes "gimme-admin"

abbrev pub session_seconds : ℕ
session_seconds = 8 * 3600

abbrev pub session_lifetime : Time
session_lifetime = session_seconds * 1000000000

abbrev pub cookie_is : Option Bytes → Bytes → Bool
cookie_is none s = false
cookie_is (some v) s = text_eq v s

-- What the middleware exposes to the handlers behind it.
pub record Identity : Type 0 where
  pub sub : Bytes
  pub email : Bytes
  pub name : Bytes

pub data Gate : Type 0 where
  next : Identity → Gate
  rejected : Answer → Gate

abbrev host_or : Bytes → Option Bytes → Bytes
host_or issuer none = issuer
host_or issuer (some h) = h

-- The warning of `warnIfInsecureCookies`; the host is what url.Parse finds, or else the issuer.
unfoldable pub warn_if_insecure_cookies : (Bytes → Option Bytes) → Bytes → Bool → Bool
unfolding text_eq
warn_if_insecure_cookies hostname issuer secure_cookies =
    let host = host_or issuer (hostname issuer) in
    if secure_cookies
    then false
    else not (text_eq host (codes "localhost"))
      && (not (text_eq host (codes "127.0.0.1")) && not (text_eq host (codes "::1")))

unfoldable pub reject_unauthenticated : Request → Answer
unfolding has_prefix contains
reject_unauthenticated r =
    if has_prefix r.path (codes "/tokens") || contains r.accept (codes "application/json")
    then json_error 401 (codes "unauthenticated")
    else redirect (codes "/auth/login")

-- What go-oidc and oauth2 make of an issuer, a client with its secret and a redirect, and the scopes;
-- `none` is a discovery that fails.
abbrev pub Discovery : Type 0
Discovery = Bytes → Bytes → Bytes → Bytes → List Bytes → Option IdentityProvider

abbrev pub scopes : List Bytes
scopes = codes "openid" ∷ codes "profile" ∷ codes "email" ∷ []

abbrev pub provider_with : Jwt → Bytes → Bool → Option IdentityProvider → Option OidcProvider
provider_with jwt signing_secret secure_cookies none = none
provider_with jwt signing_secret secure_cookies (some identity) = some (record {
  identity = identity;
  jwt = jwt;
  signing_secret = signing_secret;
  secure_cookies = secure_cookies;
})

unfoldable pub new_oidc_provider :
    Discovery → Jwt → Bytes → Bytes → Bytes → Bytes → Bytes → Bool → Option OidcProvider
new_oidc_provider discover jwt issuer client_id client_secret redirect_url signing_secret
      secure_cookies =
    provider_with jwt signing_secret secure_cookies
      (discover issuer client_id client_secret redirect_url scopes)

-- Sixteen random bytes, if they could be read, as URL-safe base64.
unfoldable pub generate_random_state : (Bytes → Bytes) → Option Bytes → Option Bytes
generate_random_state encode none = none
generate_random_state encode (some b) = some (encode b)

module _ (p : OidcProvider) where
  abbrev pub key_of : SigningMethod → Option Bytes
  key_of hmac = some p.signing_secret
  key_of other_method = none

  abbrev pub admitted : Request → Option (OidcClaims × Bool) → Gate
  admitted r none = rejected (reject_unauthenticated r)
  admitted r (some (claims, valid)) =
      if not valid
      then rejected (reject_unauthenticated r)
      else if not (p.jwt.verify_issuer claims session_issuer)
          || not (p.jwt.verify_audience claims session_audience)
      then rejected (reject_unauthenticated r)
      else next (record { sub = claims.subject; email = claims.email; name = claims.name })

  unfoldable pub login_middleware : Time → Request → Gate
  unfolding reject_unauthenticated
  login_middleware now r = elim (r.cookie session_cookie_name) [
    | none ↦ rejected (reject_unauthenticated r)
    | some cookie ↦ admitted r (p.jwt.parse cookie key_of now)
  ]

  abbrev pub session_claims : Bytes → Bytes → Bytes → Time → OidcClaims
  session_claims sub email name now = record {
    email = email;
    name = name;
    issuer = session_issuer;
    audience = session_audience ∷ [];
    subject = sub;
    expires_at = p.jwt.numeric_date (now + session_lifetime);
    issued_at = p.jwt.numeric_date now;
  }

  unfoldable pub issue_session_cookie : Bytes → Bytes → Bytes → Time → Option Bytes
  issue_session_cookie sub email name now =
      p.jwt.sign p.signing_secret (session_claims sub email name now)

  abbrev set_cookie : Bool → Bytes → Bytes → ℤ → Cookie
  set_cookie lax name value max_age = record {
    name = name;
    value = value;
    max_age = max_age;
    path = codes "/";
    secure = p.secure_cookies;
    http_only = true;
    lax = lax;
  }

  -- The two random texts; `none` is a failure to read random bytes.
  unfoldable pub handle_login : Option Bytes → Option Bytes → Reply
  handle_login none _ = ([], json_error 500 (codes "internal error"))
  handle_login (some state) none = ([], json_error 500 (codes "internal error"))
  handle_login (some state) (some nonce) = (
    set_cookie true state_cookie_name state (pos 300)
        ∷ set_cookie true nonce_cookie_name nonce (pos 300)
        ∷ [],
    redirect (p.identity.auth_code_url state nonce),
  )

  abbrev pub cleared : List Cookie
  cleared =
      set_cookie false state_cookie_name [] (negsuc 0)
      ∷ set_cookie false nonce_cookie_name [] (negsuc 0)
      ∷ []

  abbrev pub session_issued : Option Bytes → Reply
  session_issued none = (cleared, json_error 500 (codes "internal error"))
  session_issued (some jwt) = (
    cleared ++ (set_cookie true session_cookie_name jwt (pos session_seconds) ∷ []),
    redirect (codes "/admin"),
  )

  abbrev pub identified : Time → Option OidcClaims → Reply
  identified now none = (cleared, json_error 500 (codes "internal error"))
  identified now (some c) = session_issued (issue_session_cookie c.subject c.email c.name now)

  -- The cookie of the nonce is there, is not empty and is the nonce of the token.
  abbrev pub nonce_ok : Option Bytes → Bytes → Bool
  nonce_ok none nonce = false
  nonce_ok (some v) nonce = not (text_eq v []) && text_eq nonce v

  abbrev pub verified : Time → Option Bytes → Option IdToken → Reply
  verified now cookie none = (cleared, json_error 401 (codes "id_token verification failed"))
  verified now cookie (some t) =
      if nonce_ok cookie t.nonce
      then identified now t.claims
      else (cleared, json_error 400 (codes "invalid nonce"))

  abbrev pub exchanged : Time → Option Bytes → Option (Option Bytes) → Reply
  exchanged now cookie none = (cleared, json_error 502 (codes "token exchange failed"))
  exchanged now cookie (some none) = (cleared, json_error 500 (codes "id_token missing"))
  exchanged now cookie (some (some raw)) = verified now cookie (p.identity.verify raw)

  unfoldable pub handle_callback : Time → Request → Reply
  unfolding issue_session_cookie text_eq
  handle_callback now r =
      if cookie_is (r.cookie state_cookie_name) (r.query (codes "state"))
      then exchanged now (r.cookie nonce_cookie_name) (p.identity.exchange (r.query (codes "code")))
      else (cleared, json_error 400 (codes "invalid state"))
