-- ===== src/Auth/Oidc/Laws.antt =====
-- What is relied on of jwt, and proofs about the login.
use gimme.Base.{
  ◌≤◌, ◌<◌, ◌+◌, Bytes, codes, text_eq, text_eq_iff, text_eq_refl, if◌then◌else◌, Bool, true, false,
  List, [], ◌∷◌, Option, none, some, ◌≡◌, ◌≢◌, ◌↔◌, refl, sym, ap, Bool-cases, inl, inr,
}
use gimme.Tokens.{Time}
use gimme.Auth.Oidc.{
  OidcClaims, SigningMethod, hmac, Jwt, IdToken, OidcProvider, Cookie, Request, Reply,
  session_cookie_name, state_cookie_name, nonce_cookie_name, session_issuer, session_audience,
  session_lifetime, cookie_is, next, key_of, login_middleware, session_claims, issue_session_cookie,
  session_issued, identified, nonce_ok, verified, exchanged, handle_callback,
}

-- A signed token is valid for the key it was signed with, from its issue to its expiry, and its claims
-- are those signed; the issuer and the only audience of claims are recognised.
pub record JwtLaws (jwt : Jwt) : Type 0 where
  pub parse-sign :
      (secret text : Bytes) (c : OidcClaims) (key : SigningMethod → Option Bytes) (now : Time)
      → jwt.sign secret c ≡ some text
      → key hmac ≡ some secret
      → c.issued_at ≤ now
      → now < c.expires_at
      → jwt.parse text key now ≡ some (c, true)
  pub issuer :
      (c : OidcClaims) → c.issuer ≡ session_issuer → jwt.verify_issuer c session_issuer ≡ true
  pub audience :
      (c : OidcClaims)
      → c.audience ≡ session_audience ∷ []
      → jwt.verify_audience c session_audience ≡ true

-- The session that a reply's cookies carry.
abbrev pub session_in : List Cookie → Option Bytes
session_in [] = none
session_in (c ∷ cs) =
    let later = session_in cs in if text_eq c.name session_cookie_name then some c.value else later

-- Of two replies, only the first of which has a session, one with a session is the first.
chosen :
    (b : Bool) (x y : Reply) (jwt : Bytes)
    → session_in y.0 ≡ none
    → session_in (if b then x else y).0 ≡ some jwt
    → (b ≡ true) × (session_in x.0 ≡ some jwt)
chosen true x y jwt n h = (refl, h)
chosen false x y jwt n h = cc (n, h)

module _ (p : OidcProvider) where
  -- What has been checked when the session `jwt` is issued on a callback.
  pub record Proven (now : Time) (r : Request) (jwt : Bytes) : Type 0 where
    pub state : r.cookie state_cookie_name ≡ some (r.query (codes "state"))
    pub raw : Bytes
    pub exchange : p.identity.exchange (r.query (codes "code")) ≡ some (some raw)
    pub token : IdToken
    pub verify : p.identity.verify raw ≡ some token
    pub nonce : r.cookie nonce_cookie_name ≡ some token.nonce
    pub present : token.nonce ≢ []
    pub claims : OidcClaims
    pub extracted : token.claims ≡ some claims
    pub signed : issue_session_cookie p claims.subject claims.email claims.name now ≡ some jwt

  cookie_is-true : (o : Option Bytes) (s : Bytes) → cookie_is o s ≡ true → o ≡ some s
  cookie_is-true none s h = cc
  cookie_is-true (some v) s h = ap some ((text_eq_iff v s).0 h)

  nonce_ok-true : (o : Option Bytes) (s : Bytes) → nonce_ok p o s ≡ true → (o ≡ some s) × (s ≢ [])
  unfolding text_eq
  nonce_ok-true none s h = cc
  nonce_ok-true (some []) s h = cc
  nonce_ok-true (some (c ∷ v)) s h =
      let same = (text_eq_iff s (c ∷ v)).0 h in (ap some (sym same), λ e. cc (same, e))

  session_issued-session :
      (o : Option Bytes) (jwt : Bytes) → session_in (session_issued p o).0 ≡ some jwt → o ≡ some jwt
  unfolding text_eq
  session_issued-session none jwt h = cc
  session_issued-session (some s) jwt h = h

  identified-session :
      (now : Time) (o : Option OidcClaims) (jwt : Bytes)
      → session_in (identified p now o).0 ≡ some jwt
      → (c : OidcClaims) × (o ≡ some c)
        × (issue_session_cookie p c.subject c.email c.name now ≡ some jwt)
  unfolding text_eq
  identified-session now none jwt h = cc
  identified-session now (some c) jwt h = (c, refl, session_issued-session _ jwt h)

  verified-session :
      (now : Time) (cookie : Option Bytes) (o : Option IdToken) (jwt : Bytes)
      → session_in (verified p now cookie o).0 ≡ some jwt
      → (t : IdToken) × (o ≡ some t)
        × (nonce_ok p cookie t.nonce ≡ true)
        × (session_in (identified p now t.claims).0 ≡ some jwt)
  unfolding text_eq
  verified-session now cookie none jwt h = cc
  verified-session now cookie (some t) jwt h =
      let (ok, session) = chosen _ (identified p now t.claims) _ jwt refl h in
      (t, refl, ok, session)

  exchanged-session :
      (now : Time) (cookie : Option Bytes) (o : Option (Option Bytes)) (jwt : Bytes)
      → session_in (exchanged p now cookie o).0 ≡ some jwt
      → (raw : Bytes) × (o ≡ some (some raw))
        × (session_in (verified p now cookie (p.identity.verify raw)).0 ≡ some jwt)
  unfolding text_eq
  exchanged-session now cookie none jwt h = cc
  exchanged-session now cookie (some none) jwt h = cc
  exchanged-session now cookie (some (some raw)) jwt h = (raw, refl, h)

  session-Proven :
      (now : Time) (r : Request) (jwt : Bytes)
      → session_in (handle_callback p now r).0 ≡ some jwt
      → Proven now r jwt
  unfolding handle_callback text_eq
  session-Proven now r jwt h =
      let (state, h1) =
        chosen (cookie_is (r.cookie state_cookie_name) (r.query (codes "state")))
          (exchanged p now (r.cookie nonce_cookie_name)
            (p.identity.exchange (r.query (codes "code"))))
          _ jwt refl h in
      let (raw, exchange, h2) = exchanged-session now _ _ jwt h1 in
      let (token, verify, nonce, h3) = verified-session now _ _ jwt h2 in
      let (claims, extracted, signed) = identified-session now _ jwt h3 in
      let (same, present) = nonce_ok-true (r.cookie nonce_cookie_name) token.nonce nonce in
      record {
        state = cookie_is-true _ _ state;
        raw = raw;
        exchange = exchange;
        token = token;
        verify = verify;
        nonce = same;
        present = present;
        claims = claims;
        extracted = extracted;
        signed = signed;
      }

  nonce_ok-same : (o : Option Bytes) (s : Bytes) → o ≡ some s → s ≢ [] → nonce_ok p o s ≡ true
  nonce_ok-same o s h n = elim (Bool-cases (text_eq s [])) [
    | inl q ↦ absurd (n ((text_eq_iff s []).0 q))
    | inr q ↦ rw (h, q, text_eq_refl s) refl
  ]

  pub Proven-reply :
      (now : Time) (r : Request) (jwt : Bytes)
      → Proven now r jwt
      → handle_callback p now r ≡ session_issued p (some jwt)
  unfolding handle_callback text_eq
  Proven-reply now r jwt k =
      let state : cookie_is (r.cookie state_cookie_name) (r.query (codes "state")) ≡ true =
        rw (k.state) (text_eq_refl (r.query (codes "state"))) in
      let nonce = nonce_ok-same (r.cookie nonce_cookie_name) k.token.nonce k.nonce k.present in
      rw (state, k.exchange, k.verify, nonce, k.extracted, k.signed) refl

  Proven-session :
      (now : Time) (r : Request) (jwt : Bytes)
      → Proven now r jwt
      → session_in (handle_callback p now r).0 ≡ some jwt
  unfolding text_eq
  Proven-session now r jwt k = ap (λ x. session_in x.0) (Proven-reply now r jwt k)

  -- A callback answers with a session exactly if its state is the text in the state's cookie, the
  -- exchange of its code gives an ID token that verifies, the token's nonce is not empty and is the text
  -- in the nonce's cookie, and the session is the signature of the token's claims.
  pub handle_callback-Proven :
      (now : Time) (r : Request) (jwt : Bytes)
      → (session_in (handle_callback p now r).0 ≡ some jwt) ↔ Proven now r jwt
  handle_callback-Proven now r jwt = (session-Proven now r jwt, Proven-session now r jwt)

  pub login_middleware-issue_session_cookie :
      (laws : JwtLaws p.jwt) (sub email name jwt : Bytes) (now later : Time) (r : Request)
      → issue_session_cookie p sub email name now ≡ some jwt
      → r.cookie session_cookie_name ≡ some jwt
      → p.jwt.numeric_date now ≤ later
      → later < p.jwt.numeric_date (now + session_lifetime)
      → login_middleware p later r ≡ next (record { sub = sub; email = email; name = name })
  unfolding login_middleware issue_session_cookie
  login_middleware-issue_session_cookie laws sub email name jwt now later r signed brought after
        before =
      let c = session_claims p sub email name now in
      let valid =
        laws.parse-sign p.signing_secret jwt c (key_of p) later signed refl after before in
      rw (brought, login_middleware, valid, laws.issuer c refl, laws.audience c refl) refl

  -- If jwt keeps its laws, a session from a callback is admitted, on any later request that brings it
  -- before it expires, as the subject, the address and the name of the ID token that was verified.
  login_middleware-handle_callback :
      (laws : JwtLaws p.jwt) (now later : Time) (r next_request : Request) (jwt : Bytes)
      → session_in (handle_callback p now r).0 ≡ some jwt
      → next_request.cookie session_cookie_name ≡ some jwt
      → p.jwt.numeric_date now ≤ later
      → later < p.jwt.numeric_date (now + session_lifetime)
      → (raw : Bytes) × (token : IdToken) × (claims : OidcClaims) × (p.identity.verify raw
          ≡ some token)
        × (token.claims ≡ some claims)
        × (login_middleware p later next_request
            ≡ next (record { sub = claims.subject; email = claims.email; name = claims.name }))
  login_middleware-handle_callback laws now later r next_request jwt issued brought after before =
      let k = session-Proven now r jwt issued in
      (
        k.raw,
        k.token,
        k.claims,
        k.verify,
        k.extracted,
        login_middleware-issue_session_cookie laws k.claims.subject k.claims.email k.claims.name jwt
            now later next_request k.signed brought after before,
      )
