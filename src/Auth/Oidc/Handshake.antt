-- ===== src/Auth/Oidc/Handshake.antt =====
-- Proofs about a login from its first redirect to the page behind it.
use gimme.Base.{
  ℤ, pos, negsuc, ◌≤◌, ◌<◌, ◌+◌, Bytes, codes, text_eq, if◌then◌else◌, List, [], ◌∷◌, Option, none,
  some, ◌≡◌, ◌≢◌, sym, ap, ◌∙◌, subst,
}
use gimme.Tokens.{Time}
use gimme.Auth.Oidc.{
  OidcClaims, IdToken, OidcProvider, Cookie, Request, session_cookie_name, state_cookie_name,
  nonce_cookie_name, session_lifetime, next, login_middleware, issue_session_cookie, handle_login,
  handle_callback,
}
use gimme.Auth.Oidc.Laws.{JwtLaws, Proven, Proven-reply, login_middleware-issue_session_cookie}

-- What a browser keeps of a cookie: one of a negative age is dropped.
abbrev live : Cookie → ℤ → Option Bytes
live c (pos n) = some c.value
live c (negsuc n) = none

-- The cookies of a browser after it has received some more.
abbrev pub received : List Cookie → (Bytes → Option Bytes) → Bytes → Option Bytes
received [] old = old
received (c ∷ cs) old =
    received cs (λ name. if text_eq c.name name then live c c.max_age else old name)

module _ (p : OidcProvider) (laws : JwtLaws p.jwt) where
  -- If jwt keeps its laws: a browser that starts with `/auth/login`, comes back with the state and a code
  -- for which the provider gives an ID token that verifies, carries the nonce of the login and has
  -- claims, and whose session can be signed, is let through as the subject of those claims on every
  -- request with its cookies, as long as the session has not expired.
  pub login_middleware-handle_login :
      (state nonce raw jwt : Bytes) (token : IdToken) (claims : OidcClaims) (now later : Time)
      (old : Bytes → Option Bytes) (callback request : Request)
      → nonce ≢ []
      → callback.cookie ≡ received (handle_login p (some state) (some nonce)).0 old
      → callback.query (codes "state") ≡ state
      → p.identity.exchange (callback.query (codes "code")) ≡ some (some raw)
      → p.identity.verify raw ≡ some token
      → token.nonce ≡ nonce
      → token.claims ≡ some claims
      → issue_session_cookie p claims.subject claims.email claims.name now ≡ some jwt
      → request.cookie ≡ received (handle_callback p now callback).0 callback.cookie
      → p.jwt.numeric_date now ≤ later
      → later < p.jwt.numeric_date (now + session_lifetime)
      → login_middleware p later request
        ≡ next (record { sub = claims.subject; email = claims.email; name = claims.name })
  unfolding handle_login text_eq
  login_middleware-handle_login state nonce raw jwt token claims now later old callback request
        some_nonce jar echoed exchanged verified same_nonce extracted signed kept after before =
      let proven : Proven p now callback jwt = record {
        state = ap (λ f. f state_cookie_name) jar ∙ ap some (sym echoed);
        raw = raw;
        exchange = exchanged;
        token = token;
        verify = verified;
        nonce = ap (λ f. f nonce_cookie_name) jar ∙ ap some (sym same_nonce);
        present = subst (λ n. n ≢ []) (sym same_nonce) some_nonce;
        claims = claims;
        extracted = extracted;
        signed = signed;
      } in
      let reply = Proven-reply p now callback jwt proven in
      let brought : request.cookie session_cookie_name ≡ some jwt =
        ap (λ f. f session_cookie_name) kept
        ∙ ap (λ r. received r.0 callback.cookie session_cookie_name) reply in
      login_middleware-issue_session_cookie p laws claims.subject claims.email claims.name jwt now
        later request signed brought after before
