-- ===== src/Auth/Oidc/Admission.antt =====
-- Proofs about whom the middleware of the OIDC provider lets through.
use gimme.Base.{
  Bytes, if◌then◌else◌, Bool, true, false, not, ◌||◌, Option, none, some, ◌≡◌, ◌↔◌, refl,
}
use gimme.Tokens.{Time}
use gimme.Auth.Oidc.{
  OidcClaims, OidcProvider, Answer, Request, Identity, next, rejected, session_cookie_name,
  session_issuer, session_audience, key_of, admitted, reject_unauthenticated, login_middleware,
}

module _ (p : OidcProvider) where
  -- What a request that is let through as an identity has to carry.
  pub record Session (now : Time) (r : Request) (who : Identity) : Type 0 where
    pub cookie : Bytes
    pub carried : r.cookie session_cookie_name ≡ some cookie
    pub claims : OidcClaims
    pub parsed : p.jwt.parse cookie (key_of p) now ≡ some (claims, true)
    pub issuer : p.jwt.verify_issuer claims session_issuer ≡ true
    pub audience : p.jwt.verify_audience claims session_audience ≡ true
    pub named : who ≡ record { sub = claims.subject; email = claims.email; name = claims.name }

  abbrev identity_of : OidcClaims → Identity
  identity_of c = record { sub = c.subject; email = c.email; name = c.name }

  same_identity : {x y : Identity} → next x ≡ next y → y ≡ x
  same_identity h = cc

  -- The test of the issuer and of the audience, passed.
  recognised :
      (i a : Bool) (x : Answer) (y who : Identity)
      → (if not i || not a then rejected x else next y) ≡ next who
      → (i ≡ true) × (a ≡ true) × (who ≡ y)
  recognised true true x y who h = (refl, refl, same_identity h)
  recognised true false x y who h = cc
  recognised false a x y who h = cc

  admitted-Session :
      (now : Time) (r : Request) (who : Identity) (cookie : Bytes) (o : Option (OidcClaims × Bool))
      → r.cookie session_cookie_name ≡ some cookie
      → p.jwt.parse cookie (key_of p) now ≡ o
      → admitted p r o ≡ next who
      → Session now r who
  admitted-Session now r who cookie none carried parsed h = cc
  admitted-Session now r who cookie (some (claims, false)) carried parsed h = cc
  admitted-Session now r who cookie (some (claims, true)) carried parsed h =
      let (issuer, audience, named) =
        recognised (p.jwt.verify_issuer claims session_issuer)
          (p.jwt.verify_audience claims session_audience) (reject_unauthenticated r)
          (identity_of claims) who h in
      record {
        cookie = cookie;
        carried = carried;
        claims = claims;
        parsed = parsed;
        issuer = issuer;
        audience = audience;
        named = named;
      }

  gate-Session :
      (now : Time) (r : Request) (who : Identity) (o : Option Bytes)
      → r.cookie session_cookie_name ≡ o
      → (elim o [
        | none ↦ rejected (reject_unauthenticated r)
        | some cookie ↦ admitted p r (p.jwt.parse cookie (key_of p) now)
      ])
        ≡ next who
      → Session now r who
  gate-Session now r who none carried h = cc
  gate-Session now r who (some cookie) carried h =
      admitted-Session now r who cookie _ carried refl h

  -- A request is let through as an identity exactly if it carries a session cookie that parses under the
  -- signing secret as valid claims of the session's issuer and audience, and the identity is the
  -- subject, the email and the name of those claims.
  pub login_middleware-Session :
      (now : Time) (r : Request) (who : Identity)
      → (login_middleware p now r ≡ next who) ↔ Session now r who
  unfolding login_middleware
  login_middleware-Session now r who = (
    gate-Session now r who _ refl,
    λ k. rw (k.carried, k.parsed, k.issuer, k.audience, k.named, login_middleware) refl,
  )
