-- ===== src/Auth/Oidc/Tests.antt =====
-- A login at a concrete provider: a jwt is a list of one secret's length, the claims and times.
use gimme.Base.{
  ◌≤◌, ◌<◌, ltb, leb, Bytes, codes, text_eq, text_eq_refl, if◌then◌else◌, Bool, true, false, ◌&&◌,
  List, [], ◌∷◌, ◌++◌, Option, none, some, length, ◌≡◌, ◌≢◌, ◌↔◌, refl, arith, ap, ◌∙◌, subst,
}
use gimme.Tokens.{Time}
use gimme.Tokens.Files.{split_at, split_at-append}
use gimme.Auth.Oidc.{
  OidcClaims, hmac, Jwt, OidcProvider, Request, Identity, session_cookie_name, state_cookie_name,
  nonce_cookie_name, next, login_middleware, issue_session_cookie, handle_login, handle_callback,
}
use gimme.Auth.Oidc.Admission.{Session, login_middleware-Session}
use gimme.Auth.Oidc.Handshake.{received, login_middleware-handle_login}
use gimme.Auth.Oidc.Laws.{JwtLaws, session_in, Proven, handle_callback-Proven}

-- The texts of the claims with the lengths before them; the audience is the last text.
abbrev signed : Bytes → OidcClaims → List Bytes → Option Bytes
signed secret c (a ∷ []) = some (
    c.expires_at
    ∷ c.issued_at
    ∷ length secret
    ∷ length c.email
    ∷ length c.name
    ∷ length c.issuer
    ∷ length c.subject
    ∷ (secret ++ (c.email ++ (c.name ++ (c.issuer ++ (c.subject ++ a))))))
signed secret c _ = none

abbrev checked : Option Bytes → Time → Bytes → OidcClaims → Option (OidcClaims × Bool)
checked none now secret c = none
checked (some k) now secret c =
    if text_eq k secret && (leb c.issued_at now && ltb now c.expires_at)
    then some (c, true)
    else none

abbrev parsed : Bytes → Option Bytes → Time → Option (OidcClaims × Bool)
parsed (e ∷ i ∷ ls ∷ le ∷ ln ∷ li ∷ lb ∷ texts) key now =
    let (secret, t1) = split_at ls texts in
    let (email, t2) = split_at le t1 in
    let (name, t3) = split_at ln t2 in
    let (issuer, t4) = split_at li t3 in
    let (subject, a) = split_at lb t4 in
    checked key now secret (record {
      email = email;
      name = name;
      issuer = issuer;
      audience = a ∷ [];
      subject = subject;
      expires_at = e;
      issued_at = i;
    })
parsed _ key now = none

abbrev names_audience : List Bytes → Bytes → Bool
names_audience [] b = false
names_audience (a ∷ more) b = text_eq a b

abbrev pub jwt : Jwt
jwt = record {
  numeric_date = λ t. t;
  sign = λ secret c. signed secret c c.audience;
  parse = λ text key now. parsed text (key hmac) now;
  verify_issuer = λ c i. text_eq c.issuer i;
  verify_audience = λ c a. names_audience c.audience a;
}

same_text : {a b : Bytes} → some a ≡ some b → a ≡ b
same_text h = cc

parsed-signed :
    (secret text : Bytes) (c : OidcClaims) (audience : List Bytes) (now : Time)
    → c.audience ≡ audience
    → signed secret c audience ≡ some text
    → c.issued_at ≤ now
    → now < c.expires_at
    → parsed text (some secret) now ≡ some (c, true)
parsed-signed secret text c [] now shape h after before = cc
parsed-signed secret text c (a ∷ b ∷ bs) now shape h after before = cc
parsed-signed secret text c (a ∷ []) now shape h after before =
    let started : leb c.issued_at now ≡ true = ground (arith, after) in
    let running : ltb now c.expires_at ≡ true = ground (arith, before) in
    let t4 = c.subject ++ a in
    let t3 = c.issuer ++ t4 in
    let t2 = c.name ++ t3 in
    let t1 = c.email ++ t2 in
    subst (λ x. parsed x (some secret) now ≡ some (c, true)) (same_text h)
      (rw
        (
          split_at-append (length secret) secret t1 refl,
          split_at-append (length c.email) c.email t2 refl,
          split_at-append (length c.name) c.name t3 refl,
          split_at-append (length c.issuer) c.issuer t4 refl,
          split_at-append (length c.subject) c.subject a refl,
          text_eq_refl secret,
          started,
          running,
          ← (shape),
        )
        refl)

jwt-JwtLaws : JwtLaws jwt
unfolding text_eq
jwt-JwtLaws = record {
  parse-sign = λ secret text c key now h k after before.
      ap (λ o. parsed text o now) k
      ∙ parsed-signed secret text c c.audience now refl h after before;
  issuer = λ c h. rw (h) refl;
  audience = λ c h. rw (h) refl;
}

abbrev id_claims : OidcClaims
id_claims = record {
  email = codes "a@b.c";
  name = codes "Ada";
  issuer = codes "idp";
  audience = [];
  subject = codes "u1";
  expires_at = 0;
  issued_at = 0;
}

abbrev pub provider : OidcProvider
provider = record {
  identity = record {
    auth_code_url = λ state nonce. state;
    exchange = λ code. some (some code);
    verify = λ raw. some (record { nonce = codes "n1"; claims = some id_claims });
  };
  jwt = jwt;
  signing_secret = codes "key";
  secure_cookies = true;
}

abbrev cookie_of : Bytes → Option Bytes
cookie_of name =
    if text_eq name state_cookie_name
    then some (codes "s1")
    else if text_eq name nonce_cookie_name
    then some (codes "n1")
    else none

abbrev callback : Request
callback = record {
  cookie = cookie_of;
  query = λ name. if text_eq name (codes "state") then codes "s1" else codes "code";
  path = codes "/auth/callback";
  accept = [];
}

abbrev session : Bytes
session = 28800000000005 ∷ 5 ∷ 3 ∷ 5 ∷ 3 ∷ 5 ∷ 2 ∷ codes "keya@b.cAdagimmeu1gimme-admin"

run_callback : session_in (handle_callback provider 5 callback).0 ≡ some session
unfolding handle_callback text_eq issue_session_cookie
run_callback = refl

abbrev pub admin_request : Request
admin_request = record {
  cookie = λ name. if text_eq name session_cookie_name then some session else none;
  query = λ name. [];
  path = codes "/admin";
  accept = [];
}

handle_callback-Proven_example :
    (session_in (handle_callback provider 5 callback).0 ≡ some session)
    ↔ Proven provider 5 callback session
handle_callback-Proven_example = handle_callback-Proven provider 5 callback session

abbrev fresh : Bytes → Option Bytes
fresh name = none

abbrev returned : Request
returned = record {
  cookie = received (handle_login provider (some (codes "s1")) (some (codes "n1"))).0 fresh;
  query = callback.query;
  path = callback.path;
  accept = [];
}

abbrev behind : Request
behind = record {
  cookie = received (handle_callback provider 5 returned).0 returned.cookie;
  query = λ name. [];
  path = codes "/admin";
  accept = [];
}

abbrev administrator : Identity
administrator = record { sub = codes "u1"; email = codes "a@b.c"; name = codes "Ada" }

login_middleware-Session_example :
    (login_middleware provider 100 admin_request ≡ next administrator)
    ↔ Session provider 100 admin_request administrator
login_middleware-Session_example = login_middleware-Session provider 100 admin_request administrator

some_nonce : codes "n1" ≢ []
some_nonce h = cc

echoed : returned.query (codes "state") ≡ codes "s1"
unfolding text_eq
echoed = refl

session_signed :
    issue_session_cookie provider id_claims.subject id_claims.email id_claims.name 5 ≡ some session
unfolding issue_session_cookie
session_signed = refl

login_middleware-handle_login_example :
    login_middleware provider 100 behind
    ≡ next (record { sub = id_claims.subject; email = id_claims.email; name = id_claims.name })
login_middleware-handle_login_example =
    login_middleware-handle_login provider jwt-JwtLaws (codes "s1") (codes "n1")
      (callback.query (codes "code")) session
      (record { nonce = codes "n1"; claims = some id_claims }) id_claims 5 100 fresh returned behind
      some_nonce refl echoed refl refl refl refl session_signed refl (omega arith) (omega arith)
