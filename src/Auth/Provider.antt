-- ===== src/Auth/Provider.antt =====
-- internal/auth/auth-provider.go and internal/auth/basic-auth-provider.go, with the routes and the
-- middleware of internal/auth/oidc-provider.go behind the same interface. gin's basic authentication
-- and the base64 encoding are parameters.
use gimme.Base.{Bytes, codes, text_eq, if◌then◌else◌, Bool, List, [], ◌∷◌, Option, none, some, ℕ}
use gimme.Tokens.{Time}
use gimme.Auth.Oidc.{
  OidcProvider, Request, Answer, json_error, redirect, Reply, Gate, next, rejected,
  login_middleware, handle_login, handle_callback, generate_random_state,
}

-- The interface, for requests of a type: the status that the login middleware ends a request with, or
-- none when it lets it through; and the answer of a route of its own, if it has the route.
pub record AuthProvider (Q : Type 0) : Type 0 where
  pub login_middleware : Time → Q → Option ℕ
  pub register_routes : Time → Q → Option Reply

-- A request of a browser, with its Authorization header and the random bytes drawn for the state and the
-- nonce of a login.
pub record LoginRequest : Type 0 where
  pub request : Request
  pub authorization : Bytes
  pub state_bytes : Option Bytes
  pub nonce_bytes : Option Bytes

pub record BasicAuthProvider : Type 0 where
  pub accounts : List (Bytes × Bytes)

unfoldable pub new_basic_auth_provider : Bytes → Bytes → BasicAuthProvider
new_basic_auth_provider user password = record { accounts = (user, password) ∷ [] }

-- `authenticated` is the check of gin.BasicAuth, of an Authorization header against the accounts.
abbrev pub basic_auth :
    (List (Bytes × Bytes) → Bytes → Bool) → BasicAuthProvider → AuthProvider LoginRequest
basic_auth authenticated p = record {
  login_middleware = λ now q. if authenticated p.accounts q.authorization then none else some 401;
  register_routes = λ now q. none;
}

abbrev pub answer_status : Answer → ℕ
answer_status (json_error code message) = code
answer_status (redirect target) = 302

abbrev pub gate_status : Gate → Option ℕ
gate_status (next who) = none
gate_status (rejected a) = some (answer_status a)

abbrev login_path : Bytes
login_path = codes "/auth/login"

abbrev callback_path : Bytes
callback_path = codes "/auth/callback"

unfoldable pub oidc_routes : (Bytes → Bytes) → OidcProvider → Time → LoginRequest → Option Reply
unfolding text_eq handle_login handle_callback generate_random_state
oidc_routes encode p now q =
    if text_eq q.request.path login_path
    then some (
        handle_login p (generate_random_state encode q.state_bytes)
          (generate_random_state encode q.nonce_bytes))
    else if text_eq q.request.path callback_path
    then some (handle_callback p now q.request)
    else none

abbrev pub oidc_auth : (Bytes → Bytes) → OidcProvider → AuthProvider LoginRequest
oidc_auth encode p = record {
  login_middleware = λ now q. gate_status (login_middleware p now q.request);
  register_routes = oidc_routes encode p;
}
