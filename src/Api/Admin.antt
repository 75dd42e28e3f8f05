-- ===== src/Api/Admin.antt =====
-- api/admin-controller.go and api/health-controller.go. A login middleware is the answer that it ends a
-- request with, or none, which goes on to the handler; the template of the page is left out.
pub mod Laws
mod Tests
use gimme.Base.{
  ℕ, Bytes, codes, text_eq, ltb, leb, ◌==◌, if◌then◌else◌, Bool, true, false, List, [], ◌∷◌, Option,
  none, some, length,
}
use gimme.Errors.{
  Result, ok, err, GimmeError, bad_request, token_name_required, token_name_too_long, get_http_code,
}
use gimme.Tokens.{Time, TokenEntry, TokenStore}
use gimme.Auth.{Draw, create_token, revoke_token, list_tokens}

pub record CreateTokenRequest : Type 0 where
  pub name : Bytes
  pub expiration_date : Bytes

pub record TokenResponse : Type 0 where
  pub id : Bytes
  pub name : Bytes
  pub token : Bytes
  pub created_at : Time
  pub expires_at : Time

-- A body of JSON with an error, the page of the tokens, a created token, or a status alone.
pub data AdminAnswer : Type 0 where
  failure : ℕ → Option GimmeError → AdminAnswer
  token_page : List TokenEntry → AdminAnswer
  created : TokenResponse → AdminAnswer
  status : ℕ → AdminAnswer
  turned_away : ℕ → AdminAnswer

abbrev pub max_token_name_length : ℕ
max_token_name_length = 255

unfoldable pub validate : CreateTokenRequest → Option GimmeError
validate r =
    if length r.name == 0
    then some (record { kind = bad_request; err = token_name_required })
    else if ltb max_token_name_length (length r.name)
    then some (record { kind = bad_request; err = token_name_too_long })
    else none

pub data AdminRequest : Type 0 where
  admin_page : AdminRequest
  token_creation : Draw → Option CreateTokenRequest → AdminRequest
  token_deletion : Time → Bytes → AdminRequest

module _ (sha256 : Bytes → Bytes) {S : Type 0} (store : TokenStore S)
    (parse_date : Bytes → Option Time) where
  unfoldable pub get_admin : S → AdminAnswer
  unfolding list_tokens
  get_admin s = token_page (list_tokens store s)

  abbrev pub answer_created : Result (TokenEntry × Bytes) × S → AdminAnswer × S
  answer_created (err e, s) = (failure (get_http_code e) (some e), s)
  answer_created (ok (e, raw), s) = (
    created (record {
      id = e.id;
      name = e.name;
      token = raw;
      created_at = e.created_at;
      expires_at = e.expires_at;
    }),
    s,
  )

  abbrev pub create_valid : Draw → CreateTokenRequest → Option GimmeError → S → AdminAnswer × S
  create_valid draw r (some e) s = (failure (get_http_code e) (some e), s)
  create_valid draw r none s =
      answer_created (create_token sha256 store parse_date draw r.name r.expiration_date s)

  -- The body, if it can be read as JSON.
  unfoldable pub post_token : Draw → Option CreateTokenRequest → S → AdminAnswer × S
  unfolding get_http_code create_token validate
  post_token draw none s = (failure 400 none, s)
  post_token draw (some r) s = create_valid draw r (validate r) s

  abbrev pub answer_revoked : Bool × S → AdminAnswer × S
  answer_revoked (true, s) = (status 204, s)
  answer_revoked (false, s) = (failure 404 none, s)

  unfoldable pub delete_token : Time → Bytes → S → AdminAnswer × S
  unfolding revoke_token
  delete_token now id s = answer_revoked (revoke_token store now id s)

  abbrev handled : AdminRequest → S → AdminAnswer × S
  handled admin_page s = (get_admin s, store.listed s)
  handled (token_creation draw body) s = post_token draw body s
  handled (token_deletion now id) s = delete_token now id s

  -- The routes of `NewAdminController`, behind the middleware's answer.
  unfoldable pub admin_route : Option ℕ → AdminRequest → S → AdminAnswer × S
  unfolding get_admin post_token delete_token
  admin_route (some code) r s = (turned_away code, s)
  admin_route none r s = handled r s

abbrev pub liveness : ℕ
liveness = 200

-- `readiness`, by what the storage's Ping answers.
abbrev pub readiness : Option GimmeError → AdminAnswer
readiness none = status 200
readiness (some e) = failure 503 (some e)
