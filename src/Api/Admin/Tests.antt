-- ===== src/Api/Admin/Tests.antt =====
-- The routes of the administration at a concrete store.
use gimme.Base.{ℕ, codes, [], Option, none, some, ◌≡◌, refl, true, arith}
use gimme.Tokens.FileStore.{file_store, save}
use gimme.Tokens.Tests.{codec}
use gimme.Auth.{create_token}
use gimme.Auth.Laws.{admitted, bearer_header}
use gimme.Auth.Tests.{digest, no_date, draw, empty_store, empty-Valid, raw}
use gimme.Api.Admin.{CreateTokenRequest, TokenResponse, created, token_creation, admin_route}
use gimme.Api.Admin.Laws.{authenticate-admin_route}

abbrev open_gate : Option ℕ
open_gate = none

abbrev body : Option CreateTokenRequest
body = some (record { name = codes "ci"; expiration_date = [] })

abbrev response : TokenResponse
response = record {
  id = codes "id-1";
  name = codes "ci";
  token = raw;
  created_at = 5;
  expires_at = 7776000000000005;
}

run_creation :
    (admin_route digest
      (file_store codec)
      no_date
      open_gate
      (token_creation draw body)
      empty_store).0
    ≡ created response
unfolding admin_route create_token save
run_creation = refl

authenticate-admin_route_example :
    (open_gate ≡ none)
    × (admitted codec digest 6
          (bearer_header codec digest raw)
          (admin_route digest
            (file_store codec)
            no_date
            open_gate
            (token_creation draw body)
            empty_store).1
        ≡ true)
authenticate-admin_route_example =
    authenticate-admin_route codec digest no_date open_gate draw body empty_store response 6
      empty-Valid run_creation (omega arith)
