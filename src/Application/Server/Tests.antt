-- ===== src/Application/Server/Tests.antt =====
-- A server in memory: what it refuses, and a token that is withdrawn.
use gimme.Base.{
  ℕ, Bytes, codes, if◌then◌else◌, ◌==◌, true, false, List, [], ◌∷◌, none, some, ◌≡◌, ◌⊎◌, refl,
  arith,
}
use gimme.Content.MemoryCache.{MemoryCache, memory_cache}
use gimme.Content.Tests.{service}
use gimme.Storage.{Body}
use gimme.Storage.Memory.{Memory}
use gimme.Storage.Tests.{two_packages}
use gimme.Tokens.{Time}
use gimme.Tokens.FileStore.{FileTokenStore, file_store, revoke, save, get_by_hash}
use gimme.Tokens.Consistent.{IsFresh}
use gimme.Tokens.Reach.{Valid}
use gimme.Tokens.FileContract.{file_store-Contract}
use gimme.Tokens.Tests.{codec}
use gimme.Auth.{authenticate, extract_token, hash_token}
use gimme.Auth.AnyStore.{entry_of, is_entry_of}
use gimme.Auth.Tests.{digest, no_date, issued_store, issued-Valid, header}
use gimme.Api.Tests.{quality}
use gimme.Api.RouteTests.{web, times, listing_request}
use gimme.Api.Packages.{no_file}
use gimme.Api.Admin.{token_deletion, status}
use gimme.Auth.Oidc.{Identity}
use gimme.Auth.Oidc.Tests.{provider, admin_request}
use gimme.Auth.Oidc.Admission.{Session}
use gimme.Auth.Provider.{AuthProvider, LoginRequest, oidc_auth}
use gimme.Application.Server.{
  World, Parts, HttpRequest, folder, upload, administration, admin, unauthorized, asked, serve,
  serve_all,
}
use gimme.Application.Server.Sessions.{TurnedAway, administration-Session}
use gimme.Application.Server.Guarded.{Unchanged, serve_all-Unchanged, upload_refused}

-- The login lets the number 1 through.
abbrev by_number : AuthProvider ℕ
by_number = record {
  login_middleware = λ now q. if q == 1 then none else some 401;
  register_routes = λ now q. none;
}

abbrev parts_with : {Q : Type 0} → AuthProvider Q → Parts Memory Body MemoryCache FileTokenStore Q
parts_with login = record {
  svc = service;
  web = web;
  times = times;
  quality = quality;
  stat = λ o w. none;
  cache_manager = some memory_cache;
  token_store = file_store codec;
  sha256 = digest;
  parse_date = no_date;
  provider = login;
  enable_metrics = true;
  fuel = 9;
}

abbrev parts : Parts Memory Body MemoryCache FileTokenStore ℕ
parts = parts_with by_number

abbrev world : World Memory MemoryCache FileTokenStore
world = record { objects = two_packages; cache = []; tokens = issued_store }

abbrev unknown : Bytes
unknown = codes "Bearer gim_00"

abbrev requests : List (Time × HttpRequest ℕ)
requests =
    (7, folder listing_request (codes "p@1.0.0"))
    ∷ (8, upload unknown [] (codes "q") (codes "1.0.0") no_file)
    ∷ (9, administration 2 (token_deletion 9 (codes "id-1")))
    ∷ []

unknown_token : authenticate digest (file_store codec) 8 unknown issued_store ≡ false
unfolding authenticate save get_by_hash
unknown_token = refl

serve_all-Unchanged_example :
    Unchanged parts Valid
      (λ e s. IsFresh e s.maps)
      (file_store-Contract codec)
      world
      (serve_all parts requests world)
serve_all-Unchanged_example =
    serve_all-Unchanged parts Valid (λ e s. IsFresh e s.maps) (file_store-Contract codec) requests
      world issued-Valid (refl, (rw (unknown_token) refl, (refl, tt)))

run_withdrawal :
    (serve parts 9 (administration 1 (token_deletion 9 (codes "id-1"))) world).0
    ≡ admin (status 204)
unfolding serve revoke save
run_withdrawal = refl

run_owner :
    is_entry_of (codes "id-1") (
      entry_of
        (file_store codec)
        Valid
        (λ e s. IsFresh e s.maps)
        (file_store-Contract codec)
        digest
        header
        issued_store)
    ≡ true
unfolding extract_token hash_token save get_by_hash
run_owner = refl

upload_refused_example :
    serve parts 10
      (upload header [] (codes "q") (codes "1.0.0") no_file)
      (serve parts 9 (administration 1 (token_deletion 9 (codes "id-1"))) world).1
    ≡ (
      unauthorized,
      asked parts header
          (serve parts 9 (administration 1 (token_deletion 9 (codes "id-1"))) world).1,
    )
upload_refused_example =
    upload_refused parts Valid (λ e s. IsFresh e s.maps) (file_store-Contract codec) 10 9 1 9
      (codes "id-1") header [] (codes "q") (codes "1.0.0") no_file world issued-Valid (omega arith)
      run_owner run_withdrawal

abbrev plain : Bytes → Bytes
plain b = b

abbrev browser : LoginRequest
browser = record {
  request = admin_request;
  authorization = [];
  state_bytes = none;
  nonce_bytes = none;
}

administration-Session_example :
    TurnedAway (parts_with (oidc_auth plain provider)) world (
      serve
        (parts_with (oidc_auth plain provider))
        100
        (administration browser (token_deletion 9 (codes "id-1")))
        world)
    ⊎ ((who : Identity) × Session provider 100 admin_request who)
administration-Session_example =
    administration-Session (parts_with (oidc_auth plain provider)) plain provider 100 browser
      (token_deletion 9 (codes "id-1")) world refl
