-- ===== src/Application/Server.antt =====
-- The routes of internal/application/application.go and api, over the state of the whole server: the
-- object store, the cache and the token store. The static files, CORS and the counters are left out.
pub mod Guarded
pub mod Sessions
mod Tests
use gimme.Base.{
  ℕ, Bytes, codes, if◌then◌else◌, Bool, true, false, List, [], ◌∷◌, Option, none, some,
}
use gimme.Errors.{GimmeError}
use gimme.Storage.{ping}
use gimme.Tokens.{Time, TokenStore}
use gimme.Auth.{authenticate, after_lookup}
use gimme.Auth.Oidc.{Reply}
use gimme.Auth.Provider.{AuthProvider}
use gimme.Content.Upload.{Service}
use gimme.Content.Serve.{CacheManager}
use gimme.Api.Negotiate.{Quality}
use gimme.Api.Packages.{Form, Response, create_package_handler, delete_package_handler}
use gimme.Api.Files.{FileRequest, Stat, Times, stat_ok}
use gimme.Api.Routes.{Web, ListingRequest, get_package, get_package_folder}
use gimme.Api.Admin.{AdminRequest, AdminAnswer, admin_route, liveness, readiness, status}

pub record World (W C S : Type 0) : Type 0 where
  pub objects : W
  pub cache : C
  pub tokens : S

-- What the handlers call, with the fuel of a listing.
pub record Parts (W Object C S Q : Type 0) : Type 1 where
  pub svc : Service W Object
  pub web : Web
  pub times : Times
  pub quality : Quality
  pub stat : Object → W → Option Stat
  pub cache_manager : Option (CacheManager C)
  pub token_store : TokenStore S
  pub sha256 : Bytes → Bytes
  pub parse_date : Bytes → Option Time
  pub provider : AuthProvider Q
  pub enable_metrics : Bool
  pub fuel : ℕ

-- `upload` and `removal` come with their Authorization header, `administration` with what its login
-- middleware reads, and `auxiliary`, a route of the provider, with the same; `upload` also with
-- the schedule of its goroutines.
pub data HttpRequest (Q : Type 0) : Type 0 where
  root_page gimme_page health ready metrics_page : HttpRequest Q
  folder : ListingRequest → Bytes → HttpRequest Q
  file : ListingRequest → FileRequest → Bytes → Bytes → HttpRequest Q
  upload : Bytes → List ℕ → Bytes → Bytes → Form → HttpRequest Q
  removal : Bytes → Bytes → HttpRequest Q
  administration : Q → AdminRequest → HttpRequest Q
  auxiliary : Q → HttpRequest Q

-- `out_of_fuel` is a listing that takes more rounds than there is fuel for.
pub data ServerReply (Object : Type 0) : Type 0 where
  packages : Response Object → ServerReply Object
  admin : AdminAnswer → ServerReply Object
  unauthorized : ServerReply Object
  page : Bytes → ServerReply Object
  redirected : Bytes → ServerReply Object
  login : Reply → ServerReply Object
  not_found : ServerReply Object
  out_of_fuel : ServerReply Object

module _ {W Object C S Q : Type 0} (parts : Parts W Object C S Q) where
  abbrev pub authorized : Time → Bytes → World W C S → Bool
  authorized now header w = authenticate parts.sha256 parts.token_store now header w.tokens

  abbrev listed : Option (Response Object) → ServerReply Object
  listed none = out_of_fuel
  listed (some r) = packages r

  abbrev served : World W C S → Option (Response Object × C) → ServerReply Object × World W C S
  served w none = (out_of_fuel, w)
  served w (some (r, c)) = (packages r, record w { cache = c })

  abbrev pub stored : World W C S → Response Object × W → ServerReply Object × World W C S
  stored w (r, objects) = (packages r, record w { objects = objects })

  abbrev pub removed : World W C S → Response Object × W × C → ServerReply Object × World W C S
  removed w (r, objects, c) = (packages r, record w { objects = objects; cache = c })

  abbrev pub administered : World W C S → AdminAnswer × S → ServerReply Object × World W C S
  administered w (a, tokens) = (admin a, record w { tokens = tokens })

  -- The state after the middleware's lookup.
  abbrev pub asked : Bytes → World W C S → World W C S
  asked header w = record w { tokens = after_lookup parts.sha256 parts.token_store header w.tokens }

  -- `AuthenticateMiddleware` before a handler.
  abbrev pub guarded :
      Time
      → Bytes
      → World W C S
      → (World W C S → ServerReply Object × World W C S)
      → ServerReply Object × World W C S
  guarded now header w handler =
      if authorized now header w then handler (asked header w) else (unauthorized, asked header w)

  abbrev object_ok : Object → W → Bool
  object_ok = stat_ok parts.svc parts.times parts.quality parts.stat parts.cache_manager

  abbrev pub uploading :
      List ℕ → Bytes → Bytes → Form → World W C S → ServerReply Object × World W C S
  uploading schedule name version form w = stored w (
      create_package_handler parts.svc object_ok parts.cache_manager schedule name version form
        w.objects)

  abbrev pub removing : Bytes → World W C S → ServerReply Object × World W C S
  removing pkg w =
      removed w
        (delete_package_handler parts.svc object_ok parts.cache_manager pkg w.objects w.cache)

  abbrev routed : Option Reply → ServerReply Object
  routed none = not_found
  routed (some r) = login r

  -- One request, at a time.
  unfoldable pub serve : Time → HttpRequest Q → World W C S → ServerReply Object × World W C S
  unfolding authenticate after_lookup get_package get_package_folder create_package_handler
      delete_package_handler admin_route ping
  serve now root_page w = (page (codes "index.tmpl"), w)
  serve now gimme_page w = (redirected (codes "/"), w)
  serve now health w = (admin (status liveness), w)
  serve now ready w = (admin (readiness (ping parts.svc.client parts.svc.osm w.objects)), w)
  serve now metrics_page w =
      (if parts.enable_metrics then page (codes "/metrics") else not_found, w)
  serve now (auxiliary q) w = (routed (parts.provider.register_routes now q), w)
  serve now (folder r param) w =
      (listed (get_package_folder parts.svc parts.web parts.fuel r param w.objects), w)
  serve now (file r fr param path) w = served w (
      get_package parts.svc parts.web parts.times parts.quality parts.stat parts.cache_manager
        parts.fuel r fr param path w.objects w.cache)
  serve now (upload header schedule name version form) w =
      guarded now header w (uploading schedule name version form)
  serve now (removal header pkg) w = guarded now header w (removing pkg)
  serve now (administration q r) w = administered w (
      admin_route parts.sha256 parts.token_store parts.parse_date
        (parts.provider.login_middleware now q) r w.tokens)

  -- The requests of a server, one after the other.
  unfoldable pub serve_all : List (Time × HttpRequest Q) → World W C S → World W C S
  unfolding serve
  serve_all [] w = w
  serve_all ((now, r) ∷ rest) w = serve_all rest (serve now r w).1
