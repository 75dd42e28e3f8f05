-- ===== src/Api/RouteTests.antt =====
-- The routes to a listing at a concrete package.
use gimme.Base.{pos, codes, true, false, [], ◌∷◌, none, some, ◌≡◌}
use gimme.Strings.{slash}
use gimme.Content.Tests.{service}
use gimme.Content.MemoryCache.{memory_cache}
use gimme.Storage.{whole}
use gimme.Storage.Memory.{Memory}
use gimme.Api.Files.{FileRequest, Times}
use gimme.Api.Routes.{Web, ListingRequest, get_package, get_package_folder, kept}
use gimme.Api.RouteLaws.{get_package-get_package_folder}
use gimme.Api.Tests.{quality}

abbrev pub web : Web
web = record {
  path_escape = λ s. s;
  query_escape = λ s. s;
  atoi = λ s. some (pos 9000);
  itoa = λ n. n ∷ [];
}

abbrev pub times : Times
times = record { format = λ t. t ∷ []; parse = λ s. none; itoa = λ n. n ∷ [] }

abbrev pub listing_request : ListingRequest
listing_request = record { limit = codes "9000"; after = []; head = false; json = true }

abbrev file_request : FileRequest
file_request = record {
  head = false;
  accept_encoding = codes "gzip";
  conditions = record { if_none_match = []; if_modified_since = [] };
}

abbrev stored : Memory
stored = (codes "p@1.0.0/a.js", whole (codes "z")) ∷ []

get_package-get_package_folder_example :
    get_package service web times quality
      (λ o w. none)
      (some memory_cache)
      3
      listing_request
      file_request
      (codes "p@1.0.0")
      (slash ∷ [])
      stored
      []
    ≡ kept service web times quality
        (λ o w. none)
        (some memory_cache)
        []
        (get_package_folder service web 3 listing_request (codes "p@1.0.0") stored)
get_package-get_package_folder_example =
    get_package-get_package_folder service web times quality (λ o w. none) (some memory_cache) 3
      listing_request file_request (codes "p@1.0.0") stored []
