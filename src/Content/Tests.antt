-- ===== src/Content/Tests.antt =====
-- The upload of a package into a store in memory.
use gimme.Base.{◌≢◌, Bool, pos, negsuc, codes, true, false, List, [], ◌∷◌, none, some, ◌≡◌, refl}
use gimme.Dict.{insert, lookup}
use gimme.Errors.{ok}
use gimme.Content.Serve.{cache_key, resolved_path, get_file, delete_package}
use gimme.Content.Coherent.{get_file-again}
use gimme.Content.Uncached.{AllPlain, AllDropped, delete_package-uncached}
use gimme.Cache.{delete_by_prefix, cache_get, cache_set}
use gimme.Cache.Manager.{redis_cache-CacheLaws}
use gimme.Cache.Tests.{Server, server, server_cache, json, is_ascii, entry_laws, bounded_server}
use gimme.Content.Cached.{CacheLaws}
use gimme.Archive.{ZipFile, bytes}
use gimme.Storage.{Body, entry, read_errors, whole}
use gimme.Storage.Memory.{
  Memory, memory_client, stored_body, memory-StoreLaws, infos, remove_all, folders,
}
use gimme.Storage.Tests.{manager, two_packages}
use gimme.Version.{at_version, mutable_alias_prefixes, version_matches, version_parts}
use gimme.Version.Tests.{by_dots, by_dots-PrefixLaws}
use gimme.Content.{Libraries}
use gimme.Content.Upload.{Service, create_package}
use gimme.Strings.{has_prefix, trim_suffix}
use gimme.Content.Confined.{IsIn, stored}
use gimme.Content.Immutable.{Refused, create_package-Refused}
use gimme.Content.Atomic.{Outcome, create_package-Outcome}

abbrev pub plain_libs : Libraries
plain_libs = record {
  type_by_extension = λ e. codes "text/javascript";
  parse_media_type = λ t. some t;
  brotli_of = λ s. s;
  gzip_of = λ s. s;
  digest = λ s. codes "digest";
  gzip_first = λ s. false;
}

abbrev pub service : Service Memory Body
service = record {
  client = memory_client;
  osm = manager;
  semver = by_dots;
  libs = plain_libs;
  nfc = λ s. s;
  compile = λ patterns path. false;
  limits = record { max_size = pos 1000; max_entries = pos 10; max_uncompressed_size = negsuc 0 };
  compression_enabled = true;
}

abbrev archive : List ZipFile
archive =
    record {
      name = codes "a.js";
      is_dir = false;
      uncompressed_size = 3;
      contents = bytes (codes "abc");
    }
    ∷ []

-- One object more than before, and no error; an existing version is refused.
run_upload :
    create_package service (0 ∷ 0 ∷ []) (codes "p") (codes "2.0.0") (some archive) 30 two_packages
    ≡ (none, (codes "p@2.0.0/a.js", entry (bytes (codes "abc")) 3) ∷ two_packages)
unfolding create_package infos insert
run_upload = refl

clear : read_errors (infos (codes "p@2.0.0/") two_packages) ≡ []
unfolding infos read_errors
clear = refl

create_package-Outcome_example :
    Outcome service stored_body memory-StoreLaws (codes "p@2.0.0") two_packages (
      create_package service
        (0 ∷ 0 ∷ [])
        (codes "p")
        (codes "2.0.0")
        (some archive)
        30
        two_packages)
create_package-Outcome_example =
    create_package-Outcome service stored_body memory-StoreLaws (0 ∷ 0 ∷ []) (codes "p")
      (codes "2.0.0") (some archive) 30 two_packages clear

abbrev filled : Server
filled = (codes "p@1/a.js", codes "p@1.0.1/a.js") ∷ (codes "q@1/a.js", codes "q@1.2.0/a.js") ∷ []

abbrev pub readable : Body → Memory → Bool
readable b w = true

server_laws : CacheLaws is_ascii server_cache
server_laws =
    redis_cache-CacheLaws server json (λ m. 1) is_ascii entry_laws bounded_server.0 bounded_server.1

run_deletion :
    delete_package service readable
      (some server_cache)
      (codes "p")
      (codes "1.0.1")
      two_packages
      filled
    ≡ (
      none,
      (codes "p@1.0.0/a.js", whole (codes "a")) ∷ [],
      (codes "q@1/a.js", codes "q@1.2.0/a.js") ∷ [],
    )
unfolding delete_package infos remove_all delete_by_prefix has_prefix trim_suffix
run_deletion = refl

deleted_cleanly :
    (delete_package service readable
      (some server_cache)
      (codes "p")
      (codes "1.0.1")
      two_packages
      filled).0
    ≡ none
unfolding delete_package infos remove_all
deleted_cleanly = refl

major_matches : version_matches by_dots (codes "1.0.1") (codes "1") ≡ true
unfolding version_matches version_parts
major_matches = refl

plain_prefixes :
    AllPlain service readable server_cache is_ascii server_laws
      (at_version (codes "p") (codes "1.0.1") ∷ mutable_alias_prefixes (codes "p") (codes "1.0.1"))
unfolding mutable_alias_prefixes
plain_prefixes = (refl, (refl, (refl, (refl, tt))))

all_dropped :
    AllDropped service readable server_cache is_ascii server_laws
      (at_version (codes "p") (codes "1.0.1") ∷ mutable_alias_prefixes (codes "p") (codes "1.0.1"))
      filled
unfolding mutable_alias_prefixes delete_by_prefix has_prefix trim_suffix
all_dropped = (refl, (refl, (refl, (refl, tt))))

delete_package-uncached_example :
    server_cache.get
      (cache_key service readable (some server_cache) (codes "p") (codes "1") (codes "/a.js"))
      (delete_package service readable
        (some server_cache)
        (codes "p")
        (codes "1.0.1")
        two_packages
        filled).2
    ≡ none
delete_package-uncached_example =
    delete_package-uncached service readable server_cache is_ascii server_laws by_dots-PrefixLaws
      (codes "p") (codes "1.0.1") (codes "1") (codes "/a.js") two_packages filled deleted_cleanly
      plain_prefixes all_dropped major_matches

run_get_file :
    get_file service readable
      (some server_cache)
      (codes "p")
      (codes "1")
      (codes "/a.js")
      []
      two_packages
      []
    ≡ (ok (whole (codes "b"), none), (codes "p@1/a.js", codes "p@1.0.1/a.js") ∷ [])
unfolding get_file infos insert folders lookup cache_get cache_set
run_get_file = refl

ascii_path :
    is_ascii (
      resolved_path service readable
        (some server_cache)
        (codes "p")
        (codes "1")
        (codes "/a.js")
        two_packages)
    ≡ true
unfolding resolved_path folders infos version_parts
ascii_path = refl

get_file-again_example :
    (get_file service readable
      (some server_cache)
      (codes "p")
      (codes "1")
      (codes "/a.js")
      []
      two_packages
      (get_file service readable
        (some server_cache)
        (codes "p")
        (codes "1")
        (codes "/a.js")
        []
        two_packages
        []).1).0
    ≡ (get_file service readable
        (some server_cache)
        (codes "p")
        (codes "1")
        (codes "/a.js")
        []
        two_packages
        []).0
get_file-again_example =
    get_file-again service readable server_cache is_ascii server_laws (codes "p") (codes "1")
      (codes "/a.js") [] two_packages [] ascii_path

clear_listing : read_errors (infos (codes "p@1.0.1/") two_packages) ≡ []
unfolding infos read_errors
clear_listing = refl

inside : IsIn service stored_body memory-StoreLaws (codes "p@1.0.1") (codes "p@1.0.1/a.js")
unfolding has_prefix
inside = refl

stored_there :
    stored service stored_body memory-StoreLaws (codes "p@1.0.1/a.js") two_packages ≢ none
unfolding lookup
stored_there = λ h. cc

create_package-Refused_example :
    Refused service stored_body memory-StoreLaws two_packages
      (create_package service (0 ∷ []) (codes "p") (codes "1.0.1") (some archive) 30 two_packages)
create_package-Refused_example =
    create_package-Refused service stored_body memory-StoreLaws (0 ∷ []) (codes "p") (codes "1.0.1")
      (some archive) 30 two_packages (codes "p@1.0.1/a.js") clear_listing inside stored_there
