-- ===== src/Storage/Tests.antt =====
-- The removal of a prefix in a store in memory.
use gimme.Base.{codes, [], ◌∷◌, none, ◌≡◌, refl, true}
use gimme.Strings.{has_prefix}
use gimme.Storage.{ObjectStorageManager, whole, remove_objects, object_exists}
use gimme.Storage.Memory.{Memory, memory_client, stored_body, memory-StoreLaws, infos, remove_all}
use gimme.Storage.Laws.{remove_objects_cleans}

abbrev pub manager : ObjectStorageManager
manager = record { bucket_name = codes "gimme"; location = codes "eu" }

abbrev pub two_packages : Memory
two_packages =
    (codes "p@1.0.0/a.js", whole (codes "a")) ∷ (codes "p@1.0.1/a.js", whole (codes "b")) ∷ []

run_removal :
    remove_objects memory_client manager (codes "p@1.0.0/") two_packages
    ≡ (none, (codes "p@1.0.1/a.js", whole (codes "b")) ∷ [])
unfolding remove_objects infos remove_all
run_removal = refl

run_exists : object_exists memory_client manager (codes "p@1.0.0") two_packages ≡ true
unfolding object_exists infos
run_exists = refl

run_removal_error : (remove_objects memory_client manager (codes "p@1.0.0/") two_packages).0 ≡ none
unfolding remove_objects infos remove_all
run_removal_error = refl

in_prefix : has_prefix (codes "p@1.0.0/a.js") (codes "p@1.0.0/") ≡ true
unfolding has_prefix
in_prefix = refl

remove_objects_cleans_example :
    stored_body
      (remove_objects memory_client manager (codes "p@1.0.0/") two_packages).1
      (codes "gimme")
      (codes "p@1.0.0/a.js")
    ≡ none
remove_objects_cleans_example =
    remove_objects_cleans memory_client stored_body memory-StoreLaws manager (codes "p@1.0.0/")
      two_packages (codes "p@1.0.0/a.js") run_removal_error in_prefix
