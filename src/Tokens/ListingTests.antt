-- ===== src/Tokens/ListingTests.antt =====
-- The list of a store that holds two entries, the older of which was saved first.
use gimme.Base.{codes, text_eq, [], ◌∷◌, ◌≡◌, refl}
use gimme.Dict.{lookup}
use gimme.Tokens.{TokenEntry}
use gimme.Tokens.FileStore.{FileTokenStore, list, save, put}
use gimme.Tokens.Consistent.{IsFresh}
use gimme.Tokens.Reach.{Reach, next, saved, Reach-Valid}
use gimme.Tokens.Listing.{Complete, list-Complete}
use gimme.Tokens.Tests.{codec, first_entry, one_saved, saved_once, empty_disk}

abbrev second_entry : TokenEntry
second_entry = record first_entry { id = codes "2"; token_hash = codes "h2"; created_at = 20 }

abbrev two_saved : FileTokenStore
two_saved = (save codec second_entry one_saved).1

second_entry-IsFresh : IsFresh second_entry one_saved.maps
unfolding lookup save put text_eq
second_entry-IsFresh = record { id = refl; hash = refl }

abbrev saved_twice : Reach codec empty_disk two_saved
saved_twice = next saved_once (saved second_entry second_entry-IsFresh)

run_list : list codec two_saved ≡ second_entry ∷ first_entry ∷ []
unfolding list save
run_list = refl

list-Complete_example : Complete codec two_saved (list codec two_saved)
list-Complete_example = list-Complete codec two_saved (Reach-Valid codec empty_disk saved_twice)
