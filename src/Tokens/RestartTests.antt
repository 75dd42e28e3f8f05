-- ===== src/Tokens/RestartTests.antt =====
-- A store that is opened again on its file.
use gimme.Base.{true, ◌≡◌, refl}
use gimme.Tokens.FileStore.{FileTokenStore, empty_maps, save}
use gimme.Tokens.Consistent.{empty_maps-IsConsistent}
use gimme.Tokens.Restart.{Reopened, save-Reopened}
use gimme.Tokens.Tests.{codec, codec-CodecLaws, first_entry, first_entry-IsFresh, empty_disk}

abbrev empty_store : FileTokenStore
empty_store = record { maps = empty_maps; disk = empty_disk }

run_save : (save codec first_entry empty_store).0 ≡ true
unfolding save
run_save = refl

save-Reopened_example :
    Reopened codec
      (save codec first_entry empty_store).1.maps
      (save codec first_entry empty_store).1.disk
save-Reopened_example =
    save-Reopened codec codec-CodecLaws first_entry empty_store empty_maps-IsConsistent
      first_entry-IsFresh run_save
