-- ===== src/Auth/Tests.antt =====
-- The token's life at a concrete store: it is issued, admitted, revoked, deleted or swept.
use gimme.Base.{Bytes, codes, [], Option, none, some, ◌≡◌, refl, arith, true}
use gimme.Errors.{Result, ok}
use gimme.Dict.{lookup}
use gimme.Tokens.{Time, TokenEntry}
use gimme.Tokens.FileStore.{FileTokenStore, empty_maps, file_store, save, revoke}
use gimme.Tokens.Reach.{Valid, Reach-Valid, start, next, saved}
use gimme.Tokens.Consistent.{IsFresh}
use gimme.Tokens.Tests.{codec, empty_disk}
use gimme.Auth.{Draw, create_token, hash_token}
use gimme.Auth.Laws.{admitted, bearer_header, authenticate-create_token}

-- Stands for the hash: the text reduced to bytes.
abbrev pub digest : Bytes → Bytes
digest s = s

abbrev pub no_date : Bytes → Option Time
no_date s = none

abbrev pub draw : Draw
draw = record { now = 5; created = 5; random = some (codes "ab"); uuid = codes "id-1" }

abbrev pub empty_store : FileTokenStore
empty_store = record { maps = empty_maps; disk = empty_disk }

pub empty-Valid : Valid empty_store
empty-Valid = Reach-Valid codec empty_disk start

abbrev issued : Result (TokenEntry × Bytes) × FileTokenStore
issued = create_token digest (file_store codec) no_date draw (codes "ci") [] empty_store

abbrev pub raw : Bytes
raw = codes "gim_6162"

abbrev entry : TokenEntry
entry = record {
  id = codes "id-1";
  name = codes "ci";
  token_hash = hash_token digest raw;
  created_at = 5;
  expires_at = 7776000000000005;
  revoked_at = 0;
}

run_issued : issued.0 ≡ ok (entry, raw)
unfolding create_token save
run_issued = refl

abbrev pub issued_store : FileTokenStore
issued_store = (save codec entry empty_store).1

issued_state : issued ≡ (ok (entry, raw), issued_store)
unfolding create_token save
issued_state = refl

authenticate-create_token_example :
    admitted codec digest 6 (bearer_header codec digest raw) issued_store ≡ true
authenticate-create_token_example =
    authenticate-create_token codec digest no_date draw (codes "ci") [] empty_store issued_store
      entry raw 6 empty-Valid issued_state (omega arith)

entry-IsFresh : IsFresh entry empty_maps
unfolding lookup
entry-IsFresh = record { id = refl; hash = refl }

pub issued-Valid : Valid issued_store
issued-Valid = Reach-Valid codec empty_disk (next start (saved entry entry-IsFresh))

abbrev pub header : Bytes
header = codes "Bearer gim_6162"

pub run_revoke : (revoke codec 9 (codes "id-1") issued_store).0 ≡ true
unfolding revoke save
run_revoke = refl
