-- ===== src/Auth/StoreTests.antt =====
-- The token stores' contract at the file store, and a token admitted and withdrawn under it.
use gimme.Base.{codes, ◌≡◌, not, ◌&&◌, arith}
use gimme.Tokens.FileStore.{file_store}
use gimme.Tokens.Consistent.{IsFresh}
use gimme.Tokens.Reach.{Valid}
use gimme.Tokens.Tests.{codec}
use gimme.Tokens.Contract.{Contract}
use gimme.Tokens.FileContract.{file_store-Contract}
use gimme.Auth.{authenticate, revoke_token}
use gimme.Auth.AnyStore.{entry_of, is_entry_of, authenticate-revoke_token}
use gimme.Auth.Tests.{digest, issued_store, issued-Valid, header, run_revoke}

file_store-Contract_example : Contract (λ t. t) (file_store codec) Valid (λ e s. IsFresh e s.maps)
file_store-Contract_example = file_store-Contract codec

authenticate-revoke_token_example :
    authenticate digest
      (file_store codec)
      10
      header
      (revoke_token (file_store codec) 9 (codes "id-1") issued_store).1
    ≡ (authenticate digest (file_store codec) 10 header issued_store
        && not (
            is_entry_of (codes "id-1") (
              entry_of
                (file_store codec)
                Valid
                (λ e s. IsFresh e s.maps)
                (file_store-Contract codec)
                digest
                header
                issued_store)))
unfolding revoke_token
authenticate-revoke_token_example =
    authenticate-revoke_token (file_store codec) Valid (λ e s. IsFresh e s.maps)
      (file_store-Contract codec) digest 10 9 (codes "id-1") header issued_store issued-Valid
      (omega arith) run_revoke
