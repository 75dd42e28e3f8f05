-- ===== src/Api/Admin/Laws.antt =====
-- Proofs about the routes of the administration.
use gimme.Base.{
  ℕ, ◌≤◌, ◌<◌, Bytes, Bool, true, false, not, ◌&&◌, Option, none, some, length, ◌≡◌, refl, ap, ◌∙◌,
  arith,
}
use gimme.Errors.{Result, ok, err, GimmeError}
use gimme.Tokens.{Time, TokenEntry, TokenStore}
use gimme.Tokens.Files.{Codec}
use gimme.Tokens.FileStore.{FileTokenStore, file_store}
use gimme.Tokens.Reach.{Valid}
use gimme.Tokens.Contract.{Contract}
use gimme.Auth.{Draw, create_token, authenticate, revoke_token}
use gimme.Auth.Laws.{admitted, bearer_header, authenticate-create_token}
use gimme.Auth.AnyStore.{entry_of, is_entry_of, authenticate-revoke_token}
use gimme.Api.Admin.{
  CreateTokenRequest, TokenResponse, created, status, max_token_name_length, validate,
  answer_created, create_valid, post_token, answer_revoked, delete_token, token_creation,
  token_deletion, admin_route,
}

created_same : {t u : TokenResponse} → created t ≡ created u → t ≡ u
created_same h = cc

module _ (codec : Codec) (sha256 : Bytes → Bytes) (parse_date : Bytes → Option Time) where
  answer_created-created :
      (o : Result (TokenEntry × Bytes) × FileTokenStore) (t : TokenResponse)
      → (answer_created sha256 (file_store codec) parse_date o).0 ≡ created t
      → (e : TokenEntry) × (o
          ≡ (ok (e, t.token), (answer_created sha256 (file_store codec) parse_date o).1))
        × (e.expires_at ≡ t.expires_at)
  answer_created-created (err e, s) t h = cc
  answer_created-created (ok (e, raw), s) t h =
      let same = created_same h in
      (
        e,
        ap (λ (x : TokenResponse). (ok (e, x.token), s)) same,
        ap (λ (x : TokenResponse). x.expires_at) same,
      )

  create_valid-created :
      (draw : Draw) (r : CreateTokenRequest) (o : Option GimmeError) (s : FileTokenStore)
      (t : TokenResponse) (now : Time)
      → Valid s
      → (create_valid sha256 (file_store codec) parse_date draw r o s).0 ≡ created t
      → now ≤ t.expires_at
      → admitted codec sha256 now
          (bearer_header codec sha256 t.token)
          (create_valid sha256 (file_store codec) parse_date draw r o s).1
        ≡ true
  create_valid-created draw r (some e) s t now v h before = cc
  create_valid-created draw r none s t now v h before =
      let (e, shape, same) =
        answer_created-created
          (create_token sha256 (file_store codec) parse_date draw r.name r.expiration_date s) t h in
      authenticate-create_token codec sha256 parse_date draw r.name r.expiration_date s _ e t.token
        now v shape (omega (arith, same, before))

  validate_name :
      (r : CreateTokenRequest)
      → validate r ≡ none
      → (1 ≤ length r.name) × (length r.name ≤ max_token_name_length)
  unfolding validate
  validate_name r h = (ground arith, ground arith)

  -- From a valid file store, a POST to /tokens that is answered with a token had been let through by the
  -- login, and the token is then admitted as a bearer token as long as the answer's expiry is not past.
  pub authenticate-admin_route :
      (gate : Option ℕ) (draw : Draw) (body : Option CreateTokenRequest) (s : FileTokenStore)
      (t : TokenResponse) (now : Time)
      → Valid s
      → (admin_route sha256 (file_store codec) parse_date gate (token_creation draw body) s).0
        ≡ created t
      → now ≤ t.expires_at
      → (gate ≡ none)
        × (admitted codec sha256 now
              (bearer_header codec sha256 t.token)
              (admin_route sha256 (file_store codec) parse_date gate (token_creation draw body) s).1
            ≡ true)
  unfolding admin_route post_token
  authenticate-admin_route (some code) draw body s t now v h before = cc
  authenticate-admin_route none draw none s t now v h before = cc
  authenticate-admin_route none draw (some r) s t now v h before =
      (refl, create_valid-created draw r (validate r) s t now v h before)

module _ {kept : Time → Time} {S : Type 0} (store : TokenStore S) (IsValid : S → Type 0)
    (IsFresh : TokenEntry → S → Type 0) (contract : Contract kept store IsValid IsFresh)
    (sha256 : Bytes → Bytes) (parse_date : Bytes → Option Time) where
  answer_revoked-status :
      (o : Bool × S)
      → (answer_revoked sha256 store parse_date o).0 ≡ status 204
      → (o.0 ≡ true) × ((answer_revoked sha256 store parse_date o).1 ≡ o.1)
  answer_revoked-status (true, s) h = (refl, refl)
  answer_revoked-status (false, s) h = cc

  -- Over any store that keeps the contract, from a valid state: after a DELETE of /tokens/:id, at a time
  -- that the store does not keep as zero, that is answered with 204, a header is admitted exactly if it
  -- was and its token does not lead to the entry of that identifier.
  pub authenticate-delete_token :
      (gate : Option ℕ) (now t : Time) (id header : Bytes) (s : S)
      → IsValid s
      → 0 < kept t
      → (admin_route sha256 store parse_date gate (token_deletion t id) s).0 ≡ status 204
      → authenticate sha256 store now header
          (admin_route sha256 store parse_date gate (token_deletion t id) s).1
        ≡ (authenticate sha256 store now header s
            && not (is_entry_of id (entry_of store IsValid IsFresh contract sha256 header s)))
  unfolding admin_route delete_token
  authenticate-delete_token (some code) now t id header s v after h = cc
  authenticate-delete_token none now t id header s v after h =
      let (done, state) = answer_revoked-status (revoke_token store t id s) h in
      ap (authenticate sha256 store now header) state
      ∙ authenticate-revoke_token store IsValid IsFresh contract sha256 now t id header s v after
          done
