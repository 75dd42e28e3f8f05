-- ===== src/Application/Server/Guarded.antt =====
-- Proofs about who may change the state of the server.
use gimme.Base.{
  ℕ, ◌<◌, Bytes, Bool, true, false, not, ◌&&◌, List, [], ◌∷◌, Option, none, some, All, ◌≡◌, refl,
  sym, ap, ◌∙◌, subst,
}
use gimme.Tokens.{Time, TokenEntry}
use gimme.Tokens.Contract.{Contract}
use gimme.Auth.{authenticate}
use gimme.Auth.AnyStore.{entry_of, is_entry_of, authenticate-same, get-after_lookup}
use gimme.Api.Packages.{Response, Form}
use gimme.Api.Admin.{AdminRequest, AdminAnswer, status, token_deletion, admin_route}
use gimme.Api.Admin.Laws.{authenticate-delete_token}
use gimme.Application.Server.{
  World, Parts, HttpRequest, root_page, gimme_page, health, ready, metrics_page, folder, file,
  upload, removal, administration, auxiliary, ServerReply, admin, unauthorized, authorized, asked,
  uploading, removing, served, administered, guarded, serve, serve_all,
}

module _ {W Object C S Q : Type 0} (parts : Parts W Object C S Q) where
  -- A request that may not change the state, by the tokens there are: its header is not admitted, or its
  -- login does not let it through.
  abbrev pub harmless : S → Time → HttpRequest Q → Bool
  harmless tokens now (upload header schedule name version form) =
      not (authenticate parts.sha256 parts.token_store now header tokens)
  harmless tokens now (removal header pkg) =
      not (authenticate parts.sha256 parts.token_store now header tokens)
  harmless tokens now (administration q r) = elim (parts.provider.login_middleware now q) [
    | none ↦ false
    | some code ↦ true
  ]
  harmless tokens now _ = true

  guarded_refused :
      (now : Time) (header : Bytes) (w : World W C S)
      (handler : World W C S → ServerReply Object × World W C S)
      → authorized parts now header w ≡ false
      → guarded parts now header w handler ≡ (unauthorized, asked parts header w)
  guarded_refused now header w handler h = rw (h) refl

  abbrev as_reply : AdminAnswer → ServerReply Object
  as_reply a = admin a

  admin_same : {a b : AdminAnswer} → as_reply a ≡ as_reply b → a ≡ b
  admin_same h = cc

  and_false : (b : Bool) → (b && false) ≡ false
  and_false true = refl
  and_false false = refl

  administered-parts :
      (w : World W C S) (x : AdminAnswer × S)
      → ((administered parts w x).0 ≡ admin x.0) × ((administered parts w x).1.tokens ≡ x.1)
  administered-parts w (a, tokens) = (refl, refl)

  not_on : (b : Bool) → not b ≡ true → b ≡ false
  not_on true h = cc
  not_on false h = refl

  module _ {kept : Time → Time} (IsValid : S → Type 0) (IsFresh : TokenEntry → S → Type 0)
      (contract : Contract kept parts.token_store IsValid IsFresh) where
    -- The objects are as they were, and every hash leads to the entry that it led to.
    abbrev pub Unchanged : World W C S → World W C S → Type 0
    Unchanged w v =
        (v.objects ≡ w.objects)
        × IsValid v.tokens
        × ((h : Bytes)
            → parts.token_store.get_by_hash h v.tokens ≡ parts.token_store.get_by_hash h w.tokens)

    same_world : (w : World W C S) → IsValid w.tokens → Unchanged w w
    same_world w v = (refl, v, (λ h. refl))

    asked-Unchanged :
        (header : Bytes) (w : World W C S) → IsValid w.tokens → Unchanged w (asked parts header w)
    asked-Unchanged header w v =
        let (valid, same) =
          get-after_lookup parts.token_store IsValid IsFresh contract parts.sha256 header w.tokens
            v in
        (refl, valid, same)

    served-Unchanged :
        (w : World W C S) (o : Option (Response Object × C))
        → IsValid w.tokens
        → Unchanged w (served parts w o).1
    served-Unchanged w none v = same_world w v
    served-Unchanged w (some (r, c)) v = (refl, v, (λ h. refl))

    turned_away_tokens :
        (gate : Option ℕ) (r : AdminRequest) (w : World W C S)
        → IsValid w.tokens
        → (elim gate [ none ↦ false | some code ↦ true ]) ≡ true
        → Unchanged w
            (administered parts w
              (admin_route parts.sha256 parts.token_store parts.parse_date gate r w.tokens)).1
    unfolding admin_route
    turned_away_tokens none r w v h = cc
    turned_away_tokens (some code) r w v h = same_world w v

    refused-Unchanged :
        (now : Time) (header : Bytes) (w : World W C S)
        (handler : World W C S → ServerReply Object × World W C S)
        → IsValid w.tokens
        → not (authorized parts now header w) ≡ true
        → Unchanged w (guarded parts now header w handler).1
    refused-Unchanged now header w handler v h =
        subst (λ x. Unchanged w x.1) (sym (guarded_refused now header w handler (not_on _ h)))
          (asked-Unchanged header w v)

    serve-Unchanged :
        (now : Time) (r : HttpRequest Q) (w : World W C S)
        → IsValid w.tokens
        → harmless w.tokens now r ≡ true
        → Unchanged w (serve parts now r w).1
    unfolding serve
    serve-Unchanged now root_page w v h = same_world w v
    serve-Unchanged now gimme_page w v h = same_world w v
    serve-Unchanged now health w v h = same_world w v
    serve-Unchanged now ready w v h = same_world w v
    serve-Unchanged now metrics_page w v h = same_world w v
    serve-Unchanged now (folder r param) w v h = same_world w v
    serve-Unchanged now (file r fr param path) w v h = served-Unchanged w _ v
    serve-Unchanged now (auxiliary q) w v h = same_world w v
    serve-Unchanged now (upload header schedule name version form) w v h =
        refused-Unchanged now header w (uploading parts schedule name version form) v h
    serve-Unchanged now (removal header pkg) w v h =
        refused-Unchanged now header w (removing parts pkg) v h
    serve-Unchanged now (administration q r) w v h =
        turned_away_tokens (parts.provider.login_middleware now q) r w v h

    -- What is harmless depends on the lookups of the store alone.
    harmless-same :
        (r : HttpRequest Q) (now : Time) (s s' : S)
        → ((h : Bytes) → parts.token_store.get_by_hash h s' ≡ parts.token_store.get_by_hash h s)
        → harmless s' now r ≡ harmless s now r
    harmless-same (upload header schedule name version form) now s s' same = ap not (
        authenticate-same parts.token_store IsValid IsFresh contract parts.sha256 now header s s'
          same)
    harmless-same (removal header pkg) now s s' same = ap not (
        authenticate-same parts.token_store IsValid IsFresh contract parts.sha256 now header s s'
          same)
    harmless-same (administration q r) now s s' same = refl
    harmless-same root_page now s s' same = refl
    harmless-same gimme_page now s s' same = refl
    harmless-same health now s s' same = refl
    harmless-same ready now s s' same = refl
    harmless-same metrics_page now s s' same = refl
    harmless-same (folder r param) now s s' same = refl
    harmless-same (file r fr param path) now s s' same = refl
    harmless-same (auxiliary q) now s s' same = refl

    all_harmless :
        (rs : List (Time × HttpRequest Q)) (s s' : S)
        → ((h : Bytes) → parts.token_store.get_by_hash h s' ≡ parts.token_store.get_by_hash h s)
        → All (λ r. harmless s r.0 r.1 ≡ true) rs
        → All (λ r. harmless s' r.0 r.1 ≡ true) rs
    all_harmless [] s s' same h = tt
    all_harmless ((now, r) ∷ rs) s s' same (h, hs) =
        (harmless-same r now s s' same ∙ h, all_harmless rs s s' same hs)

    -- Over a token store that keeps the contract, from a valid state, however many requests the server
    -- gets: if none of its uploads and removals carries a header that the tokens of the start admit at
    -- its time, and its login lets no administration through, the objects are in the end as they were,
    -- and every hash leads to the token that it led to, although the lookups may tidy the store.
    pub serve_all-Unchanged :
        (rs : List (Time × HttpRequest Q)) (w : World W C S)
        → IsValid w.tokens
        → All (λ r. harmless w.tokens r.0 r.1 ≡ true) rs
        → Unchanged w (serve_all parts rs w)
    unfolding serve_all
    serve_all-Unchanged [] w v h = same_world w v
    serve_all-Unchanged ((now, r) ∷ rs) w v (h, hs) =
        let w' = (serve parts now r w).1 in
        let (objects, v', same) = serve-Unchanged now r w v h in
        let (later, valid, alike) =
          serve_all-Unchanged rs w' v' (all_harmless rs w.tokens w'.tokens same hs) in
        (later ∙ objects, valid, (λ k. alike k ∙ same k))

    -- Over a token store that keeps the contract, from a valid state: once a DELETE of /tokens/:id, at a
    -- time that the store does not keep as zero, is answered with 204, an upload by a token that led to
    -- the entry of that identifier is answered with 401, at any time, and does nothing but look the
    -- token up.
    pub upload_refused :
        (later t : Time) (q : Q) (now : Time) (id header : Bytes) (schedule : List ℕ)
        (name version : Bytes) (form : Form) (w : World W C S)
        → IsValid w.tokens
        → 0 < kept t
        → is_entry_of id
            (entry_of parts.token_store IsValid IsFresh contract parts.sha256 header w.tokens)
          ≡ true
        → (serve parts now (administration q (token_deletion t id)) w).0 ≡ admin (status 204)
        → serve parts later
            (upload header schedule name version form)
            (serve parts now (administration q (token_deletion t id)) w).1
          ≡ (
            unauthorized,
            asked parts header (serve parts now (administration q (token_deletion t id)) w).1,
          )
    unfolding serve
    upload_refused later t q now id header schedule name version form w v after own done =
        let gate = parts.provider.login_middleware now q in
        let x =
          admin_route parts.sha256 parts.token_store parts.parse_date gate (token_deletion t id)
            w.tokens in
        let (answered, tokens) = administered-parts w x in
        let lost =
          authenticate-delete_token parts.token_store IsValid IsFresh contract parts.sha256
            parts.parse_date gate later t id header w.tokens v after
            (admin_same (sym answered ∙ done)) in
        guarded_refused later header _ (uploading parts schedule name version form) (
          ap (authenticate parts.sha256 parts.token_store later header) tokens
          ∙ lost
          ∙ ap (λ b. authenticate parts.sha256 parts.token_store later header w.tokens && not b) own
          ∙ and_false _)
