-- ===== src/Application/Server/Sessions.antt =====
-- Proofs about the administration of a server behind the OIDC provider.
use gimme.Base.{ℕ, Bytes, Option, ◌≡◌, ◌⊎◌, inl, inr, refl, sym, ap, subst}
use gimme.Tokens.{Time}
use gimme.Auth.Oidc.{OidcProvider, Identity, Gate, next, rejected, login_middleware}
use gimme.Auth.Oidc.Admission.{Session, login_middleware-Session}
use gimme.Auth.Provider.{AuthProvider, LoginRequest, answer_status, gate_status, oidc_auth}
use gimme.Api.Admin.{AdminRequest, turned_away, admin_route}
use gimme.Application.Server.{World, Parts, ServerReply, admin, administration, administered, serve}

module _ {W Object C S : Type 0} (parts : Parts W Object C S LoginRequest) where
  abbrev under : Option ℕ → AdminRequest → World W C S → ServerReply Object × World W C S
  under gate r w =
      administered parts w
        (admin_route parts.sha256 parts.token_store parts.parse_date gate r w.tokens)

  -- The login has answered, and nothing has changed.
  abbrev pub TurnedAway : World W C S → ServerReply Object × World W C S → Type 0
  TurnedAway w x = (code : ℕ) × (x.0 ≡ admin (turned_away code)) × (x.1 ≡ w)

  gate_decides :
      (p : OidcProvider) (now : Time) (q : LoginRequest) (r : AdminRequest) (w : World W C S)
      (g : Gate)
      → login_middleware p now q.request ≡ g
      → TurnedAway w (under (gate_status g) r w) ⊎ ((who : Identity) × Session p now q.request who)
  unfolding admin_route
  gate_decides p now q r w (next who) h =
      inr (who, (login_middleware-Session p now q.request who).0 h)
  gate_decides p now q r w (rejected a) h = inl (answer_status a, refl, refl)

  -- Behind the OIDC provider, a request for the administration is either answered by the login, with the
  -- state as it was, or carries a session cookie that is valid at its time.
  pub administration-Session :
      (encode : Bytes → Bytes) (p : OidcProvider) (now : Time) (q : LoginRequest) (r : AdminRequest)
      (w : World W C S)
      → parts.provider ≡ oidc_auth encode p
      → TurnedAway w (serve parts now (administration q r) w)
        ⊎ ((who : Identity) × Session p now q.request who)
  unfolding serve
  administration-Session encode p now q r w behind =
      let gate : parts.provider.login_middleware now q
          ≡ gate_status (login_middleware p now q.request) =
        ap (λ (x : AuthProvider LoginRequest). x.login_middleware now q) behind in
      subst (λ g. TurnedAway w (under g r w) ⊎ ((who : Identity) × Session p now q.request who))
        (sym gate) (gate_decides p now q r w _ refl)
