-- ===== src/Auth/AnyStore.antt =====
-- Proofs about `AuthenticateMiddleware` over any store that keeps the contract of a token store.
use gimme.Base.{
  ◌<◌, Bytes, text_eq, Bool, true, false, not, ◌&&◌, [], Option, none, some, ◌≡◌, refl, ap, ◌∙◌,
  arith, Bool-cases, inl, inr,
}
use gimme.Tokens.{Time, TokenEntry, TokenStore, is_valid}
use gimme.Tokens.Contract.{Contract, marked, without}
use gimme.Auth.{hash_token, extract_token, admits, authenticate, after_lookup, revoke_token}

-- The entry is that of the identifier.
abbrev pub is_entry_of : Bytes → Option TokenEntry → Bool
is_entry_of id none = false
is_entry_of id (some e) = text_eq e.id id

module _ {kept : Time → Time} {S : Type 0} (store : TokenStore S) (IsValid : S → Type 0)
    (IsFresh : TokenEntry → S → Type 0) (contract : Contract kept store IsValid IsFresh)
    (sha256 : Bytes → Bytes) where
  -- The entry that the token of a header leads to.
  abbrev pub entry_of : Bytes → S → Option TokenEntry
  entry_of header s = store.get_by_hash (hash_token sha256 (extract_token header)) s

  admits-marked :
      (now t : Time) (id : Bytes) (o : Option TokenEntry)
      → 0 < t
      → admits sha256 store now (marked t id o)
        ≡ (admits sha256 store now o && not (is_entry_of id o))
  unfolding is_valid
  admits-marked now t id none h = refl
  admits-marked now t id (some e) h = ground arith

  admits-without :
      (now : Time) (id : Bytes) (o : Option TokenEntry)
      → admits sha256 store now (without id o)
        ≡ (admits sha256 store now o && not (is_entry_of id o))
  admits-without now id none = refl
  admits-without now id (some e) = ground arith

  authenticate-via :
      (now : Time) (id header : Bytes) (s s' : S)
      → (admits sha256 store now (entry_of header s') ≡ (
          admits sha256 store now (entry_of header s) && not (is_entry_of id (entry_of header s))))
      → authenticate sha256 store now header s'
        ≡ (authenticate sha256 store now header s && not (is_entry_of id (entry_of header s)))
  unfolding authenticate
  authenticate-via now id header s s' h = elim (Bool-cases (text_eq (extract_token header) [])) [
    | inl q ↦ rw (q, authenticate) refl
    | inr q ↦ rw (q, authenticate) h
  ]

  -- What a header is answered depends on the lookups of the store alone.
  pub authenticate-same :
      (now : Time) (header : Bytes) (s s' : S)
      → ((h : Bytes) → store.get_by_hash h s' ≡ store.get_by_hash h s)
      → authenticate sha256 store now header s' ≡ authenticate sha256 store now header s
  unfolding authenticate
  authenticate-same now header s s' same = elim (Bool-cases (text_eq (extract_token header) [])) [
    | inl q ↦ rw (q, authenticate) refl
    | inr q ↦ rw (q, authenticate, same (hash_token sha256 (extract_token header))) refl
  ]

  -- The lookup of a request keeps the store valid and every lookup as it was.
  pub get-after_lookup :
      (header : Bytes) (s : S)
      → IsValid s
      → IsValid (after_lookup sha256 store header s)
        × ((h : Bytes)
            → store.get_by_hash h (after_lookup sha256 store header s) ≡ store.get_by_hash h s)
  unfolding after_lookup
  get-after_lookup header s v = elim (Bool-cases (text_eq (extract_token header) [])) [
    | inl q ↦ rw (q) (v, (λ h. refl))
    | inr q ↦ rw (q) (contract.get-looked_up (hash_token sha256 (extract_token header)) s v)
  ]

  -- Over any store that keeps the contract, from a valid state: after a revocation that answers that
  -- the identifier is known, at a time that the store does not keep as zero, a header is admitted at any
  -- time exactly if it was and its token does not lead to the entry of that identifier.
  pub authenticate-revoke_token :
      (now t : Time) (id header : Bytes) (s : S)
      → IsValid s
      → 0 < kept t
      → (revoke_token store t id s).0 ≡ true
      → authenticate sha256 store now header (revoke_token store t id s).1
        ≡ (authenticate sha256 store now header s && not (is_entry_of id (entry_of header s)))
  unfolding revoke_token
  authenticate-revoke_token now t id header s v h done =
      authenticate-via now id header s (store.revoke t id s).1 (
        ap (admits sha256 store now)
          ((contract.get-revoke t id s v done).1 (hash_token sha256 (extract_token header)))
        ∙ admits-marked now (kept t) id (entry_of header s) h)

  -- Over any store that keeps the contract, from a valid state: after a deletion that answers that the
  -- identifier is known, a header is admitted at any time exactly if it was and its token does not lead
  -- to the entry of that identifier.
  authenticate-delete_any :
      (now : Time) (id header : Bytes) (s : S)
      → IsValid s
      → (store.delete id s).0 ≡ true
      → authenticate sha256 store now header (store.delete id s).1
        ≡ (authenticate sha256 store now header s && not (is_entry_of id (entry_of header s)))
  authenticate-delete_any now id header s v done =
      authenticate-via now id header s (store.delete id s).1 (
        ap (admits sha256 store now)
          ((contract.get-delete id s v done).1 (hash_token sha256 (extract_token header)))
        ∙ admits-without now id (entry_of header s))
