-- ===== src/Auth/Revocation.antt =====
-- Proofs about the middleware behind `Revoke`, `Delete` and `purgeExpired` of the file store.
use gimme.Base.{
  ◌<◌, ◌≤◌, Bytes, true, false, ◌&&◌, none, some, ◌≡◌, ◌≢◌, sym, ap, ◌∙◌, arith, Option-cases,
  Bool-cases, inl, inr,
}
use gimme.Dict.{lookup}
use gimme.Tokens.{Time, TokenEntry, is_valid, is_expired}
use gimme.Tokens.Files.{Codec}
use gimme.Tokens.FileStore.{FileTokenStore, get_by_hash, file_store, revoke, delete, purge_expired}
use gimme.Tokens.Steps.{known_of_lookup, revoked_entry, revoked_maps, deleted_maps}
use gimme.Tokens.Views.{get_by_hash-revoked, get_by_hash-deleted}
use gimme.Tokens.Reach.{Valid, maps-revoke, maps-delete, maps-revoke_unknown, maps-delete_unknown}
use gimme.Auth.{hash_token, extract_token, admits}
use gimme.Tokens.Reach.{maps-purge}
use gimme.Tokens.Purge.{purge_each-IsConsistent, survives, listed}
use gimme.Dict.{Distinct-Listed}
use gimme.Auth.Laws

expired_later :
    (now t : Time) (e : TokenEntry) → t ≤ now → is_expired t e ≡ true → is_valid now e ≡ false
unfolding is_valid is_expired
expired_later now t e h k = ground arith

module _ (codec : Codec) (sha256 : Bytes → Bytes) where
  -- From a valid store, when `Revoke` of an identifier at a time that is not zero answers that it is
  -- known, no header whose token led to the entry of that identifier is admitted any more, at any time;
  -- a header whose token led to another entry, or to none, is admitted exactly when it was.
  authenticate-revoke :
      (now t : Time) (id header : Bytes) (s : FileTokenStore)
      → Valid s
      → 0 < t
      → (revoke codec t id s).0 ≡ true
      → ((e : TokenEntry)
          → Laws.entry_behind codec sha256 header s ≡ some e
          → e.id ≡ id
          → Laws.admitted codec sha256 now header (revoke codec t id s).1 ≡ false)
        × (((e : TokenEntry) → Laws.entry_behind codec sha256 header s ≡ some e → e.id ≢ id)
            → Laws.admitted codec sha256 now header (revoke codec t id s).1
              ≡ Laws.admitted codec sha256 now header s)
  authenticate-revoke now t id header s c pos_t done =
      elim (Option-cases (lookup id s.maps.by_id)) [
        | inl q ↦ absurd (cc (done, maps-revoke_unknown codec s t id q))
        | inr (p, q) ↦
            let k = known_of_lookup s.maps c id p q in
            let state : (revoke codec t id s).1.maps ≡ revoked_maps s.maps c t id k =
              (maps-revoke codec s c id k t).1 in
            let after =
              get_by_hash-revoked s.maps c id k t (hash_token sha256 (extract_token header)) in
            (
              λ e seen own.
                  let hit = Laws.hash_of_own codec sha256 header s c id k e seen own in
                  let view : get_by_hash (hash_token sha256 (extract_token header))
                        (revoked_maps s.maps c t id k)
                      ≡ some (revoked_entry s.maps c t id k) =
                    after ∙ rw hit in
                  Laws.authenticate_invalid codec sha256 now header (revoke codec t id s).1 (
                    ap
                      (λ x.
                        admits sha256 (file_store codec) now
                          (get_by_hash (hash_token sha256 (extract_token header)) x))
                      state
                    ∙ ap (admits sha256 (file_store codec) now) view
                    ∙ Laws.revoked_invalid codec sha256 now t k.link.entry pos_t),
              λ others.
                  let miss = Laws.hash_of_other codec sha256 header s c id k others in
                  Laws.admitted-congr codec sha256 now header (revoke codec t id s).1 s (
                    ap (λ x. get_by_hash (hash_token sha256 (extract_token header)) x) state
                    ∙ after
                    ∙ rw miss),
            )
      ]

  -- From a valid store, when `Delete` of an identifier answers that it is known, no header whose token
  -- led to the entry of that identifier is admitted any more, at any time; a header whose token led to
  -- another entry, or to none, is admitted exactly when it was.
  authenticate-delete :
      (now : Time) (id header : Bytes) (s : FileTokenStore)
      → Valid s
      → (delete codec id s).0 ≡ true
      → ((e : TokenEntry)
          → Laws.entry_behind codec sha256 header s ≡ some e
          → e.id ≡ id
          → Laws.admitted codec sha256 now header (delete codec id s).1 ≡ false)
        × (((e : TokenEntry) → Laws.entry_behind codec sha256 header s ≡ some e → e.id ≢ id)
            → Laws.admitted codec sha256 now header (delete codec id s).1
              ≡ Laws.admitted codec sha256 now header s)
  authenticate-delete now id header s c done = elim (Option-cases (lookup id s.maps.by_id)) [
    | inl q ↦ absurd (cc (done, maps-delete_unknown codec s id q))
    | inr (p, q) ↦
        let k = known_of_lookup s.maps c id p q in
        let state : (delete codec id s).1.maps ≡ deleted_maps s.maps c id k =
          (maps-delete codec s c id k).1 in
        let after = get_by_hash-deleted s.maps c id k (hash_token sha256 (extract_token header)) in
        (
          λ e seen own.
              let hit = Laws.hash_of_own codec sha256 header s c id k e seen own in
              let view : get_by_hash (hash_token sha256 (extract_token header))
                    (deleted_maps s.maps c id k)
                  ≡ none =
                after ∙ rw hit in
              Laws.authenticate_invalid codec sha256 now header (delete codec id s).1 (
                ap
                  (λ x.
                    admits sha256 (file_store codec) now
                      (get_by_hash (hash_token sha256 (extract_token header)) x))
                  state
                ∙ ap (admits sha256 (file_store codec) now) view),
          λ others.
              let miss = Laws.hash_of_other codec sha256 header s c id k others in
              Laws.admitted-congr codec sha256 now header (delete codec id s).1 s (
                ap (λ x. get_by_hash (hash_token sha256 (extract_token header)) x) state
                ∙ after
                ∙ rw miss),
        )
  ]

  -- A sweep of a valid store at a time that is not after the present changes no admission: it drops
  -- only entries that would be refused.
  pub authenticate-purge_expired :
      (now t : Time) (header : Bytes) (s : FileTokenStore)
      → Valid s
      → t ≤ now
      → Laws.admitted codec sha256 now header (purge_expired codec t s)
        ≡ Laws.admitted codec sha256 now header s
  authenticate-purge_expired now t header s c h =
      let view =
        (purge_each-IsConsistent t s.maps.by_id s.maps c c.distinct
            (Distinct-Listed s.maps.by_id c.distinct)).1
          (hash_token sha256 (extract_token header)) in
      let left : Laws.entry_behind codec sha256 header (purge_expired codec t s)
          ≡ survives t s.maps.by_id (Laws.entry_behind codec sha256 header s) =
        ap (get_by_hash (hash_token sha256 (extract_token header))) (maps-purge codec s t) ∙ view in
      elim (Option-cases (Laws.entry_behind codec sha256 header s)) [
        | inl q ↦
            Laws.admitted-congr codec sha256 now header (purge_expired codec t s) s
              (left ∙ ap (survives t s.maps.by_id) q ∙ sym q)
        | inr (e, q) ↦ elim (Bool-cases (is_expired t e && listed e.id s.maps.by_id)) [
          | inl dead ↦
              let gone : survives t s.maps.by_id (some e) ≡ none = rw dead in
              Laws.authenticate_invalid codec sha256 now header (purge_expired codec t s) (
                ap (admits sha256 (file_store codec) now)
                  (left ∙ ap (survives t s.maps.by_id) q ∙ gone))
              ∙ sym (
                  Laws.authenticate_invalid codec sha256 now header s (
                    ap (admits sha256 (file_store codec) now) q
                    ∙ expired_later now t e h (ground arith)))
          | inr live ↦
              let kept : survives t s.maps.by_id (some e) ≡ some e = rw live in
              Laws.admitted-congr codec sha256 now header (purge_expired codec t s) s
                (left ∙ ap (survives t s.maps.by_id) q ∙ kept ∙ sym q)
        ]
      ]
