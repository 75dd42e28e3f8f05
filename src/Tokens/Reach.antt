-- ===== src/Tokens/Reach.antt =====
-- The states that a file store reaches from an empty one, and its operations as a client sees them.
use gimme.Base.{Bytes, true, false, none, ◌≡◌, refl, sym, subst, arith, Option-cases, inl, inr}
use gimme.Dict.{lookup, Distinct-Listed}
use gimme.Tokens.{Time, TokenEntry}
use gimme.Tokens.Files.{Codec, Disk}
use gimme.Tokens.FileStore.{
  FileTokenStore, Maps, empty_maps, put, mark_revoked, take_out, purge_each, flush_maps, save,
  revoke, delete, purge_expired,
}
use gimme.Tokens.Consistent.{IsConsistent, IsFresh, empty_maps-IsConsistent, put-IsConsistent}
use gimme.Tokens.Steps.{
  Known, known_of_lookup, revoked_maps, deleted_maps, mark_revoked-eq, take_out-eq,
  revoked_maps-IsConsistent, deleted_maps-IsConsistent,
}
use gimme.Tokens.Purge.{purge_each-IsConsistent}

-- One operation; a new entry brings an id and a hash that the store does not know.
pub data Step (codec : Codec) (s : FileTokenStore) : FileTokenStore → Type 0 where
  saved : (e : TokenEntry) → IsFresh e s.maps → Step codec s (save codec e s).1
  revoked : (now : Time) (id : Bytes) → Step codec s (revoke codec now id s).1
  deleted : (id : Bytes) → Step codec s (delete codec id s).1
  purged : (now : Time) → Step codec s (purge_expired codec now s)

pub data Reach (codec : Codec) (d : Disk) : FileTokenStore → Type 0 where
  start : Reach codec d (record { maps = empty_maps; disk = d })
  next : {s t : FileTokenStore} → Reach codec d s → Step codec s t → Reach codec d t

flush_maps-maps : (codec : Codec) (m : Maps) (d : Disk) → (flush_maps codec m d).1.maps ≡ m
unfolding flush_maps
flush_maps-maps codec m d = refl

module _ (codec : Codec) (s : FileTokenStore) where
  pub maps-save : (e : TokenEntry) → (save codec e s).1.maps ≡ put e s.maps
  unfolding save
  maps-save e = flush_maps-maps codec (put e s.maps) s.disk

  pub maps-revoke_unknown :
      (now : Time) (id : Bytes) → lookup id s.maps.by_id ≡ none → revoke codec now id s ≡ (false, s)
  unfolding revoke mark_revoked
  maps-revoke_unknown now id h = ground arith

  pub maps-delete_unknown :
      (id : Bytes) → lookup id s.maps.by_id ≡ none → delete codec id s ≡ (false, s)
  unfolding delete take_out
  maps-delete_unknown id h = ground arith

  module _ (c : IsConsistent s.maps) (id : Bytes) (k : Known s.maps id) where
    pub maps-revoke :
        (now : Time)
        → ((revoke codec now id s).0 ≡ true)
          × ((revoke codec now id s).1.maps ≡ revoked_maps s.maps c now id k)
    unfolding revoke flush_maps
    maps-revoke now = rw (mark_revoked-eq s.maps c now id k, revoke) (refl, refl)

    pub maps-delete :
        ((delete codec id s).0 ≡ true) × ((delete codec id s).1.maps ≡ deleted_maps s.maps c id k)
    unfolding delete flush_maps
    maps-delete = rw (take_out-eq s.maps c id k, delete) (refl, refl)

  pub maps-purge :
      (now : Time) → (purge_expired codec now s).maps ≡ (purge_each now s.maps.by_id s.maps).0
  unfolding purge_expired flush_maps
  maps-purge now = ground arith

abbrev pub Valid : FileTokenStore → Type 0
Valid s = IsConsistent s.maps

pub Step-Valid :
    (codec : Codec) (s : FileTokenStore) {t : FileTokenStore} → Valid s → Step codec s t → Valid t
Step-Valid codec s c (saved e f) =
    subst IsConsistent (sym (maps-save codec s e)) (put-IsConsistent s.maps c e f)
Step-Valid codec s c (revoked now id) = elim (Option-cases (lookup id s.maps.by_id)) [
  | inl h ↦ subst (λ r. Valid r.1) (sym (maps-revoke_unknown codec s now id h)) c
  | inr (p, h) ↦
      let k = known_of_lookup s.maps c id p h in
      subst IsConsistent (sym (maps-revoke codec s c id k now).1)
        (revoked_maps-IsConsistent s.maps c now id k)
]
Step-Valid codec s c (deleted id) = elim (Option-cases (lookup id s.maps.by_id)) [
  | inl h ↦ subst (λ r. Valid r.1) (sym (maps-delete_unknown codec s id h)) c
  | inr (p, h) ↦
      let k = known_of_lookup s.maps c id p h in
      subst IsConsistent (sym (maps-delete codec s c id k).1)
        (deleted_maps-IsConsistent s.maps c id k)
]
Step-Valid codec s c (purged now) =
    subst IsConsistent (sym (maps-purge codec s now))
      (purge_each-IsConsistent now s.maps.by_id s.maps c c.distinct
        (Distinct-Listed s.maps.by_id c.distinct)).0

-- Whatever the operations, their order and the outcomes of the flushes, in each state that the store
-- reaches from an empty one the two maps agree: an id leads to an entry of that id, a hash to an
-- entry of that hash, and each entry that one map holds is held by the other at the same pointer.
pub Reach-Valid : (codec : Codec) (d : Disk) {s : FileTokenStore} → Reach codec d s → Valid s
Reach-Valid codec d start = empty_maps-IsConsistent
Reach-Valid codec d (next {s = s} r st) = Step-Valid codec s (Reach-Valid codec d r) st
