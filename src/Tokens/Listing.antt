-- ===== src/Tokens/Listing.antt =====
-- Proofs about List of the file store.
use gimme.Base.{
  ℕ, Bytes, text_eq, List, [], ◌∷◌, some, All, ◌≡◌, refl, ◌∙◌, subst, Bool-cases, inl, inr,
}
use mathlib.Core.List.{Mem, Perm, mem-cons_self, mem-cons_of_mem}
use mathlib.Core.List.Perm
use gimme.Dict.{Listed, Distinct-Listed}
use gimme.Tokens.{TokenEntry}
use gimme.Tokens.Files.{Codec}
use gimme.Tokens.FileStore.{FileTokenStore, Maps, entries_of, get_by_hash, list}
use gimme.Tokens.Consistent.{IsConsistent}
use gimme.Tokens.Newest.{IsNewest, newest_first-perm, newest_first-IsNewest, All-newest_first}
use gimme.Tokens.Reach.{Valid}
use gimme.Tokens.Loading.{find_hash}
use gimme.Tokens.Restart.{find_hash_maps}

same_entry : {e f : TokenEntry} → some e ≡ some f → e ≡ f
same_entry h = cc

find_hash-Mem :
    (h : Bytes) (e : TokenEntry) (es : List TokenEntry) → find_hash h es ≡ some e → Mem e es
find_hash-Mem h e [] f = cc
find_hash-Mem h e (g ∷ es) f = elim (Bool-cases (text_eq g.token_hash h)) [
  | inl q ↦
      let here : g ≡ e = same_entry (rw q at f) in subst (λ x. Mem x (g ∷ es)) here mem-cons_self
  | inr q ↦
      let rest : find_hash h es ≡ some e = rw q at f in
      mem-cons_of_mem g (find_hash-Mem h e es rest)
]

module _ (m : Maps) (c : IsConsistent m) where
  -- Each entry that the maps hold is found under its own hash.
  entries_of-found :
      (bs : List (Bytes × ℕ))
      → Listed m.by_id bs
      → All (λ (e : TokenEntry). get_by_hash e.token_hash m ≡ some e) (entries_of m.heap bs)
  unfolding entries_of get_by_hash
  entries_of-found [] l = tt
  entries_of-found ((k, p) ∷ bs) (at, l) =
      let link = c.ids k p at in
      let rest = entries_of-found bs l in
      rw (link.stored) (rw (link.by_hash, link.stored) refl, rest)

module _ (codec : Codec) where
  -- What a list of the entries of a store is: newest first, as many times as the store holds them, those
  -- that are found under their own hashes, and all that are found under any hash.
  pub record Complete (s : FileTokenStore) (es : List TokenEntry) : Type 0 where
    pub ordered : IsNewest es
    pub once : Perm es (entries_of s.maps.heap s.maps.by_id)
    pub found : All (λ (e : TokenEntry). get_by_hash e.token_hash s.maps ≡ some e) es
    pub all : (h : Bytes) (e : TokenEntry) → get_by_hash h s.maps ≡ some e → Mem e es

  -- In a valid file store, List gives the entries newest first, each as often as the store holds it; each
  -- is what its own hash leads to, and whatever a hash leads to is among them.
  pub list-Complete : (s : FileTokenStore) → Valid s → Complete s (list codec s)
  unfolding list
  list-Complete s v =
      let es = entries_of s.maps.heap s.maps.by_id in
      record {
        ordered = newest_first-IsNewest es;
        once = newest_first-perm es;
        found =
            All-newest_first (λ (e : TokenEntry). get_by_hash e.token_hash s.maps ≡ some e) es
              (entries_of-found s.maps v s.maps.by_id (Distinct-Listed s.maps.by_id v.distinct));
        all = λ h e at.
            (Perm.mem_iff (newest_first-perm es)).1
              (find_hash-Mem h e es (find_hash_maps s.maps v h ∙ at));
      }
