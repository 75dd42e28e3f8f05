-- ===== src/Tokens/FileStore.antt =====
-- internal/auth/file-token-store.go: the store over two maps that share pointers to their entries.
-- A pointer is the number of the allocation, so an entry that is changed through one map changes in
-- the other.
use gimme.Base.{
  ℕ, ◌+◌, Bytes, ltb, ◌==◌, if◌then◌else◌, Bool, true, false, not, ◌&&◌, List, [], ◌∷◌, Option,
  none, some,
}
use gimme.Dict.{lookup, insert, remove}
use gimme.Tokens.{Time, is_zero, TokenEntry, TokenStore}
use gimme.Tokens.Newest.{newest_first}
use gimme.Tokens.Files.{Codec, Disk, flush, read_file}

pub record Heap : Type 0 where
  pub next : ℕ
  pub cell : ℕ → Option TokenEntry

abbrev pub write_cell : ℕ → TokenEntry → Heap → Heap
write_cell p e h = record h { cell = λ q. if p == q then some e else h.cell q }

-- `cp := *entry`, with the pointer to the copy.
abbrev pub allocate : TokenEntry → Heap → ℕ × Heap
allocate e h = (h.next, record { next = h.next + 1; cell = (write_cell h.next e h).cell })

pub record Maps : Type 0 where
  pub heap : Heap
  pub by_id : List (Bytes × ℕ)
  pub by_hash : List (Bytes × ℕ)

pub record FileTokenStore : Type 0 where
  pub maps : Maps
  pub disk : Disk

abbrev pub empty_maps : Maps
empty_maps = record { heap = record { next = 0; cell = λ p. none }; by_id = []; by_hash = [] }

abbrev pub read_cell : Heap → Option ℕ → Option TokenEntry
read_cell h none = none
read_cell h (some p) = h.cell p

-- Store a copy under both keys.
unfoldable pub put : TokenEntry → Maps → Maps
unfolding insert
put e m =
    let (p, heap) = allocate e m.heap in
    record { heap = heap; by_id = insert e.id p m.by_id; by_hash = insert e.token_hash p m.by_hash }

unfoldable pub put_all : List TokenEntry → Maps → Maps
unfolding put
put_all [] m = m
put_all (e ∷ es) m = put_all es (put e m)

-- The copies of the entries, in the order of one iteration over `byID`.
abbrev collected : Option TokenEntry → List TokenEntry → List TokenEntry
collected none es = es
collected (some e) es = e ∷ es

unfoldable pub entries_of : Heap → List (Bytes × ℕ) → List TokenEntry
entries_of h [] = []
entries_of h ((k, p) ∷ m) = collected (h.cell p) (entries_of h m)

unfoldable pub get_by_hash : Bytes → Maps → Option TokenEntry
unfolding lookup
get_by_hash hash m = read_cell m.heap (lookup hash m.by_hash)

-- The mutation of `Revoke`; `none` if the id is not known.
unfoldable pub mark_revoked : Time → Bytes → Maps → Option Maps
unfolding lookup
mark_revoked now id m = elim (lookup id m.by_id) [
  | none ↦ none
  | some p ↦ elim (m.heap.cell p) [
    | none ↦ none
    | some e ↦ some (record m { heap = write_cell p (record e { revoked_at = now }) m.heap })
  ]
]

-- The mutation of `Delete`.
unfoldable pub take_out : Bytes → Maps → Option Maps
unfolding lookup remove
take_out id m = elim (lookup id m.by_id) [
  | none ↦ none
  | some p ↦ elim (m.heap.cell p) [
    | none ↦ none
    | some e ↦
        some (record m { by_id = remove id m.by_id; by_hash = remove e.token_hash m.by_hash })
  ]
]

-- One round of `purgeExpired`, for a binding of the map it iterates over.
unfoldable pub purge_entry : Time → Bytes → ℕ → Maps → Maps × Bool
unfolding remove
purge_entry now id p m = elim (m.heap.cell p) [
  | none ↦ (m, false)
  | some e ↦
      if not (is_zero e.expires_at) && ltb e.expires_at now
      then (record m { by_id = remove id m.by_id; by_hash = remove e.token_hash m.by_hash }, true)
      else (m, false)
]

unfoldable pub purge_each : Time → List (Bytes × ℕ) → Maps → Maps × Bool
unfolding purge_entry
purge_each now [] m = (m, false)
purge_each now ((id, p) ∷ rest) m =
    let (m', removed) = purge_entry now id p m in
    let (m'', later) = purge_each now rest m' in (m'', if removed then true else later)

module _ (codec : Codec) where
  -- `flush` of the maps as they are.
  unfoldable pub flush_maps : Maps → Disk → Bool × FileTokenStore
  unfolding flush entries_of
  flush_maps m d =
      let (written, d') = flush codec (entries_of m.heap m.by_id) d in
      (written, record { maps = m; disk = d' })

  -- `NewFileTokenStore` with `load`: `none` when the file cannot be read.
  unfoldable pub new_file_token_store : Disk → Option FileTokenStore
  unfolding read_file put_all
  new_file_token_store d = elim (read_file codec d) [
    | none ↦ none
    | some es ↦ some (record { maps = put_all es empty_maps; disk = d })
  ]

  unfoldable pub save : TokenEntry → FileTokenStore → Bool × FileTokenStore
  unfolding put flush_maps
  save e s = flush_maps (put e s.maps) s.disk

  unfoldable pub list : FileTokenStore → List TokenEntry
  unfolding newest_first entries_of
  list s = newest_first (entries_of s.maps.heap s.maps.by_id)

  -- The error of the flush is logged and not returned.
  unfoldable pub revoke : Time → Bytes → FileTokenStore → Bool × FileTokenStore
  unfolding mark_revoked flush_maps
  revoke now id s = elim (mark_revoked now id s.maps) [
    | none ↦ (false, s)
    | some m ↦ (true, (flush_maps m s.disk).1)
  ]

  unfoldable pub delete : Bytes → FileTokenStore → Bool × FileTokenStore
  unfolding take_out flush_maps
  delete id s = elim (take_out id s.maps) [
    | none ↦ (false, s)
    | some m ↦ (true, (flush_maps m s.disk).1)
  ]

  unfoldable pub purge_expired : Time → FileTokenStore → FileTokenStore
  unfolding purge_each flush_maps
  purge_expired now s =
      let (m, removed) = purge_each now s.maps.by_id s.maps in
      if removed then (flush_maps m s.disk).1 else record s { maps = m }

  -- The store behind the interface.
  abbrev pub file_store : TokenStore FileTokenStore
  file_store = record {
    save = save;
    get_by_hash = λ hash s. get_by_hash hash s.maps;
    looked_up = λ hash s. s;
    list = list;
    listed = λ s. s;
    revoke = revoke;
    delete = delete;
  }
