-- ===== src/Tokens/Contract.antt =====
-- What internal/auth/token-store.go promises of a store, whatever it keeps its entries in: a store is
-- seen as a function from hashes to entries.
use gimme.Base.{Bytes, text_eq, if◌then◌else◌, true, Option, none, some, ◌≡◌}
use gimme.Tokens.{Time, TokenEntry, TokenStore}

-- The entry of the identifier is revoked, and any other is as it was.
abbrev pub marked : Time → Bytes → Option TokenEntry → Option TokenEntry
marked now id none = none
marked now id (some e) = some (if text_eq e.id id then record e { revoked_at = now } else e)

-- The entry of the identifier is gone, and any other is as it was.
abbrev pub without : Bytes → Option TokenEntry → Option TokenEntry
without id none = none
without id (some e) = if text_eq e.id id then none else some e

-- The entry with its times as they are kept.
abbrev pub stored_as : (Time → Time) → TokenEntry → TokenEntry
stored_as kept e = record e {
  created_at = kept e.created_at;
  expires_at = kept e.expires_at;
  revoked_at = kept e.revoked_at;
}

-- It says what calls that succeed do to the lookups, and that GetByHash and List change none; the answer for
-- an unknown identifier, the order of List and Close are no part of it. `kept` is what the store keeps
-- of a time, and `IsFresh e s` says that the store may take the entry.
pub record Contract (kept : Time → Time) {S : Type 0} (store : TokenStore S) (IsValid : S → Type 0)
    (IsFresh : TokenEntry → S → Type 0) : Type 0 where
  pub get-save :
      (e : TokenEntry) (s : S)
      → IsValid s
      → IsFresh e s
      → (store.save e s).0 ≡ true
      → IsValid (store.save e s).1
        × ((h : Bytes)
            → store.get_by_hash h (store.save e s).1
              ≡ (if text_eq e.token_hash h then some (stored_as kept e) else store.get_by_hash h s))
  pub get-revoke :
      (now : Time) (id : Bytes) (s : S)
      → IsValid s
      → (store.revoke now id s).0 ≡ true
      → IsValid (store.revoke now id s).1
        × ((h : Bytes)
            → store.get_by_hash h (store.revoke now id s).1
              ≡ marked (kept now) id (store.get_by_hash h s))
  pub get-delete :
      (id : Bytes) (s : S)
      → IsValid s
      → (store.delete id s).0 ≡ true
      → IsValid (store.delete id s).1
        × ((h : Bytes)
            → store.get_by_hash h (store.delete id s).1 ≡ without id (store.get_by_hash h s))
  pub get-looked_up :
      (hash : Bytes) (s : S)
      → IsValid s
      → IsValid (store.looked_up hash s)
        × ((h : Bytes) → store.get_by_hash h (store.looked_up hash s) ≡ store.get_by_hash h s)
  pub get-listed :
      (s : S)
      → IsValid s
      → IsValid (store.listed s)
        × ((h : Bytes) → store.get_by_hash h (store.listed s) ≡ store.get_by_hash h s)
