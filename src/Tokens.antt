-- ===== src/Tokens.antt =====
-- internal/auth/token-store.go: issued API tokens, and the interface of the stores that keep them.
pub mod Files
pub mod FileStore
pub mod Newest
pub mod Listing
mod ListingTests
pub mod Consistent
pub mod Steps
pub mod Views
pub mod Purge
pub mod PurgeLoop
pub mod Reach
pub mod Contract
pub mod FileContract
pub mod Loading
pub mod Restart
pub mod Postgres
pub mod Redis
pub mod Tests
mod RestartTests
use gimme.Base.{ℕ, Bytes, ltb, ◌==◌, if◌then◌else◌, Bool, true, false, not, ◌&&◌, List, Option}

-- A time.Time in nanoseconds since Go's zero time, which is 0 here.
abbrev pub Time : Type 0
Time = ℕ

abbrev pub is_zero : Time → Bool
is_zero t = t == 0

pub record TokenEntry : Type 0 where
  pub id : Bytes
  pub name : Bytes
  pub token_hash : Bytes
  pub created_at : Time
  pub expires_at : Time
  pub revoked_at : Time

unfoldable pub is_revoked : TokenEntry → Bool
is_revoked e = not (is_zero e.revoked_at)

unfoldable pub is_expired : Time → TokenEntry → Bool
is_expired now e = not (is_zero e.expires_at) && ltb e.expires_at now

unfoldable pub is_valid : Time → TokenEntry → Bool
unfolding is_revoked is_expired
is_valid now e = not (is_revoked e) && not (is_expired now e)

-- The interface TokenStore. A method takes the time it reads from the clock; `save` returns whether
-- it succeeded. GetByHash is its answer, `get_by_hash`, and the state that it leaves, `looked_up`; List is
-- `list` and `listed`.
pub record TokenStore (S : Type 0) : Type 0 where
  pub save : TokenEntry → S → Bool × S
  pub get_by_hash : Bytes → S → Option TokenEntry
  pub looked_up : Bytes → S → S
  pub list : S → List TokenEntry
  pub listed : S → S
  pub revoke : Time → Bytes → S → Bool × S
  pub delete : Bytes → S → Bool × S
