-- ===== src/Api/Templates.antt =====
-- api/templates.go: the functions that the templates of the pages call. The texts of times are a
-- parameter.
use gimme.Base.{Bytes, if◌then◌else◌, ltb, Bool, false, not, ◌&&◌, [], ◌∷◌, ◌≡◌, arith}
use gimme.Tokens.{Time, TokenEntry, is_zero, is_revoked, is_expired, is_valid}

-- An em dash, in UTF-8.
abbrev pub dash : Bytes
dash = 226 ∷ 128 ∷ 148 ∷ []

-- `format` is Format with the layout of the pages.
unfoldable pub format_time : (Time → Bytes) → Time → Bytes
format_time format t = if is_zero t then dash else format t

-- `isExpired` and `isRevoked` of a time; `now` is the clock when the page is made.
unfoldable pub shows_expired : Time → Time → Bool
shows_expired now t = if is_zero t then false else ltb t now

unfoldable pub shows_revoked : Time → Bool
shows_revoked t = not (is_zero t)

-- The page shows an entry as neither revoked nor expired exactly if the middleware takes its token at
-- that time.
pub shown-is_valid :
    (now : Time) (e : TokenEntry)
    → is_valid now e ≡ (not (shows_revoked e.revoked_at) && not (shows_expired now e.expires_at))
unfolding is_valid shows_expired shows_revoked is_revoked is_expired
shown-is_valid now e = ground arith
