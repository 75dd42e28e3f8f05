-- ===== src/Strings/Clean.antt =====
-- path.Clean and path.Base of Go's standard library, by the rules of their documentation. A path is
-- resolved segment by segment on a stack whose top is the innermost directory.
use gimme.Base.{
  ℕ, Bytes, ◌==◌, text_eq, if◌then◌else◌, Bool, false, ◌&&◌, ◌||◌, List, [], ◌∷◌, reverse, not,
}
use gimme.Strings.Split.{split, join}

abbrev pub slash : ℕ
slash = b'/'

abbrev pub dot : Bytes
dot = b'.' ∷ []

abbrev pub dot_dot : Bytes
dot_dot = b'.' ∷ b'.' ∷ []

-- `..` leaves the directory on top; at the bottom it stays in a relative path and is dropped in a
-- rooted one.
unfoldable pub leave : Bool → List Bytes → List Bytes
leave rooted [] = if rooted then [] else dot_dot ∷ []
leave rooted (top ∷ stack) =
    if not rooted && text_eq top dot_dot then dot_dot ∷ top ∷ stack else stack

unfoldable pub resolve : Bool → List Bytes → Bytes → List Bytes
unfolding leave text_eq
resolve rooted stack segment =
    if text_eq segment [] || text_eq segment dot
    then stack
    else if text_eq segment dot_dot
    then leave rooted stack
    else segment ∷ stack

unfoldable pub resolve_all : Bool → List Bytes → List Bytes → List Bytes
unfolding resolve
resolve_all rooted stack [] = stack
resolve_all rooted stack (s ∷ ss) = resolve_all rooted (resolve rooted stack s) ss

abbrev pub is_rooted : Bytes → Bool
is_rooted [] = false
is_rooted (c ∷ _) = c == slash

-- An empty result is written `.`.
unfoldable pub or_dot : Bytes → Bytes
or_dot [] = dot
or_dot (c ∷ s) = c ∷ s

unfoldable pub clean : Bytes → Bytes
unfolding resolve_all or_dot split join
clean path =
    let rooted = is_rooted path in
    let body = join (reverse (resolve_all rooted [] (split path slash))) slash in
    if rooted then slash ∷ body else or_dot body

unfoldable pub last_or : Bytes → List Bytes → Bytes
last_or d [] = d
last_or d (p ∷ ps) = last_or p ps

-- path.Base of a cleaned path: its last segment.
unfoldable pub base_name : Bytes → Bytes
unfolding last_or split
base_name cleaned = last_or cleaned (split cleaned slash)
