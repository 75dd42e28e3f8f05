-- ===== src/Tokens/Newest.antt =====
-- The sort of List in internal/auth/file-token-store.go and internal/auth/redis-token-store.go: slices.SortFunc
-- by the creation, newest first. Which of two equal entries comes first is open there; here it is the
-- later of the list.
use gimme.Base.{◌≤◌, leb, if◌then◌else◌, List, [], ◌∷◌, All, arith, Bool-cases, inl, inr}
use gimme.Tokens.{TokenEntry}
use mathlib.Core.List.{Perm}
use mathlib.Core.List.Perm

unfoldable pub insert_newest : TokenEntry → List TokenEntry → List TokenEntry
insert_newest e [] = e ∷ []
insert_newest e (f ∷ fs) =
    let later = f ∷ insert_newest e fs in
    if leb f.created_at e.created_at then e ∷ f ∷ fs else later

unfoldable pub newest_first : List TokenEntry → List TokenEntry
unfolding insert_newest
newest_first [] = []
newest_first (e ∷ es) = insert_newest e (newest_first es)

-- No entry of the list is newer than the first.
abbrev pub IsOldest : TokenEntry → List TokenEntry → Type 0
IsOldest e es = All (λ (f : TokenEntry). f.created_at ≤ e.created_at) es

-- Each entry is at least as new as all behind it.
abbrev pub IsNewest : List TokenEntry → Type 0
IsNewest [] = Unit
IsNewest (e ∷ es) = IsOldest e es × IsNewest es

insert_newest-perm : (e : TokenEntry) (es : List TokenEntry) → Perm (insert_newest e es) (e ∷ es)
unfolding insert_newest
insert_newest-perm e [] = Perm.rfl
insert_newest-perm e (f ∷ fs) = elim (Bool-cases (leb f.created_at e.created_at)) [
  | inl q ↦ rw (q, insert_newest) Perm.rfl
  | inr q ↦
      rw (q, insert_newest) (Perm.trans (Perm.cons f (insert_newest-perm e fs)) (Perm.swap e f fs))
]

pub newest_first-perm : (es : List TokenEntry) → Perm (newest_first es) es
unfolding newest_first
newest_first-perm [] = Perm.rfl
newest_first-perm (e ∷ es) =
    Perm.trans (insert_newest-perm e (newest_first es)) (Perm.cons e (newest_first-perm es))

module _ (P : TokenEntry → Type 0) where
  All-insert_newest :
      (e : TokenEntry) (es : List TokenEntry) → P e → All P es → All P (insert_newest e es)
  unfolding insert_newest
  All-insert_newest e [] p h = (p, tt)
  All-insert_newest e (f ∷ fs) p (q, h) = elim (Bool-cases (leb f.created_at e.created_at)) [
    | inl b ↦ rw (b, insert_newest) (p, (q, h))
    | inr b ↦ rw (b, insert_newest) (q, All-insert_newest e fs p h)
  ]

  pub All-newest_first : (es : List TokenEntry) → All P es → All P (newest_first es)
  unfolding newest_first
  All-newest_first [] h = tt
  All-newest_first (e ∷ es) (p, h) = All-insert_newest e (newest_first es) p (All-newest_first es h)

IsOldest-newer :
    (e f : TokenEntry) (es : List TokenEntry)
    → f.created_at ≤ e.created_at
    → IsOldest f es
    → IsOldest e es
IsOldest-newer e f [] h k = tt
IsOldest-newer e f (g ∷ es) h (b, k) = (omega (arith, h, b), IsOldest-newer e f es h k)

insert_newest-IsNewest :
    (e : TokenEntry) (es : List TokenEntry) → IsNewest es → IsNewest (insert_newest e es)
unfolding insert_newest
insert_newest-IsNewest e [] s = (tt, tt)
insert_newest-IsNewest e (f ∷ fs) (below, s) = elim (Bool-cases (leb f.created_at e.created_at)) [
  | inl q ↦
      let older : f.created_at ≤ e.created_at = ground (arith, q) in
      rw (q, insert_newest) ((older, IsOldest-newer e f fs older below), (below, s))
  | inr q ↦
      let newer : e.created_at ≤ f.created_at = ground (arith, q) in
      rw (q, insert_newest)
        (
          All-insert_newest (λ (g : TokenEntry). g.created_at ≤ f.created_at) e fs newer below,
          insert_newest-IsNewest e fs s,
        )
]

pub newest_first-IsNewest : (es : List TokenEntry) → IsNewest (newest_first es)
unfolding newest_first
newest_first-IsNewest [] = tt
newest_first-IsNewest (e ∷ es) =
    insert_newest-IsNewest e (newest_first es) (newest_first-IsNewest es)
