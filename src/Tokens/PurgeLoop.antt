-- ===== src/Tokens/PurgeLoop.antt =====
-- The background loops of internal/auth/file-token-store.go and internal/auth/pg-token-store.go. The
-- ticker and the channel are the sequence of what the loop's `select` takes.
use gimme.Base.{◌≤◌, List, [], ◌∷◌, All, Option, none, some, ◌≡◌, refl, ◌∙◌}
use gimme.Tokens.{Time}

-- A tick at a time, or the channel that `Close` closed.
pub data Turn : Type 0 where
  ticked : Time → Turn
  stopped : Turn

-- The turns that the loop takes, each tick with a sweep.
unfoldable pub purge_loop {ℓ} : {S : Type ℓ} → (Time → S → S) → List Turn → S → S
purge_loop sweep [] s = s
purge_loop sweep (ticked now ∷ turns) s = purge_loop sweep turns (sweep now s)
purge_loop sweep (stopped ∷ turns) s = s

-- `stopCh`, which the language does not let a program close twice: `none` is a panic.
pub data StopChannel : Type 0 where
  open_channel closed_channel : StopChannel

abbrev pub close_channel : StopChannel → Option StopChannel
close_channel open_channel = some closed_channel
close_channel closed_channel = none

-- `Close` of both stores.
unfoldable pub close_store : StopChannel → Option StopChannel
close_store closed_channel = some closed_channel
close_store open_channel = close_channel open_channel

-- Close never panics, however often it is called, and leaves the channel closed.
close_store-closed : (ch : StopChannel) → close_store ch ≡ some closed_channel
unfolding close_store
close_store-closed open_channel = refl
close_store-closed closed_channel = refl

-- No tick is after the time.
abbrev pub Before : Time → Turn → Type 0
Before now (ticked t) = t ≤ now
Before now stopped = Unit

module _ {ℓ κ μ} {S : Type ℓ} {B : Type κ} (sweep : Time → S → S) (Inv : S → Type μ) (view : S → B)
    (now : Time)
    (step : (t : Time) (s : S)
      → t ≤ now
      → Inv s
      → Inv (sweep t s) × (view (sweep t s) ≡ view s)) where
  -- What no sweep changes, a loop does not change.
  pub purge_loop-same :
      (turns : List Turn) (s : S)
      → All (Before now) turns
      → Inv s
      → Inv (purge_loop sweep turns s) × (view (purge_loop sweep turns s) ≡ view s)
  unfolding purge_loop
  purge_loop-same [] s h i = (i, refl)
  purge_loop-same (stopped ∷ turns) s h i = (i, refl)
  purge_loop-same (ticked t ∷ turns) s (b, h) i =
      let (i', same) = step t s b i in
      let (end, later) = purge_loop-same turns (sweep t s) h i' in (end, later ∙ same)
