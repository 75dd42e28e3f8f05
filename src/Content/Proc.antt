-- ===== src/Content/Proc.antt =====
-- The goroutines of an errgroup as processes over a shared world: a process is a sequence of calls,
-- each of which changes the world and goes on by what the world was. A schedule says which goroutine
-- makes the next call; `Wait` runs what the schedule leaves. The limit of the group only removes
-- schedules.
use gimme.Base.{ℕ, zero, suc, List, [], ◌∷◌, Option, none, some, All}
use gimme.Errors.{Failure}

pub data Proc (W : Type 0) : Type 0 where
  finished : Option Failure → Proc W
  call : (W → W) → (W → Proc W) → Proc W

-- The group's goroutines, the first error in time, and the world.
pub record Group (W : Type 0) : Type 0 where
  pub procs : List (Proc W)
  pub first_err : Option Failure
  pub world : W

module _ {W : Type 0} where
  -- The error that a goroutine returns by its last call.
  abbrev note : Option Failure → Proc W → Option Failure
  note (some e) p = some e
  note none (finished e) = e
  note none (call f k) = none

  -- Goroutine `i` makes its next call; one that is finished, or is not there, changes nothing.
  unfoldable pub step_list : ℕ → List (Proc W) → W → Option Failure → Group W
  step_list i [] w e = record { procs = []; first_err = e; world = w }
  step_list zero (finished r ∷ ps) w e = record {
    procs = finished r ∷ ps;
    first_err = e;
    world = w;
  }
  step_list zero (call f k ∷ ps) w e = record {
    procs = k w ∷ ps;
    first_err = note e (k w);
    world = f w;
  }
  step_list (suc i) (p ∷ ps) w e =
      let g = step_list i ps w e in
      record { procs = p ∷ g.procs; first_err = g.first_err; world = g.world }

  unfoldable pub run_schedule : List ℕ → Group W → Group W
  unfolding step_list
  run_schedule [] g = g
  run_schedule (i ∷ is) g = run_schedule is (step_list i g.procs g.world g.first_err)

  -- One goroutine runs to its end.
  unfoldable pub run_proc : Proc W → W → Option Failure → Option Failure × W
  run_proc (finished r) w e = (note e (finished r), w)
  run_proc (call f k) w e = run_proc (k w) (f w) e

  unfoldable pub run_all : List (Proc W) → W → Option Failure → Option Failure × W
  unfolding run_proc
  run_all [] w e = (e, w)
  run_all (p ∷ ps) w e = let (e', w') = run_proc p w e in run_all ps w' e'

  -- `eg.Wait()` after the schedule: the first error, and the world.
  unfoldable pub wait : List ℕ → List (Proc W) → W → Option Failure × W
  unfolding run_schedule run_all
  wait schedule procs w =
      let g = run_schedule schedule (record { procs = procs; first_err = none; world = w }) in
      run_all g.procs g.world g.first_err

  module _ (Rel : W → W → Type 0) (rel_refl : (w : W) → Rel w w)
      (rel_trans : (u v w : W) → Rel u v → Rel v w → Rel u w) where
    -- Every call of the process relates the world before to the world behind.
    abbrev pub Keeps : Proc W → Type 0
    Keeps (finished r) = Unit
    Keeps (call f k) = ((w : W) → Rel w (f w)) × ((w : W) → Keeps (k w))

    step_list-Keeps :
        (i : ℕ) (ps : List (Proc W)) (w : W) (e : Option Failure)
        → All Keeps ps
        → All Keeps (step_list i ps w e).procs × Rel w (step_list i ps w e).world
    unfolding step_list
    step_list-Keeps i [] w e h = (tt, rel_refl w)
    step_list-Keeps zero (finished r ∷ ps) w e h = (h, rel_refl w)
    step_list-Keeps zero (call f k ∷ ps) w e ((hf, hk), h) = ((hk w, h), hf w)
    step_list-Keeps (suc i) (p ∷ ps) w e (hp, h) =
        let (hs, r) = step_list-Keeps i ps w e h in ((hp, hs), r)

    run_schedule-Keeps :
        (is : List ℕ) (g : Group W)
        → All Keeps g.procs
        → All Keeps (run_schedule is g).procs × Rel g.world (run_schedule is g).world
    unfolding run_schedule
    run_schedule-Keeps [] g h = (h, rel_refl g.world)
    run_schedule-Keeps (i ∷ is) g h =
        let (hs, r) = step_list-Keeps i g.procs g.world g.first_err h in
        let next = step_list i g.procs g.world g.first_err in
        let (hs', r') = run_schedule-Keeps is next hs in
        (hs', rel_trans g.world next.world (run_schedule is next).world r r')

    run_proc-Keeps : (p : Proc W) (w : W) (e : Option Failure) → Keeps p → Rel w (run_proc p w e).1
    unfolding run_proc
    run_proc-Keeps (finished r) w e h = rel_refl w
    run_proc-Keeps (call f k) w e (hf, hk) =
        rel_trans w (f w) (run_proc (k w) (f w) e).1 (hf w) (run_proc-Keeps (k w) (f w) e (hk w))

    run_all-Keeps :
        (ps : List (Proc W)) (w : W) (e : Option Failure) → All Keeps ps → Rel w (run_all ps w e).1
    unfolding run_all
    run_all-Keeps [] w e h = rel_refl w
    run_all-Keeps (p ∷ ps) w e (hp, h) =
        let (e', w') = run_proc p w e in
        rel_trans w w' (run_all ps w' e').1 (run_proc-Keeps p w e hp) (run_all-Keeps ps w' e' h)

    -- Under every schedule, a group whose calls keep to the relation keeps to it as a whole.
    pub wait-Keeps :
        (schedule : List ℕ) (ps : List (Proc W)) (w : W)
        → All Keeps ps
        → Rel w (wait schedule ps w).1
    unfolding wait
    wait-Keeps schedule ps w h =
        let start : Group W = record { procs = ps; first_err = none; world = w } in
        let (hs, r) = run_schedule-Keeps schedule start h in
        let g = run_schedule schedule start in
        rel_trans w g.world (run_all g.procs g.world g.first_err).1 r
          (run_all-Keeps g.procs g.world g.first_err hs)
