-- ===== src/Main/System/Stop.antt =====
-- The end of the running program: that `main` can return, from wherever the program is.
use rosetta_mq.Prelude.{ℕ, suc, ◌≤◌, ◌≡◌, refl, ◌≢◌, ◌⊎◌, inl, inr, arith}
use rosetta_mq.Engine.Loop.{draining, returned}
use rosetta_mq.Main.System.Refines.{Phase-cases}
use rosetta_mq.Main.System.{World, System, MainPhase, waiting, stopping, exited, Action, Step, step}

module _ (w : World) where
  -- A number of steps, one after the other.
  pub data Steps : ℕ → System w → System w → Type 0 where
    rest : {s : System w} → Steps 0 s s
    go_on : {n : ℕ} {s t u : System w} → Step w s t → Steps n t u → Steps (suc n) s u

  -- A run of at most so many steps to the return of `main`.
  pub record CanExit (n : ℕ) (s : System w) : Type 0 where
    pub count : ℕ
    pub bounded : count ≤ n
    pub end_state : System w
    pub steps : Steps count s end_state
    pub over : end_state.main ≡ exited

  before : {n : ℕ} {s t : System w} → Step w s t → CanExit n t → CanExit (suc n) s
  before x h = record {
    count = suc h.count;
    bounded = omega (arith, h.bounded);
    end_state = h.end_state;
    steps = go_on x h.steps;
    over = h.over;
  }

  within : (n : ℕ) {m : ℕ} {s : System w} → m ≤ n → CanExit m s → CanExit n s
  within n le h = record {
    count = h.count;
    bounded = omega (arith, h.bounded, le);
    end_state = h.end_state;
    steps = h.steps;
    over = h.over;
  }

  pub stopping_alive : {p : MainPhase} → p ≡ stopping → p ≢ exited
  stopping_alive e f = cc

  exit_returned : (s : System w) → s.main ≡ stopping → s.engine.phase ≡ returned → CanExit 1 s
  exit_returned s m over = record {
    count = 1;
    bounded = omega arith;
    end_state = record s { main = exited };
    steps = go_on (step (stopping_alive m) (Action.exit m over)) rest;
    over = refl;
  }

  exit_draining : (s : System w) → s.main ≡ stopping → s.engine.phase ≡ draining → CanExit 2 s
  exit_draining s m waits =
      before (step (stopping_alive m) (Action.timed_out waits)) (exit_returned _ m refl)

  exit_stopping : (s : System w) → s.main ≡ stopping → CanExit 3 s
  exit_stopping s m = elim (Phase-cases s.engine.phase) [
    | inl looks ↦
        before (step (stopping_alive m) (Action.cancelled looks m)) (exit_draining _ m refl)
    | inr (inl waits) ↦ within 3 (omega arith) (exit_draining s m waits)
    | inr (inr over) ↦ within 3 (omega arith) (exit_returned s m over)
  ]

  pub MainPhase-cases : (p : MainPhase) → p ≢ exited → (p ≡ waiting) ⊎ (p ≡ stopping)
  MainPhase-cases waiting n = inl refl
  MainPhase-cases stopping n = inr refl
  MainPhase-cases exited n = absurd (n refl)

  -- From every state in which `main` has not returned, however many decode tasks run and whatever the
  -- driver and the channel hold, the program can return within four steps: the signal, the
  -- cancellation, the timeout and the end.
  pub can_exit : (s : System w) → s.main ≢ exited → CanExit 4 s
  can_exit s alive = elim (MainPhase-cases s.main alive) [
    | inl m ↦ before (step alive (Action.ctrl_c m)) (exit_stopping _ refl)
    | inr m ↦ within 4 (omega arith) (exit_stopping s m)
  ]
