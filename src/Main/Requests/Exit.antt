-- ===== src/Main/Requests/Exit.antt =====
-- The end of the running program with the client's queue of requests.
use rosetta_mq.Prelude.{ℕ, suc, ◌≤◌, ◌≡◌, refl, ◌≢◌, inl, inr, arith}
use rosetta_mq.Engine.Loop.{draining, returned}
use rosetta_mq.Main.System.Refines.{Phase-cases}
use rosetta_mq.Main.System.{World, stopping, exited, Action}
use rosetta_mq.Main.System.Stop.{stopping_alive, MainPhase-cases}
use rosetta_mq.Main.Requests.{Requests, Program, Answers, Step, act}

module _ (w : World) (c : Requests) where
  -- A number of steps, one after the other.
  pub data Steps : ℕ → Program w c → Program w c → Type 0 where
    rest : {x : Program w c} → Steps 0 x x
    go_on : {n : ℕ} {x y z : Program w c} → Step w c x y → Steps n y z → Steps (suc n) x z

  -- A run of at most so many steps to the return of `main`.
  pub record CanExit (n : ℕ) (x : Program w c) : Type 0 where
    pub count : ℕ
    pub bounded : count ≤ n
    pub end_state : Program w c
    pub steps : Steps count x end_state
    pub over : end_state.system.main ≡ exited

  first : {n : ℕ} {x y : Program w c} → Step w c x y → CanExit n y → CanExit (suc n) x
  first s h = record {
    count = suc h.count;
    bounded = omega (arith, h.bounded);
    end_state = h.end_state;
    steps = go_on s h.steps;
    over = h.over;
  }

  within : (n : ℕ) {m : ℕ} {x : Program w c} → m ≤ n → CanExit m x → CanExit n x
  within n le h = record {
    count = h.count;
    bounded = omega (arith, h.bounded, le);
    end_state = h.end_state;
    steps = h.steps;
    over = h.over;
  }

  done : (x : Program w c) → x.system.main ≡ exited → CanExit 0 x
  done x e = record { count = 0; bounded = omega arith; end_state = x; steps = rest; over = e }

  exit_returned :
      (x : Program w c) → x.system.main ≡ stopping → x.system.engine.phase ≡ returned → CanExit 1 x
  exit_returned x m over =
      first (act (stopping_alive w m) (Action.exit m over) Answers.no_call) (done _ refl)

  exit_draining :
      (x : Program w c) → x.system.main ≡ stopping → x.system.engine.phase ≡ draining → CanExit 2 x
  exit_draining x m waits =
      first (act (stopping_alive w m) (Action.timed_out waits) Answers.no_call)
        (exit_returned _ m refl)

  exit_stopping : (x : Program w c) → x.system.main ≡ stopping → CanExit 3 x
  exit_stopping x m = elim (Phase-cases x.system.engine.phase) [
    | inl looks ↦
        first (act (stopping_alive w m) (Action.cancelled looks m) Answers.no_call)
          (exit_draining _ m refl)
    | inr (inl waits) ↦ within 3 (omega arith) (exit_draining x m waits)
    | inr (inr over) ↦ within 3 (omega arith) (exit_returned x m over)
  ]

  -- From every state in which `main` has not returned, the gridlock of driver, engine and tasks
  -- included, the program can return within four steps: the signal, the cancellation, the timeout and
  -- the end.
  pub can_return : (x : Program w c) → x.system.main ≢ exited → CanExit 4 x
  can_return x alive = elim (MainPhase-cases w x.system.main alive) [
    | inl m ↦ first (act alive (Action.ctrl_c m) Answers.no_call) (exit_stopping _ refl)
    | inr m ↦ within 4 (omega arith) (exit_stopping x m)
  ]
