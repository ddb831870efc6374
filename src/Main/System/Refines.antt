-- ===== src/Main/System/Refines.antt =====
-- The engine inside the running program, by src/engine.rs alone.
use rosetta_mq.Prelude.{◌≡◌, refl, sym, subst, none, some, ◌⊎◌, inl, inr}
use rosetta_mq.Engine.Loop
use rosetta_mq.Engine.Loop.{Phase, Engine, looping, draining, returned}
use rosetta_mq.Main.System.{World, System, Action, step, Reach, begin, next, init}

pub Phase-cases : (p : Phase) → (p ≡ looping) ⊎ (p ≡ draining) ⊎ (p ≡ returned)
Phase-cases looping = inl refl
Phase-cases draining = inr (inl refl)
Phase-cases returned = inr (inr refl)

module _ (w : World) where
  -- A step of the loop, or none.
  abbrev Moves : Engine w.join_set → Engine w.join_set → Type 0
  Moves e f = (f ≡ e) ⊎ Loop.Step w.join_set w.matches w.registry w.max_concurrent_decodes e f

  Action-Moves : {s t : System w} → Action w s t → Moves s.engine t.engine
  Action-Moves (Action.poll_publish p d) = inl refl
  Action-Moves (Action.poll_other d) = inl refl
  Action-Moves (Action.poll_failed e d) = inl refl
  Action-Moves (Action.sent p q d alive o) = inl refl
  Action-Moves (Action.refused p d gone) = inl refl
  Action-Moves (Action.receive m q looks room h) = inr (Loop.receive (some m) looks room)
  Action-Moves (Action.closed r looks room d h) = inr (Loop.receive none looks room)
  Action-Moves (Action.cancelled looks m) = inr (Loop.shutdown looks)
  Action-Moves (Action.work before after t r r' h x) = inl refl
  Action-Moves {s = s} (Action.join before after t r tasks alive h done x) =
      elim (Phase-cases s.engine.phase) [
        | inl looks ↦ inr (Loop.reap t tasks looks x)
        | inr (inl waits) ↦ inr (Loop.drain t tasks waits x)
        | inr (inr over) ↦ absurd (alive over)
      ]
  Action-Moves (Action.drained waits left) = inr (Loop.drained waits left)
  Action-Moves (Action.timed_out waits) = inr (Loop.timed_out waits)
  Action-Moves (Action.driver_ended r m d) = inl refl
  Action-Moves (Action.ctrl_c m) = inl refl
  Action-Moves (Action.exit m over) = inl refl

  -- Whatever the driver, the decode tasks and `main` do, the engine inside the program only goes
  -- through states that its loop reaches by itself.
  pub engine-Reach :
      {s : System w}
      → Reach w s
      → Loop.Reach w.join_set w.matches w.registry w.max_concurrent_decodes s.engine
  engine-Reach begin = unfold init in Loop.begin
  engine-Reach (next r (step alive x)) = by_move (Action-Moves x) (engine-Reach r)
    where
      by_move :
          {e f : Engine w.join_set}
          → Moves e f
          → Loop.Reach w.join_set w.matches w.registry w.max_concurrent_decodes e
          → Loop.Reach w.join_set w.matches w.registry w.max_concurrent_decodes f
      by_move (inl same) h =
          subst (Loop.Reach w.join_set w.matches w.registry w.max_concurrent_decodes) (sym same) h
      by_move (inr x) h = Loop.next h x
