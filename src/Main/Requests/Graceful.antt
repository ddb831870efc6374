-- ===== src/Main/Requests/Graceful.antt =====
-- The end of the running program with the client's queue of requests: a shutdown that stops no decode
-- task.
use mathlib.Core.Logic.{∥∥₁_elim, ∥∥₁_map}
use mathlib.Core.List.{Perm, append_of_mem, mem-cons_self}
use mathlib.Core.List.Perm
use rosetta_mq.Prelude.{
  ℕ, ◌≡◌, refl, ◌≢◌, sym, ap, ◌∙◌, subst, List, [], ◌∷◌, ◌++◌, append-nil, inl, inr, All, arith,
}
use rosetta_mq.Engine.{Task}
use rosetta_mq.Engine.Incoming.{accepted_all}
use rosetta_mq.Engine.Relay.{Relay}
use rosetta_mq.Engine.Loop.{draining, returned}
use rosetta_mq.Main.Startup.{HasSingleDecoder}
use rosetta_mq.Main.System.{World, System, Running, polling, stopping, exited, Action}
use rosetta_mq.Main.System.Refines.{Phase-cases}
use rosetta_mq.Main.System.Delivery.{tasks_of, Reach-IsConsistent}
use rosetta_mq.Main.System.Outputs.{HasOneOutput, Reach-IsDelivered}
use rosetta_mq.Main.System.Exit.{exited-accounted, none_aborted}
use rosetta_mq.Main.System.Stop.{stopping_alive, MainPhase-cases}
use rosetta_mq.Main.Requests.{
  Request, Requests, Program, Answers, Step, act, Reach, next, system-Reach,
}
use rosetta_mq.Main.Requests.Exit.{Steps, rest, go_on}
use rosetta_mq.Main.Requests.Drain.{Drains, first, done, under_way, worked, left}

module _ (w : World) (c : Requests) where
  module _ (an_error : w.ClientError) where
    abbrev reported : System w → Task → Relay w.outbox w.ClientError → w.join_set.Tasks → System w
    reported s t r tasks = record s {
      engine = record s.engine { tasks = tasks; reaped = s.engine.reaped ++ t ∷ [] };
      joined = s.joined ++ (t, r) ∷ [];
    }

    -- A task that runs is in the set, so the end of it can be reported.
    joinable :
        (s : System w) (t : Task) (r : Relay w.outbox w.ClientError) (runs : List (Running w))
        (q : c.queue.Queue) (out : List Request)
        → Reach w c (under_way w c s ((t, r) ∷ runs) q out)
        → ∥ ((tasks : w.join_set.Tasks) × w.join_set.Joins s.engine.tasks t tasks) ∥₁
    joinable s t r runs q out h =
        let same = (Reach-IsConsistent w (system-Reach w c h)).1.in_flight in
        ∥∥₁_map (append_of_mem ((Perm.mem_iff same).0 (mem-cons_self)))
          (λ (before, after, e). w.join_set.joins_held s.engine.tasks t before after e)

    -- No task is left, so the wait ends and `main` returns.
    drained :
        (s : System w) (q : c.queue.Queue) (out : List Request)
        → s.main ≡ stopping
        → s.engine.phase ≡ draining
        → Reach w c (under_way w c s [] q out)
        → Drains w c (under_way w c s [] q out)
    drained s q out m waits h =
        let held = Perm.nil-eq (Reach-IsConsistent w (system-Reach w c h)).1.in_flight in
        first w c _ _ (act (stopping_alive w m) (Action.drained waits (sym held)) Answers.no_call)
          refl refl
          (first w c _ _ (act (stopping_alive w m) (Action.exit m refl) Answers.no_call) refl refl
            (done w c _ refl))

    drain_all :
        (runs : List (Running w)) (s : System w) (q : c.queue.Queue) (out : List Request)
        → s.main ≡ stopping
        → s.engine.phase ≡ draining
        → s.driver ≡ polling
        → Reach w c (under_way w c s runs q out)
        → ∥ Drains w c (under_way w c s runs q out) ∥₁
    drain_all [] s q out m waits d h = ∣ drained s q out m waits h ∣₁
    drain_all ((t, r) ∷ runs) s q out m waits d h =
        let x =
          worked w c an_error s t runs m d (left w c an_error s t runs m d r) r q out (omega arith)
            h in
        ∥∥₁_elim (joinable s t x.last runs x.queue x.sent x.reach) (hlevel) (λ (tasks, joins).
          let move : Step w c (under_way w c s ((t, x.last) ∷ runs) x.queue x.sent)
              (under_way w c (reported s t x.last tasks) runs x.queue x.sent) =
            act (stopping_alive w m)
              (Action.join [] runs t x.last tasks (λ over. cc (waits, over)) refl x.at_end joins)
              Answers.no_call in
          ∥∥₁_map
            (drain_all runs (reported s t x.last tasks) x.queue x.sent m waits d
              (next x.reach move))
            (λ y. x.back (first w c _ _ move refl refl y)))

    drain_stopping :
        (x : Program w c)
        → x.system.main ≡ stopping
        → x.system.driver ≡ polling
        → x.system.engine.phase ≢ returned
        → Reach w c x
        → ∥ Drains w c x ∥₁
    drain_stopping x m d open_phase h = elim (Phase-cases x.system.engine.phase) [
      | inl looks ↦
          let s = record x.system { engine = record x.system.engine { phase = draining } } in
          let y : Program w c = record x { system = s } in
          let move : Step w c x y =
            act (stopping_alive w m) (Action.cancelled looks m) Answers.no_call in
          ∥∥₁_map (drain_all s.running s x.requests x.sent m refl d (next h move))
            (λ z. first w c x y move refl refl z)
      | inr (inl waits) ↦ drain_all x.system.running x.system x.requests x.sent m waits d h
      | inr (inr over) ↦ absurd (open_phase over)
    ]

    drain_any :
        (x : Program w c)
        → x.system.driver ≡ polling
        → x.system.engine.phase ≢ returned
        → Reach w c x
        → ∥ Drains w c x ∥₁
    drain_any x d open_phase h =
        let alive : x.system.main ≢ exited =
          λ gone. open_phase (exited-accounted w (system-Reach w c h) gone).0 in
        elim (MainPhase-cases w x.system.main alive) [
          | inl m ↦
              let y : Program w c = record x { system = record x.system { main = stopping } } in
              let move : Step w c x y = act alive (Action.ctrl_c m) Answers.no_call in
              ∥∥₁_map (drain_stopping y refl d open_phase (next h move))
                (λ z. first w c x y move refl refl z)
          | inr m ↦ drain_stopping x m d open_phase h
        ]

  Reach-Steps : {n : ℕ} {x y : Program w c} → Reach w c x → Steps w c n x y → Reach w c y
  Reach-Steps h rest = h
  Reach-Steps h (go_on s xs) = Reach-Steps (next h s) xs

  -- A run to the return of `main` at whose end every packet that the engine had taken in, and has a
  -- decoder for, has its one output.
  pub record HasCleanEnd (x : Program w c) : Type 0 where
    pub count : ℕ
    pub end_state : Program w c
    pub steps : Steps w c count x end_state
    pub over : end_state.system.main ≡ exited
    pub all_reported :
        Perm
          (tasks_of w end_state.system.joined)
          (accepted_all w.matches w.registry x.system.engine.received)
    pub outputs : All (HasOneOutput w) end_state.system.joined

  -- From every state that the program reaches in which the driver polls the connection and the engine
  -- has not returned, with the client's queue of requests full or not, there is a run to the return of
  -- `main` that stops no decode task: the tasks whose end was reported are then exactly those of the
  -- packets accepted so far, each once, and each has published its one message, the payload that its
  -- decoder emits or the error with which it fails. The registered decoders must always emit one
  -- message or fail, and the client must have an error to refuse a topic with.
  pub clean_exit :
      w.ClientError
      → All HasSingleDecoder w.registry.entries
      → (x : Program w c) → Reach w c x
      → x.system.driver ≡ polling
      → x.system.engine.phase ≢ returned
      → ∥ HasCleanEnd x ∥₁
  clean_exit an_error single x h d open_phase = ∥∥₁_map (drain_any an_error x d open_phase h) (λ z.
      let reach = system-Reach w c (Reach-Steps h z.steps) in
      let (_, _, all) = exited-accounted w reach z.over in
      let last = z.end_state.system in
      record {
        count = z.count;
        end_state = z.end_state;
        steps = z.steps;
        over = z.over;
        all_reported =
            subst (λ ms. Perm (tasks_of w last.joined) (accepted_all w.matches w.registry ms))
              z.taken
              (subst (λ ts. Perm ts (accepted_all w.matches w.registry last.engine.received))
                (ap (λ rs. tasks_of w last.joined ++ tasks_of w rs)
                    (z.spared ∙ none_aborted w x.system (system-Reach w c h) open_phase)
                  ∙ append-nil _)
                all);
        outputs = (Reach-IsDelivered w single reach).outputs;
      })
