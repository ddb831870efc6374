-- ===== src/Main/System/Exit.antt =====
-- The end of the running program: why the engine stops, and what holds once `main` has returned.
use mathlib.Core.List.{Perm}
use mathlib.Core.List.Perm
use rosetta_mq.Prelude.{
  ◌≡◌, refl, ◌≢◌, sym, ap, ◌∙◌, subst, some, List, [], ◌∷◌, ◌++◌, append-nil, Result, ok, err, ◌⊎◌,
  inl, inr,
}
use rosetta_mq.Mqtt.{Publish}
use rosetta_mq.Engine.Incoming.{accepted_all, handle_incoming_lem}
use rosetta_mq.Engine.Loop
use rosetta_mq.Engine.Loop.{Phase, looping, draining, returned, take_in}
use rosetta_mq.Engine.Loop.Account.{Reach-IsAccounted}
use rosetta_mq.Main.System.Refines.{engine-Reach}
use rosetta_mq.Main.System.{
  World, System, Running, Driver, waiting, exited, Action, step, Reach, begin, next, init,
}
use rosetta_mq.Main.System.Delivery.{tasks_of, IsConsistent, Reach-IsConsistent}

module _ (w : World) where
  -- The engine has left its loop.
  abbrev HasLeft : System w → Type 0
  HasLeft s = s.engine.phase ≢ looping

  -- `main` has cancelled the token, or the driver has ended.
  abbrev pub IsCaused : System w → Type 0
  IsCaused s =
      (s.main ≢ waiting) ⊎ ((r : Result (Unit {0}) w.PollError) × (s.driver ≡ Driver.ended r))

  -- What holds of the end in every state.
  pub record IsOrderly (s : System w) : Type 0 where
    pub caused : s.engine.phase ≢ looping → IsCaused s
    pub idle : s.engine.phase ≡ returned → s.running ≡ []
    pub last : s.main ≡ exited → s.engine.phase ≡ returned

  pub nil_of_tasks : (runs : List (Running w)) → tasks_of w runs ≡ [] → runs ≡ []
  nil_of_tasks [] e = refl
  nil_of_tasks (x ∷ runs) e = cc

  -- A task that runs is none of no tasks.
  pub not_idle :
      (runs before after : List (Running w)) (run : Running w)
      → runs ≡ []
      → runs ≢ before ++ run ∷ after
  not_idle runs [] after run h e = cc
  not_idle runs (x ∷ before) after run h e = cc

  -- The driver goes on, so `main` has cancelled where the engine has left.
  going_on :
      (s : System w) {d : Driver w.PollError}
      → s.driver ≡ d
      → ((r : Result (Unit {0}) w.PollError) → d ≢ Driver.ended r)
      → IsCaused s
      → s.main ≢ waiting
  going_on s e n (inl m) = m
  going_on s e n (inr (r, same)) = absurd (n r (sym e ∙ same))

  polling-unended : (r : Result (Unit {0}) w.PollError) → Driver.polling ≢ Driver.ended r
  polling-unended r e = cc

  sending-unended :
      (p : Publish) (r : Result (Unit {0}) w.PollError) → Driver.sending p ≢ Driver.ended r
  sending-unended p r e = cc

  received-looping :
      (e : Loop.Engine w.join_set) (m : Publish)
      → (take_in w.join_set w.matches w.registry e (some m)).phase ≡ looping
  received-looping e m =
      unfold take_in in
      ap (Loop.after_message) (handle_incoming_lem w.matches w.registry w.join_set m e.tasks).0

  Action-IsOrderly :
      {s t : System w}
      → s.main ≢ exited
      → IsConsistent w s
      → Action w s t
      → IsOrderly s
      → IsOrderly t
  Action-IsOrderly {s = s} alive c (Action.poll_publish p d) h = record {
    caused = λ n. inl (going_on s d polling-unended (h.caused n));
    idle = h.idle;
    last = h.last;
  }
  Action-IsOrderly alive c (Action.poll_other d) h = h
  Action-IsOrderly alive c (Action.poll_failed e d) h = record {
    caused = λ n. inr (err e, refl);
    idle = h.idle;
    last = h.last;
  }
  Action-IsOrderly {s = s} alive c (Action.sent p q d here o) h = record {
    caused = λ n. inl (going_on s d (sending-unended p) (h.caused n));
    idle = h.idle;
    last = h.last;
  }
  Action-IsOrderly alive c (Action.refused p d gone) h = record {
    caused = λ n. inr (ok tt, refl);
    idle = h.idle;
    last = h.last;
  }
  Action-IsOrderly {s = s} alive c (Action.receive m q looks room e) h = record {
    caused = λ n. absurd (n (received-looping s.engine m));
    idle = λ over. cc (over, received-looping s.engine m);
    last = λ gone. absurd (alive gone);
  }
  Action-IsOrderly alive c (Action.closed r looks room d e) h = record {
    caused = λ n. inr (r, d);
    idle = λ over. unfold take_in in cc over;
    last = λ gone. absurd (alive gone);
  }
  Action-IsOrderly alive c (Action.cancelled looks m) h = record {
    caused = λ n. inl (λ waits. cc (m, waits));
    idle = λ over. cc over;
    last = λ gone. absurd (alive gone);
  }
  Action-IsOrderly {s = s} alive c (Action.work before after t r r' e x) h = record {
    caused = h.caused;
    idle = λ over. absurd (not_idle s.running before after (t, r) (h.idle over) e);
    last = h.last;
  }
  Action-IsOrderly alive c (Action.join before after t r tasks here e done x) h = record {
    caused = h.caused;
    idle = λ over. absurd (here over);
    last = h.last;
  }
  Action-IsOrderly {s = s} alive c (Action.drained waits left) h = record {
    caused = λ n. h.caused (λ looks. cc (looks, waits));
    idle = λ over.
        nil_of_tasks s.running
          (Perm.eq-nil (subst (λ ts. Perm (tasks_of w s.running) ts) left c.1.in_flight));
    last = λ gone. refl;
  }
  Action-IsOrderly alive c (Action.timed_out waits) h = record {
    caused = λ n. h.caused (λ looks. cc (looks, waits));
    idle = λ over. refl;
    last = λ gone. refl;
  }
  Action-IsOrderly alive c (Action.driver_ended r m d) h = record {
    caused = λ n. inl (λ waits. cc waits);
    idle = h.idle;
    last = λ gone. cc gone;
  }
  Action-IsOrderly alive c (Action.ctrl_c m) h = record {
    caused = λ n. inl (λ waits. cc waits);
    idle = h.idle;
    last = λ gone. cc gone;
  }
  Action-IsOrderly alive c (Action.exit m over) h = record {
    caused = λ n. inl (λ waits. cc waits);
    idle = h.idle;
    last = λ gone. over;
  }

  init-IsOrderly : IsOrderly (init w)
  init-IsOrderly =
      unfold init Loop.start in
      record { caused = λ n. absurd (n refl); idle = λ over. refl; last = λ gone. cc gone }

  Reach-IsOrderly : {s : System w} → Reach w s → IsOrderly s
  Reach-IsOrderly begin = init-IsOrderly
  Reach-IsOrderly (next r (step alive x)) =
      Action-IsOrderly alive (Reach-IsConsistent w r) x (Reach-IsOrderly r)

  -- The engine leaves its loop only once `main` has cancelled the token or the driver has ended.
  pub Reach-IsCaused : {s : System w} → Reach w s → s.engine.phase ≢ looping → IsCaused s
  Reach-IsCaused r n = (Reach-IsOrderly r).caused n

  -- Once `main` has returned, the engine has returned, no decode task runs, and the decode tasks whose
  -- end was reported and those that the timeout stopped are together exactly the tasks of the
  -- accepted packets, each once.
  pub exited-accounted :
      {s : System w}
      → Reach w s
      → s.main ≡ exited
      → (s.engine.phase ≡ returned)
        × (s.running ≡ [])
        × Perm
            (tasks_of w s.joined ++ tasks_of w s.aborted)
            (accepted_all w.matches w.registry s.engine.received)
  exited-accounted {s} r gone =
      let over = (Reach-IsOrderly r).last gone in
      let idle = (Reach-IsOrderly r).idle over in
      let same = (Reach-IsConsistent w r).1 in
      let none_held = Perm.nil-eq (
        subst (λ runs. Perm (tasks_of w runs) (w.join_set.held s.engine.tasks)) idle
          same.in_flight) in
      let account =
        (Reach-IsAccounted w.join_set w.matches w.registry w.max_concurrent_decodes
          (engine-Reach w r)).tasks in
      (
        over,
        idle,
        Perm.trans (Perm.append_left (tasks_of w s.joined) same.stopped) (
            subst
              (λ ts.
                Perm (ts ++ s.engine.abandoned)
                  (accepted_all w.matches w.registry s.engine.received))
              (append-nil s.engine.reaped ∙ sym same.reported)
              (subst
                (λ ts.
                  Perm (s.engine.reaped ++ ts ++ s.engine.abandoned)
                    (accepted_all w.matches w.registry s.engine.received))
                (sym none_held) account)),
      )

  -- Before the engine has returned, no task is stopped.
  pub none_aborted : (s : System w) → Reach w s → s.engine.phase ≢ returned → s.aborted ≡ []
  none_aborted s h open_phase =
      let none_abandoned =
        (Reach-IsAccounted w.join_set w.matches w.registry w.max_concurrent_decodes
            (engine-Reach w h)).none_abandoned
          open_phase in
      nil_of_tasks s.aborted (
        Perm.eq-nil (
          subst (λ ts. Perm (tasks_of w s.aborted) ts) none_abandoned
            (Reach-IsConsistent w h).1.stopped))
