-- ===== src/Main/Requests/Deadlock.antt =====
-- The running program with the client's queue of requests: the gridlock is the only deadlock.
use mathlib.Core.Logic.{∥∥₁_map}
use native.Mathlib.Decide.{dec_lt}
use mathlib.Core.List.{Perm, Mem, append_of_mem, mem-cons_self, mem-append_right, map-append}
use mathlib.Core.List.Perm
use rosetta_mq.Prelude.{
  ◌<◌, ◌≤◌, ◌≡◌, refl, ◌≢◌, sym, ap, ◌∙◌, subst, ◌⊎◌, inl, inr, Bool, true, false, none, List, [],
  ◌∷◌, ◌++◌, Result, length, Option-cases, arith,
}
use rosetta_mq.Mqtt.{Publish}
use rosetta_mq.Engine.{Task}
use rosetta_mq.Engine.Relay.{Relay}
use rosetta_mq.Engine.Loop.{looping, returned}
use rosetta_mq.Main.System.{World, Running, Driver, polling, sending, exited, Action, AtEnd}
use rosetta_mq.Main.Requests.{Requests, Program, Answers, Step, act, Reach, system-Reach}
use rosetta_mq.Main.Requests.Gridlock.{IsGridlocked}
use rosetta_mq.Main.System.Refines.{Phase-cases}
use rosetta_mq.Main.System.Stop.{MainPhase-cases}
use rosetta_mq.Main.System.Delivery.{tasks_of, Reach-IsConsistent}
use rosetta_mq.Main.Requests.Found.{Found, mover, all_stuck, find, full_for_all}

module _ (w : World) (c : Requests) where
  abbrev is_signal : {x y : Program w c} → Step w c x y → Bool
  is_signal (act _ (Action.ctrl_c _) _) = true
  is_signal _ = false

  -- A step that is not the signal to shut down.
  pub record CanMove (x : Program w c) : Type 0 where
    pub after : Program w c
    pub move : Step w c x after
    pub own : is_signal move ≡ false

  module _ (an_error : w.ClientError) where
    -- A task that is at its end can be reported.
    joins :
        (x : Program w c)
        → Reach w c x
        → x.system.main ≢ exited
        → x.system.engine.phase ≢ returned
        → (before after : List (Running w)) (t : Task) (r : Relay w.outbox w.ClientError)
        → x.system.running ≡ before ++ (t, r) ∷ after
        → AtEnd w r
        → ∥ CanMove x ∥₁
    joins x h alive up before after t r e over =
        let same = (Reach-IsConsistent w (system-Reach w c h)).1.in_flight in
        let inside =
          subst (λ ts. Mem t ts)
            (sym
              (ap (tasks_of w) e ∙ map-append (λ (run : Running w). run.0) before ((t, r) ∷ after)))
            (mem-append_right (tasks_of w before) mem-cons_self) in
        ∥∥₁_map (append_of_mem ((Perm.mem_iff same).0 inside)) (λ (b, a, e').
          let (tasks, reported) = w.join_set.joins_held x.system.engine.tasks t b a e' in
          record {
            after = _;
            move =
                act alive (Action.join before after t r tasks up e over reported) Answers.no_call;
            own = refl;
          })

    -- The engine is at its limit, and the channel of packets is full.
    at_limit :
        (x : Program w c) (p : Publish)
        → Reach w c x
        → 0 < w.max_concurrent_decodes
        → x.system.main ≢ exited
        → x.system.driver ≡ sending p
        → w.inbox.offer x.system.queue p ≡ none
        → x.system.engine.phase ≡ looping
        → w.max_concurrent_decodes ≤ w.join_set.len x.system.engine.tasks
        → IsGridlocked w c x ⊎ ∥ CanMove x ∥₁
    at_limit x p h room alive d full looks limit =
        by_tasks
          (find w c an_error x.system x.requests (λ (r, gone). cc (d, gone)) x.system.running)
      where
        up : x.system.engine.phase ≢ returned
        up over = cc (looks, over)

        some_held : w.join_set.held x.system.engine.tasks ≢ []
        some_held none_held =
            omega
              (arith, limit, room, w.join_set.len_held x.system.engine.tasks, ap (length) none_held)

        by_tasks :
            Found w c an_error x.system x.requests x.system.running
            → IsGridlocked w c x ⊎ ∥ CanMove x ∥₁
        by_tasks (mover before after t r e (inl over)) =
            inr (joins x h alive up before after t r e over)
        by_tasks (mover before after t r e (inr go)) = inr ∣ record {
          after = _;
          move = act alive (Action.work before after t r go.after e go.move) go.answered;
          own = refl;
        } ∣₁
        by_tasks (all_stuck blocked (inl idle)) = absurd (
            some_held (
              sym (
                Perm.nil-eq (
                  subst (λ runs. Perm (tasks_of w runs) (w.join_set.held x.system.engine.tasks))
                    idle (Reach-IsConsistent w (system-Reach w c h)).1.in_flight))))
        by_tasks (all_stuck blocked (inr (q, no_room))) = inl (record {
          packet = p;
          holds = d;
          inbox_full = full;
          requests_full = λ q'. full_for_all w c x.requests q q' no_room;
          runs = up;
          at_limit = λ _ less. omega (arith, less, limit);
          some_held = some_held;
          blocked = blocked;
        })

    -- The driver waits for room in the channel.
    sending_moves :
        (x : Program w c) (p : Publish)
        → Reach w c x
        → 0 < w.max_concurrent_decodes
        → x.system.main ≢ exited
        → x.system.driver ≡ sending p
        → IsGridlocked w c x ⊎ ∥ CanMove x ∥₁
    sending_moves x p h room alive d = elim (Phase-cases x.system.engine.phase) [
      | inr (inr over) ↦ inr ∣ record {
        after = _;
        move = act alive (Action.refused p d over) Answers.no_call;
        own = refl;
      } ∣₁
      | inr (inl waits) ↦ inr ∣ record {
        after = _;
        move = act alive (Action.timed_out waits) Answers.no_call;
        own = refl;
      } ∣₁
      | inl looks ↦ elim (Option-cases (w.inbox.offer x.system.queue p)) [
        | inr (q, fits) ↦ inr ∣ record {
          after = _;
          move = act alive (Action.sent p q d (λ over. cc (looks, over)) fits) Answers.no_call;
          own = refl;
        } ∣₁
        | inl full ↦ elim (dec_lt (w.join_set.len x.system.engine.tasks) w.max_concurrent_decodes) [
          | no limit ↦ at_limit x p h room alive d full looks (omega (arith, limit))
          | yes less ↦ elim (Option-cases (w.inbox.poll x.system.queue)) [
            | inl empty ↦ absurd (
                omega (
                  arith,
                  w.inbox.offer_none x.system.queue p full,
                  ap (length) (w.inbox.poll_none x.system.queue empty),
                ))
            | inr ((m, q), e) ↦ inr ∣ record {
              after = _;
              move = act alive (Action.receive m q looks less e) Answers.no_call;
              own = refl;
            } ∣₁
          ]
        ]
      ]
    ]

    -- The driver has ended.
    ended_moves :
        (x : Program w c) (r : Result (Unit {0}) w.PollError)
        → x.system.main ≢ exited
        → x.system.driver ≡ Driver.ended r
        → CanMove x
    ended_moves x r alive d = elim (MainPhase-cases w x.system.main alive) [
      | inl waits ↦ record {
        after = _;
        move = act alive (Action.driver_ended r waits d) Answers.no_call;
        own = refl;
      }
      | inr stops ↦ elim (Phase-cases x.system.engine.phase) [
        | inl looks ↦ record {
          after = _;
          move = act alive (Action.cancelled looks stops) Answers.no_call;
          own = refl;
        }
        | inr (inl waits) ↦ record {
          after = _;
          move = act alive (Action.timed_out waits) Answers.no_call;
          own = refl;
        }
        | inr (inr over) ↦ record {
          after = _;
          move = act alive (Action.exit stops over) Answers.no_call;
          own = refl;
        }
      ]
    ]

    -- In every state that the program reaches, until `main` returns, the driver polls the connection,
    -- or a step is possible that is not the signal to shut down, or the state is the gridlock. So the
    -- gridlock is the only way in which the parts of the program wait for each other. The limit must be
    -- positive, and the client must have an error to refuse a topic with.
    pub only_gridlock :
        (x : Program w c)
        → Reach w c x
        → 0 < w.max_concurrent_decodes
        → x.system.main ≢ exited
        → (x.system.driver ≡ polling) ⊎ IsGridlocked w c x ⊎ ∥ CanMove x ∥₁
    only_gridlock x h room alive = by_driver x.system.driver refl
      where
        by_driver :
            (d : Driver w.PollError)
            → x.system.driver ≡ d
            → (x.system.driver ≡ polling) ⊎ IsGridlocked w c x ⊎ ∥ CanMove x ∥₁
        by_driver Driver.polling e = inl e
        by_driver (Driver.sending p) e = inr (sending_moves x p h room alive e)
        by_driver (Driver.ended r) e = inr (inr ∣ ended_moves x r alive e ∣₁)
