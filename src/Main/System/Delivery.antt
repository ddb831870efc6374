-- ===== src/Main/System/Delivery.antt =====
-- From the driver to the outputs: what becomes of each packet that the broker sends.
use mathlib.Core.List.{Perm, perm_inv_core, map-append}
use mathlib.Core.List.Perm
use rosetta_mq.Prelude.{
  list_laws, ◌≤◌, ◌≡◌, refl, sym, ap, ◌∙◌, subst, some, List, [], ◌∷◌, ◌++◌, append_assoc, map,
  length, arith,
}
use rosetta_mq.Mqtt.{Publish}
use rosetta_mq.Engine.{Task}
use rosetta_mq.Engine.Incoming.{accepted}
use rosetta_mq.Engine.Loop
use rosetta_mq.Engine.Loop.{take_in}
use rosetta_mq.Engine.Loop.Bounds.{held-take_in}
use rosetta_mq.Main.System.{
  World, System, Running, incoming_capacity, begun, Action, step, Reach, begin, next, init,
}

module _ (w : World) where
  abbrev pub tasks_of : List (Running w) → List Task
  tasks_of = map (λ (run : Running w). run.0)

  tasks_of-begun : (ts : List Task) → tasks_of (map (begun w) ts) ≡ ts
  tasks_of-begun [] = refl
  tasks_of-begun (t ∷ ts) = ap (λ us. t ∷ us) (tasks_of-begun ts)

  -- The packets are in the channel or taken in, in the order in which the driver forwarded them, and
  -- the channel holds no more than its capacity.
  pub record InOrder (forwarded received : List Publish) (queue : w.inbox.Queue) : Type 0 where
    pub order : forwarded ≡ received ++ w.inbox.held queue
    pub fits : length (w.inbox.held queue) ≤ incoming_capacity

  -- The decode tasks that run, that were reported and that were stopped are those of the engine.
  pub record SameTasks (running joined aborted : List (Running w)) (tasks : w.join_set.Tasks)
      (reaped abandoned : List Task) : Type 0 where
    pub in_flight : Perm (tasks_of running) (w.join_set.held tasks)
    pub reported : tasks_of joined ≡ reaped
    pub stopped : Perm (tasks_of aborted) abandoned

  abbrev pub IsConsistent : System w → Type 0
  IsConsistent s =
      InOrder s.forwarded s.engine.received s.queue
      × SameTasks s.running s.joined s.aborted s.engine.tasks s.engine.reaped s.engine.abandoned

  sent-InOrder :
      (forwarded received : List Publish) (p : Publish) (queue q : w.inbox.Queue)
      → w.inbox.offer queue p ≡ some q
      → InOrder forwarded received queue
      → InOrder (forwarded ++ p ∷ []) received q
  sent-InOrder forwarded received p queue q o h = record {
    order = simp (w.inbox.offer_some queue q p o, h.order, list_laws);
    fits = w.inbox.offer_fits queue q p o;
  }

  receive-InOrder :
      (forwarded received : List Publish) (m : Publish) (queue q : w.inbox.Queue)
      → w.inbox.poll queue ≡ some (m, q)
      → InOrder forwarded received queue
      → InOrder forwarded (received ++ m ∷ []) q
  receive-InOrder forwarded received m queue q e h = record {
    order =
        h.order
        ∙ ap (λ l. received ++ l) (w.inbox.poll_some queue q m e)
        ∙ sym (append_assoc received (m ∷ []) _);
    fits = omega (arith, h.fits, ap (length) (w.inbox.poll_some queue q m e));
  }

  join-tasks :
      (before after : List (Running w)) (run : Running w) (held held' : w.join_set.Tasks)
      → w.join_set.Joins held run.0 held'
      → Perm (tasks_of (before ++ run ∷ after)) (w.join_set.held held)
      → Perm (tasks_of (before ++ after)) (w.join_set.held held')
  join-tasks before after run held held' x h =
      let (b, a, e, e') = w.join_set.joins_removes held held' run.0 x in
      rw (map-append, e')
        (perm_inv_core run.0 (tasks_of before) b (tasks_of after) a (
          subst (λ (ts : List Task). Perm ts (b ++ run.0 ∷ a))
            (map-append (λ (r : Running w). r.0) before (run ∷ after))
            (subst (λ ts. Perm (tasks_of (before ++ run ∷ after)) ts) e h)))

  receive-tasks :
      (running : List (Running w)) (e : Loop.Engine w.join_set) (m : Publish)
      → Perm (tasks_of running) (w.join_set.held e.tasks)
      → Perm
          (tasks_of (running ++ map (begun w) (accepted w.matches w.registry m)))
          (w.join_set.held (take_in w.join_set w.matches w.registry e (some m)).tasks)
  receive-tasks running e m h =
      rw (map-append, tasks_of-begun, held-take_in w.join_set w.matches w.registry e m)
        (Perm.append_right (accepted w.matches w.registry m) h)

  work-tasks :
      (before after : List (Running w)) (a b : Running w)
      → a.0 ≡ b.0
      → tasks_of (before ++ a ∷ after) ≡ tasks_of (before ++ b ∷ after)
  work-tasks [] after a b e = ap (λ t. t ∷ tasks_of after) e
  work-tasks (x ∷ before) after a b e = ap (λ ts. x.0 ∷ ts) (work-tasks before after a b e)

  Action-IsConsistent : {s t : System w} → Action w s t → IsConsistent s → IsConsistent t
  Action-IsConsistent (Action.poll_publish p d) h = h
  Action-IsConsistent (Action.poll_other d) h = h
  Action-IsConsistent (Action.poll_failed e d) h = h
  Action-IsConsistent {s = s} (Action.sent p q d alive o) h =
      (sent-InOrder s.forwarded s.engine.received p s.queue q o h.0, h.1)
  Action-IsConsistent (Action.refused p d gone) h = h
  Action-IsConsistent {s = s} (Action.receive m q looks room e) (order, same) = (
    unfold take_in in receive-InOrder s.forwarded s.engine.received m s.queue q e order,
    record {
      in_flight = receive-tasks s.running s.engine m same.in_flight;
      reported = unfold take_in in same.reported;
      stopped = unfold take_in in same.stopped;
    },
  )
  Action-IsConsistent (Action.closed r looks room d e) h = unfold take_in in h
  Action-IsConsistent (Action.cancelled looks m) h = h
  Action-IsConsistent {s = s} (Action.work before after t r r' e x) (order, same) = (
    order,
    record {
      in_flight =
          subst (λ ts. Perm ts (w.join_set.held s.engine.tasks))
            (ap (tasks_of) e ∙ work-tasks before after (t, r) (t, r') refl) same.in_flight;
      reported = same.reported;
      stopped = same.stopped;
    },
  )
  Action-IsConsistent {s = s} (Action.join before after t r tasks alive e done x) (order, same) = (
    order,
    record {
      in_flight =
          join-tasks before after (t, r) s.engine.tasks tasks x
            (subst (λ run. Perm (tasks_of run) (w.join_set.held s.engine.tasks)) e same.in_flight);
      reported =
          map-append (λ (run : Running w). run.0) s.joined _
          ∙ ap (λ ts. ts ++ t ∷ []) same.reported;
      stopped = same.stopped;
    },
  )
  Action-IsConsistent (Action.drained waits left) h = h
  Action-IsConsistent (Action.timed_out waits) (order, same) = (
    order,
    record {
      in_flight = subst (λ ts. Perm {A = Task} [] ts) (sym w.join_set.held_new) (Perm.refl []);
      reported = same.reported;
      stopped = same.in_flight;
    },
  )
  Action-IsConsistent (Action.driver_ended r m d) h = h
  Action-IsConsistent (Action.ctrl_c m) h = h
  Action-IsConsistent (Action.exit m over) h = h

  init-IsConsistent : IsConsistent (init w)
  init-IsConsistent =
      unfold init Loop.start in
      (
        record {
          order = sym w.inbox.held_empty;
          fits = omega (arith, ap (length) w.inbox.held_empty);
        },
        record {
          in_flight = subst (λ ts. Perm {A = Task} [] ts) (sym w.join_set.held_new) (Perm.refl []);
          reported = refl;
          stopped = Perm.refl [];
        },
      )

  pub Reach-IsConsistent : {s : System w} → Reach w s → IsConsistent s
  Reach-IsConsistent begin = init-IsConsistent
  Reach-IsConsistent (next r (step alive x)) = Action-IsConsistent x (Reach-IsConsistent r)
