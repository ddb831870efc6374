-- ===== src/Main/System/Runs.antt =====
-- The decode tasks of the running program: where each comes from, and how far it is.
use rosetta_mq.Prelude.{
  ℕ, suc, ◌≡◌, subst, some, List, [], ◌∷◌, ◌++◌, map, inl, inr, All, All-append, Bool-cases,
  Option-cases,
}
use rosetta_mq.Mqtt.{Publish}
use rosetta_mq.Decoder.Registry
use rosetta_mq.Engine.{Task, is_own_output}
use rosetta_mq.Engine.Incoming.{accepted}
use rosetta_mq.Engine.Relay
use rosetta_mq.Engine.Relay.{Relay}
use rosetta_mq.Main.System.{
  World, System, Running, begun, AtEnd, Action, step, Reach, begin, next, init,
}

module _ {A : Type 0} (P : A → Type 0) where
  -- The parts of a list of which all have a property, around an element.
  pub All-split :
      (before after : List A) {a : A}
      → All P (before ++ a ∷ after)
      → All P before × P a × All P after
  All-split [] after h = (tt, h.0, h.1)
  All-split (x ∷ before) after h = let (b, a, c) = All-split before after h.1 in ((h.0, b), a, c)

module _ (w : World) where
  abbrev Steps :
      (t : Task) → ℕ → Relay w.outbox w.ClientError → Relay w.outbox w.ClientError → Type 0
  Steps t = Relay.Steps w.outbox w.ClientError w.printing t.message

  Steps-snoc :
      (t : Task) {n : ℕ} {r s u : Relay w.outbox w.ClientError}
      → Steps t n r s
      → Relay.Step w.outbox w.ClientError w.printing t.message s u
      → Steps t (suc n) r u
  Steps-snoc t Relay.stay y = Relay.step y Relay.stay
  Steps-snoc t (Relay.step x xs) y = Relay.step x (Steps-snoc t xs y)

  -- The decoder is the one that the registry has for the message, and the task has come where it is
  -- by steps from its start.
  pub record IsRun (run : Running w) : Type 0 where
    pub found : Registry.resolve w.matches w.registry run.0.message.topic ≡ some run.0.decoder
    pub count : ℕ
    pub steps :
        Relay.Steps w.outbox w.ClientError w.printing run.0.message count (begun w run.0).1 run.1

  begun-IsRun :
      (t : Task)
      → Registry.resolve w.matches w.registry t.message.topic ≡ some t.decoder
      → IsRun (begun w t)
  begun-IsRun t h = record { found = h; count = 0; steps = Relay.stay }

  accepted-IsRun : (m : Publish) → All IsRun (map (begun w) (accepted w.matches w.registry m))
  unfolding accepted
  accepted-IsRun m = elim (Bool-cases (is_own_output m.topic)) [
    | inl own ↦ rw own tt
    | inr other ↦ elim (Option-cases (Registry.resolve w.matches w.registry m.topic)) [
      | inl missing ↦ rw (other, missing) tt
      | inr (d, found) ↦
          rw (other, found) (begun-IsRun (record { decoder = d; message = m }) found, tt)
    ]
  ]

  work-IsRun :
      (t : Task) (r r' : Relay w.outbox w.ClientError)
      → Relay.Step w.outbox w.ClientError w.printing t.message r r'
      → IsRun (t, r)
      → IsRun (t, r')
  work-IsRun t r r' x h = record {
    found = h.found;
    count = suc h.count;
    steps = Steps-snoc t h.steps x;
  }

  -- All decode tasks: those under way, those whose end was reported, and those stopped.
  pub record AreRuns (running joined aborted : List (Running w)) : Type 0 where
    pub under_way : All IsRun running
    pub reported : All IsRun joined
    pub at_end : All (λ (run : Running w). AtEnd w run.1) joined
    pub stopped : All IsRun aborted

  abbrev pub HasRuns : System w → Type 0
  HasRuns s = AreRuns s.running s.joined s.aborted

  Action-HasRuns : {s t : System w} → Action w s t → HasRuns s → HasRuns t
  Action-HasRuns (Action.poll_publish p d) h = h
  Action-HasRuns (Action.poll_other d) h = h
  Action-HasRuns (Action.poll_failed e d) h = h
  Action-HasRuns (Action.sent p q d alive o) h = h
  Action-HasRuns (Action.refused p d gone) h = h
  Action-HasRuns {s = s} (Action.receive m q looks room e) h = record {
    under_way = All-append IsRun s.running _ h.under_way (accepted-IsRun m);
    reported = h.reported;
    at_end = h.at_end;
    stopped = h.stopped;
  }
  Action-HasRuns (Action.closed r looks room d e) h = h
  Action-HasRuns (Action.cancelled looks m) h = h
  Action-HasRuns (Action.work before after t r r' e x) h =
      let (b, now, a) = All-split IsRun before after (subst (All IsRun) e h.under_way) in
      record {
        under_way = All-append IsRun before _ b (work-IsRun t r r' x now, a);
        reported = h.reported;
        at_end = h.at_end;
        stopped = h.stopped;
      }
  Action-HasRuns {s = s} (Action.join before after t r tasks alive e done x) h =
      let (b, now, a) = All-split IsRun before after (subst (All IsRun) e h.under_way) in
      record {
        under_way = All-append IsRun before _ b a;
        reported = All-append IsRun s.joined _ h.reported (now, tt);
        at_end = All-append (λ (run : Running w). AtEnd w run.1) s.joined _ h.at_end (done, tt);
        stopped = h.stopped;
      }
  Action-HasRuns (Action.drained waits left) h = h
  Action-HasRuns (Action.timed_out waits) h = record {
    under_way = tt;
    reported = h.reported;
    at_end = h.at_end;
    stopped = h.under_way;
  }
  Action-HasRuns (Action.driver_ended r m d) h = h
  Action-HasRuns (Action.ctrl_c m) h = h
  Action-HasRuns (Action.exit m over) h = h

  pub Reach-HasRuns : {s : System w} → Reach w s → HasRuns s
  Reach-HasRuns begin =
      unfold init in record { under_way = tt; reported = tt; at_end = tt; stopped = tt }
  Reach-HasRuns (next r (step alive x)) = Action-HasRuns x (Reach-HasRuns r)
