-- ===== src/Main/Requests/Gridlock.antt =====
-- The driver, the engine and the decode tasks of the running program waiting for each other.
use rosetta_mq.Prelude.{
  ◌<◌, ◌≡◌, refl, ◌≢◌, sym, ap, ◌∙◌, subst, ◌⊎◌, inl, inr, false, none, some, List, [], ◌∷◌, ◌++◌,
  Result, All,
}
use rosetta_mq.Mqtt.{Publish}
use rosetta_mq.Engine.Relay
use rosetta_mq.Engine.Relay.{Relay}
use rosetta_mq.Engine.Loop.{looping, returned}
use rosetta_mq.Main.System.{World, System, Running, Driver, sending, Action, AtEnd}
use rosetta_mq.Main.Requests.{
  Request, Requests, Program, call_of, IsGone, Answers, Step, act, take_request,
}

module _ (w : World) (c : Requests) where
  -- All that the task can do next is a call that the client does not refuse.
  pub record IsBlocked (run : Running w) : Type 0 where
    pub under_way : ¬ AtEnd w run.1
    pub calls :
        (r' : Relay w.outbox w.ClientError)
        (x : Relay.Step w.outbox w.ClientError w.printing run.0.message run.1 r')
        → (p : Request) × (a : Result (Unit {0}) w.ClientError) × (call_of w c x ≡ some (p, a))
          × (c.refuses p ≡ false)

  -- The driver waits for room in the channel of packets, the engine for the end of a task, and each
  -- task for room in the queue of requests.
  pub record IsGridlocked (x : Program w c) : Type 0 where
    pub packet : Publish
    pub holds : x.system.driver ≡ sending packet
    pub inbox_full : w.inbox.offer x.system.queue packet ≡ none
    pub requests_full : (p : Request) → c.queue.offer x.requests p ≡ none
    pub runs : x.system.engine.phase ≢ returned
    pub at_limit :
        x.system.engine.phase ≡ looping
        → ¬ (w.join_set.len x.system.engine.tasks < w.max_concurrent_decodes)
    pub some_held : w.join_set.held x.system.engine.tasks ≢ []
    pub blocked : All IsBlocked x.system.running

  member :
      (P : Running w → Type 0) (before after : List (Running w)) (run : Running w)
      → All P (before ++ run ∷ after)
      → P run
  member P [] after run h = h.0
  member P (x ∷ before) after run h = member P before after run h.1

  -- The engine has returned, and these tasks were stopped by that.
  pub record IsOver (runs : List (Running w)) (y : Program w c) : Type 0 where
    pub gone : y.system.engine.phase ≡ returned
    pub none_left : y.system.running ≡ []
    pub stopped : y.system.aborted ≡ runs
    pub not_polling : y.system.driver ≢ Driver.polling

  -- What a gridlock leads to: the gridlock again, or the end of its tasks; in between no request is
  -- sent and no packet is taken in.
  pub record IsFate (x y : Program w c) : Type 0 where
    pub none_sent : y.sent ≡ x.sent
    pub none_received : y.system.engine.received ≡ x.system.engine.received
    pub end : (IsGridlocked y × (y.system.running ≡ x.system.running)) ⊎ IsOver x.system.running y

  pub lasting :
      (x y : Program w c)
      → IsGridlocked y
      → y.sent ≡ x.sent
      → y.system.engine.received ≡ x.system.engine.received
      → y.system.running ≡ x.system.running
      → IsFate x y
  lasting x y g e f same = record { none_sent = e; none_received = f; end = inl (g, same) }

  refuted :
      {s : System w} {p : Request} {answer : Result (Unit {0}) w.ClientError} {q q' : c.queue.Queue}
      → Answers w c s (some (p, answer)) q q'
      → ((p : Request) → c.queue.offer q p ≡ none)
      → ¬ IsGone w c s
      → c.refuses p ≢ false
  refuted (Answers.queued {p = p} up o) full going fine = cc (o, full p)
  refuted (Answers.failed (inl bad)) full going fine = cc (bad, fine)
  refuted (Answers.failed (inr gone)) full going fine = going gone

  -- A blocked task makes no step while the queue of requests is full and the driver goes on.
  unanswered :
      {s : System w} {run : Running w} {r' : Relay w.outbox w.ClientError} {q q' : c.queue.Queue}
      → IsBlocked run
      → ((p : Request) → c.queue.offer q p ≡ none)
      → ¬ IsGone w c s
      → (x : Relay.Step w.outbox w.ClientError w.printing run.0.message run.1 r')
      → ¬ Answers w c s (call_of w c x) q q'
  unanswered {s = s} {q = q} {q' = q'} b full going x a =
      let (p, answer, called, fine) = b.calls _ x in
      refuted (subst (λ call. Answers w c s call q q') called a) full going fine

  not-IsGone : {x : Program w c} → IsGridlocked x → ¬ IsGone w c x.system
  not-IsGone g (r, e) = cc (e, g.holds)

  held_packet : Driver w.PollError → Publish → Publish
  held_packet (Driver.sending p) d = p
  held_packet _ d = d

  no_room :
      {x : Program w c} {p : Publish} {q : w.inbox.Queue}
      → IsGridlocked x
      → x.system.driver ≡ sending p
      → ¬ (w.inbox.offer x.system.queue p ≡ some q)
  unfolding held_packet
  no_room {x = x} {p = p} g d o =
      let same : p ≡ g.packet = ap (λ y. held_packet y p) (sym d ∙ g.holds) in
      cc (o, g.inbox_full, same)

  pub step-IsFate : {x y : Program w c} → Step w c x y → IsGridlocked x → IsFate x y
  step-IsFate (take_request p q alive d e) g = absurd (cc (d, g.holds))
  step-IsFate (act alive (Action.poll_publish p d) a) g = absurd (cc (d, g.holds))
  step-IsFate (act alive (Action.poll_other d) a) g = absurd (cc (d, g.holds))
  step-IsFate (act alive (Action.poll_failed e d) a) g = absurd (cc (d, g.holds))
  step-IsFate (act alive (Action.sent p q d up o) a) g = absurd (no_room g d o)
  step-IsFate (act alive (Action.refused p d gone) a) g = absurd (g.runs gone)
  step-IsFate (act alive (Action.receive m q looks room e) a) g = absurd (g.at_limit looks room)
  step-IsFate (act alive (Action.closed r looks room d e) a) g = absurd (g.at_limit looks room)
  step-IsFate (act alive (Action.cancelled looks m) Answers.no_call) g =
      lasting _ _
        (record {
          packet = g.packet;
          holds = g.holds;
          inbox_full = g.inbox_full;
          requests_full = g.requests_full;
          runs = λ e. cc e;
          at_limit = λ e. absurd (cc e);
          some_held = g.some_held;
          blocked = g.blocked;
        })
        refl refl refl
  step-IsFate (act alive (Action.work before rest t r r' e x) a) g = absurd (
      unanswered (member IsBlocked before rest (t, r) (subst (All IsBlocked) e g.blocked))
        g.requests_full (not-IsGone g) x a)
  step-IsFate (act alive (Action.join before rest t r tasks up e done x) a) g =
      absurd
        ((member IsBlocked before rest (t, r) (subst (All IsBlocked) e g.blocked)).under_way done)
  step-IsFate (act alive (Action.drained waits left) a) g = absurd (g.some_held left)
  step-IsFate (act alive (Action.timed_out waits) Answers.no_call) g = record {
    none_sent = refl;
    none_received = refl;
    end = inr (record {
      gone = refl;
      none_left = refl;
      stopped = refl;
      not_polling = λ d. cc (d, g.holds);
    });
  }
  step-IsFate (act alive (Action.driver_ended r m d) a) g = absurd (cc (d, g.holds))
  step-IsFate (act alive (Action.ctrl_c m) Answers.no_call) g =
      lasting _ _
        (record {
          packet = g.packet;
          holds = g.holds;
          inbox_full = g.inbox_full;
          requests_full = g.requests_full;
          runs = g.runs;
          at_limit = g.at_limit;
          some_held = g.some_held;
          blocked = g.blocked;
        })
        refl refl refl
  step-IsFate (act alive (Action.exit m gone) a) g = absurd (g.runs gone)
