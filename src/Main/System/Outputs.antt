-- ===== src/Main/System/Outputs.antt =====
-- From the driver to the outputs: what each accepted packet leads to, with the decoders that `main`
-- registers.
use mathlib.Core.List.{Perm}
use rosetta_mq.Prelude.{length, ◌≤◌, ℕ, ◌≡◌, refl, sym, subst, List, [], ◌∷◌, ◌++◌, All}
use rosetta_mq.Mqtt.{Publish}
use rosetta_mq.Decoder.{ResolvedDecodePublish}
use rosetta_mq.Engine.{Effect, calls}
use rosetta_mq.Engine.Incoming.{accepted_all}
use rosetta_mq.Engine.Relay
use rosetta_mq.Engine.Relay.{Relay, joining, finished, panicked}
use rosetta_mq.Engine.Relay.Outcome.{Returns, Step-due}
use rosetta_mq.Engine.Loop.Account.{Reach-IsAccounted}
use rosetta_mq.Main.Startup.{HasSingleDecoder}
use rosetta_mq.Main.Output.{IsOutput, publishes_once, resolved-returns}
use rosetta_mq.Main.System.{World, System, Running, incoming_capacity, AtEnd, Reach}
use rosetta_mq.Main.System.Refines.{engine-Reach}
use rosetta_mq.Main.System.Runs.{IsRun, Reach-HasRuns}
use rosetta_mq.Main.System.Delivery.{tasks_of, Reach-IsConsistent}

module _ (w : World) where
  -- The decode task has ended by a return, with one message published, which is an output for its
  -- packet.
  pub record HasOneOutput (run : Running w) : Type 0 where
    pub effects : List (Effect w.ClientError)
    pub returned : run.1 ≡ finished effects
    pub output : ResolvedDecodePublish
    pub one_call : calls effects ≡ output ∷ []
    pub is_output : IsOutput w.printing run.0.decoder run.0.message output

  -- What has become of the packets.
  pub record IsDelivered (s : System w) : Type 0 where
    pub order : s.forwarded ≡ s.engine.received ++ w.inbox.held s.queue
    pub fits : length (w.inbox.held s.queue) ≤ incoming_capacity
    pub accounted :
        Perm
          (tasks_of w s.joined ++ w.join_set.held s.engine.tasks ++ s.engine.abandoned)
          (accepted_all w.matches w.registry s.engine.received)
    pub outputs : All HasOneOutput s.joined

  Steps-Returns :
      (m : Publish) {n : ℕ} {r t : Relay w.outbox w.ClientError}
      → Relay.Steps w.outbox w.ClientError w.printing m n r t
      → Returns w.printing m w.outbox w.ClientError r
      → Returns w.printing m w.outbox w.ClientError t
  Steps-Returns m Relay.stay h = h
  Steps-Returns m (Relay.step x xs) h =
      Steps-Returns m xs (Step-due w.printing m w.outbox w.ClientError x h).0

  module _ (single : All HasSingleDecoder w.registry.entries) where
    -- The decoder of a task does not panic, wherever the task is.
    pub run-Returns :
        (run : Running w)
        → IsRun w run
        → Returns w.printing run.0.message w.outbox w.ClientError run.1
    run-Returns (t, r) h = Steps-Returns t.message h.steps (
        unfold Relay.start in
        resolved-returns w.printing w.outbox w.ClientError w.matches w.registry t.message t.decoder
          single h.found)

    run-HasOneOutput : (run : Running w) → IsRun w run → AtEnd w run.1 → HasOneOutput run
    run-HasOneOutput (t, joining a q out) h e = absurd e
    run-HasOneOutput (t, finished out) h e =
        let (o, one, is) =
          publishes_once w.printing w.outbox w.ClientError w.matches w.registry t.message t.decoder
            single h.found h.count out h.steps in
        record { effects = out; returned = refl; output = o; one_call = one; is_output = is }
    run-HasOneOutput (t, panicked out) h e = absurd (run-Returns (t, panicked out) h)

    runs-HasOneOutput :
        (runs : List (Running w))
        → All (IsRun w) runs
        → All (λ (run : Running w). AtEnd w run.1) runs
        → All HasOneOutput runs
    runs-HasOneOutput [] h e = tt
    runs-HasOneOutput (run ∷ runs) h e =
        (run-HasOneOutput run h.0 e.0, runs-HasOneOutput runs h.1 e.1)

    -- In every state that the program reaches, the packets that the driver forwarded are taken in, in
    -- their order, or still in the channel, which holds a hundred at most; the decode tasks that have ended, those in flight and
    -- those abandoned at a timed-out shutdown are together exactly the tasks of the accepted packets,
    -- each once; and each that has ended has published exactly one message, with the payload that its
    -- decoder emits for its packet, or with the text of the error with which its decoder fails and the
    -- packet's payload in hexadecimal. Each registered decoder must always emit one message or fail.
    pub Reach-IsDelivered : {s : System w} → Reach w s → IsDelivered s
    Reach-IsDelivered {s} r =
        let (order, same) = Reach-IsConsistent w r in
        let runs = Reach-HasRuns w r in
        record {
          order = order.order;
          fits = order.fits;
          accounted =
              subst
                (λ ts.
                  Perm (ts ++ w.join_set.held s.engine.tasks ++ s.engine.abandoned)
                    (accepted_all w.matches w.registry s.engine.received))
                (sym same.reported)
                (Reach-IsAccounted w.join_set w.matches w.registry w.max_concurrent_decodes
                  (engine-Reach w r)).tasks;
          outputs = runs-HasOneOutput s.joined runs.reported runs.at_end;
        }
