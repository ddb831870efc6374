-- ===== src/Main/System.antt =====
-- The running program: the driver task of `Client::connect` in src/client.rs, `run` with its decode
-- tasks in src/engine.rs, and the end of `main` in src/main.rs, in any interleaving. The channel of
-- incoming packets is between driver and engine, and the cancellation token between `main` and engine.
pub mod Refines
pub mod Forwards
pub mod Runs
pub mod Delivery
pub mod Outputs
pub mod Feedback
pub mod Exit
pub mod Stop
use rosetta_mq.Prelude.{
  ℕ, zero, suc, ◌<◌, ◌≡◌, ◌≢◌, Bool, true, false, Option, none, some, List, [], ◌∷◌, ◌++◌, map,
  Result, ok, err,
}
use rosetta_mq.Text.{Text}
use rosetta_mq.Mqtt.{Publish}
use rosetta_mq.Runtime.{Channel}
use rosetta_mq.Decoder.{DecodePublish, ErasedDecoder}
use rosetta_mq.Decoder.Registry.{DecoderRegistry}
use rosetta_mq.Engine.{decode_channel_capacity, JoinSet, Task, Printing}
use rosetta_mq.Engine.Incoming.{accepted}
use rosetta_mq.Engine.Relay
use rosetta_mq.Engine.Relay.{Relay, finished, panicked}
use rosetta_mq.Engine.Loop
use rosetta_mq.Engine.Loop.{Engine, looping, draining, returned, take_in}

-- `mpsc::channel(100)`.
abbrev pub incoming_capacity : ℕ
incoming_capacity = 100

-- What the program runs on: the runtime, the broker library, and what `main` has prepared.
pub record World : Type 1 where
  pub join_set : JoinSet
  pub inbox : Channel Publish incoming_capacity
  pub outbox : Channel DecodePublish decode_channel_capacity
  pub ClientError : Type 0
  pub PollError : Type 0
  pub printing : Printing
  pub matches : Text → Text → Bool
  pub registry : DecoderRegistry ErasedDecoder
  pub max_concurrent_decodes : ℕ

-- The driver task polls, holds a packet for the channel, or has ended.
pub data Driver (E : Type 0) : Type 0 where
  polling : Driver E
  sending : Publish → Driver E
  ended : Result (Unit {0}) E → Driver E

-- `main` waits in its `select!`, has cancelled the token and waits for the engine, or has returned.
pub data MainPhase : Type 0 where
  waiting stopping exited : MainPhase

module _ (w : World) where
  -- A decode task that was spawned, and how far it is.
  abbrev pub Running : Type 0
  Running = Task × Relay w.outbox w.ClientError

  -- `forwarded`, `joined` and `aborted` are a record for the proofs: the packets put into the channel,
  -- the decode tasks whose end was reported, and those that the return of the engine stopped.
  pub record System : Type 0 where
    pub driver : Driver w.PollError
    pub queue : w.inbox.Queue
    pub engine : Engine w.join_set
    pub running : List Running
    pub main : MainPhase
    pub forwarded : List Publish
    pub joined : List Running
    pub aborted : List Running

  unfoldable pub init : System
  init = record {
    driver = polling;
    queue = w.inbox.empty;
    engine = Loop.start w.join_set;
    running = [];
    main = waiting;
    forwarded = [];
    joined = [];
    aborted = [];
  }

  abbrev pub begun : Task → Running
  begun t = (t, Relay.start w.outbox w.ClientError t.decoder t.message)

  -- The task is at its end, by a return or a panic.
  abbrev pub AtEnd : Relay w.outbox w.ClientError → Type 0
  AtEnd (Relay.joining _ _ _) = ⊥
  AtEnd (finished _) = Unit
  AtEnd (panicked _) = Unit

  -- What can happen next, while `main` has not returned. A call of the client's `publish` is answered
  -- at once here; where it has to wait for room in the client's queue is in `Main/Requests`.
  pub data Action (s : System) : System → Type 0 where
    -- The driver: what `eventloop.poll()` returns, and the send into the channel, which fails once
    -- the engine has returned and so dropped the receiver.
    poll_publish : (p : Publish) → s.driver ≡ polling → Action s (record s { driver = sending p })
    poll_other : s.driver ≡ polling → Action s s
    poll_failed :
        (e : w.PollError) → s.driver ≡ polling → Action s (record s { driver = ended (err e) })
    sent :
        (p : Publish) (q : w.inbox.Queue)
        → s.driver ≡ sending p
        → s.engine.phase ≢ returned
        → w.inbox.offer s.queue p ≡ some q
        → Action s (record s { driver = polling; queue = q; forwarded = s.forwarded ++ p ∷ [] })
    refused :
        (p : Publish)
        → s.driver ≡ sending p
        → s.engine.phase ≡ returned
        → Action s (record s { driver = ended (ok tt) })
    -- The engine. The channel is closed once the driver has ended and dropped the sender.
    receive :
        (m : Publish) (q : w.inbox.Queue)
        → s.engine.phase ≡ looping
        → w.join_set.len s.engine.tasks < w.max_concurrent_decodes
        → w.inbox.poll s.queue ≡ some (m, q)
        → Action s (record s {
          queue = q;
          engine = take_in w.join_set w.matches w.registry s.engine (some m);
          running = s.running ++ map begun (accepted w.matches w.registry m);
        })
    closed :
        (r : Result (Unit {0}) w.PollError)
        → s.engine.phase ≡ looping
        → w.join_set.len s.engine.tasks < w.max_concurrent_decodes
        → s.driver ≡ ended r
        → w.inbox.poll s.queue ≡ none
        → Action s (record s { engine = take_in w.join_set w.matches w.registry s.engine none })
    cancelled :
        s.engine.phase ≡ looping
        → s.main ≡ stopping
        → Action s (record s { engine = record s.engine { phase = draining } })
    -- A decode task: one step, and the report of its end to the loop or to `drain`.
    work :
        (before after : List Running) (t : Task) (r r' : Relay w.outbox w.ClientError)
        → s.running ≡ before ++ (t, r) ∷ after
        → Relay.Step w.outbox w.ClientError w.printing t.message r r'
        → Action s (record s { running = before ++ (t, r') ∷ after })
    join :
        (before after : List Running) (t : Task) (r : Relay w.outbox w.ClientError)
        (tasks : w.join_set.Tasks)
        → s.engine.phase ≢ returned
        → s.running ≡ before ++ (t, r) ∷ after
        → AtEnd r
        → w.join_set.Joins s.engine.tasks t tasks
        → Action s (record s {
          engine = record s.engine { tasks = tasks; reaped = s.engine.reaped ++ t ∷ [] };
          running = before ++ after;
          joined = s.joined ++ (t, r) ∷ [];
        })
    drained :
        s.engine.phase ≡ draining
        → w.join_set.held s.engine.tasks ≡ []
        → Action s (record s { engine = record s.engine { phase = returned } })
    -- The timeout of `drain`; what is left is aborted.
    timed_out :
        s.engine.phase ≡ draining
        → Action s (record s {
          engine = record s.engine {
            phase = returned;
            tasks = w.join_set.new;
            abandoned = w.join_set.held s.engine.tasks;
          };
          running = [];
          aborted = s.running;
        })
    -- `main`: either branch of its `select!`, which cancels the token, and the end of the engine.
    driver_ended :
        (r : Result (Unit {0}) w.PollError)
        → s.main ≡ waiting
        → s.driver ≡ ended r
        → Action s (record s { main = stopping })
    ctrl_c : s.main ≡ waiting → Action s (record s { main = stopping })
    exit : s.main ≡ stopping → s.engine.phase ≡ returned → Action s (record s { main = exited })

  pub data Step (s t : System) : Type 0 where
    step : s.main ≢ exited → Action s t → Step s t

  pub data Reach : System → Type 0 where
    begin : Reach init
    next : {s t : System} → Reach s → Step s t → Reach t
