-- ===== src/Main/Requests.antt =====
-- The running program with the client's queue of requests, `AsyncClient::new(options, 100)` in
-- src/client.rs: a call of `publish` in src/engine.rs waits for room in it, and the driver takes a
-- request out where it polls the event loop. So the queue is between the decode tasks and the driver,
-- as the channel of incoming packets is between the driver and the engine.
pub mod Published
pub mod Account
pub mod Gridlock
pub mod Fate
pub mod Exit
pub mod Drain
pub mod Graceful
pub mod Start
pub mod Subscribing
pub mod Standing
pub mod Found
pub mod Deadlock
use rosetta_mq.Prelude.{
  ℕ, ◌≡◌, ◌≢◌, ◌⊎◌, Bool, true, Option, none, some, List, [], ◌∷◌, ◌++◌, map, length, ◌≤◌, Result,
  ok, err,
}
use rosetta_mq.Text.{Text}
use rosetta_mq.Mqtt.{Publish}
use rosetta_mq.Runtime.{Channel}
use rosetta_mq.Decoder.{
  DecodeError, BoxedDecodeError, ResolvedDecodePublish, resolve, Client, publish,
}
use rosetta_mq.Engine.{Printing, error_publish}
use rosetta_mq.Engine.Relay
use rosetta_mq.Engine.Relay.{Relay}
use rosetta_mq.Main.System
use rosetta_mq.Main.System.{World, System, Driver, polling, exited, Action}

abbrev pub request_capacity : ℕ
request_capacity = 100

-- What the client asks of the broker: a subscription of the start, or a message.
pub data Request : Type 0 where
  subscription : Text → Request
  publication : ResolvedDecodePublish → Request

-- The client of a world: its queue of requests, and the messages that `publish` refuses because
-- their topic is not valid.
pub record Requests : Type 1 where
  pub queue : Channel Request request_capacity
  pub refuses : Request → Bool

module _ (w : World) (c : Requests) where
  -- A call of the client's `publish`, and what it returned.
  abbrev pub Call : Type 0
  Call = Request × Result (Unit {0}) w.ClientError

  -- The call about the result of the join.
  abbrev pub error_call :
      Publish
      → Client w.ClientError
      → Result (Unit {0}) (DecodeError BoxedDecodeError)
      → Option Call
  error_call message client (ok _) = none
  error_call message client (err e) =
      let text = error_publish w.printing e message in
      some (publication (resolve text message), publish client text message)

  -- The call that a step of a decode task makes.
  abbrev pub call_of :
      {message : Publish} {r r' : Relay w.outbox w.ClientError}
      → Relay.Step w.outbox w.ClientError w.printing message r r'
      → Option Call
  call_of (Relay.push _) = none
  call_of {message = message} (Relay.pull {m = m} client _) =
      some (publication (resolve m message), publish client m message)
  call_of {message = message} (Relay.finish {r = r} client _) = error_call message client r
  call_of Relay.crash = none

  abbrev pub call_in : {s t : System w} → Action w s t → Option Call
  call_in (Action.work before after t r r' e x) = call_of x
  call_in _ = none

  -- The driver has ended and dropped the event loop.
  abbrev pub IsGone : System w → Type 0
  IsGone s = (r : Result (Unit {0}) w.PollError) × (s.driver ≡ Driver.ended r)

  -- How a call is answered: it succeeds once its request is in the queue, and it fails at once if the
  -- client refuses it or the event loop is gone.
  pub data Answers (s : System w) : Option Call → c.queue.Queue → c.queue.Queue → Type 0 where
    no_call : {q : c.queue.Queue} → Answers s none q q
    queued :
        {p : Request} {q q' : c.queue.Queue}
        → ¬ IsGone s
        → c.queue.offer q p ≡ some q'
        → Answers s (some (p, ok tt)) q q'
    failed :
        {p : Request} {e : w.ClientError} {q : c.queue.Queue}
        → (c.refuses p ≡ true) ⊎ IsGone s
        → Answers s (some (p, err e)) q q

  -- `sent` is a record for the proofs: the requests that the driver has taken out of the queue.
  pub record Program : Type 0 where
    pub system : System w
    pub requests : c.queue.Queue
    pub sent : List Request

  -- The engine is spawned once each subscription is in the queue; some may still wait there.
  unfoldable pub init : c.queue.Queue → Program
  unfolding System.init
  init q = record { system = System.init w; requests = q; sent = [] }

  pub data Step (x : Program) : Program → Type 0 where
    act :
        {s : System w} {q : c.queue.Queue}
        → x.system.main ≢ exited
        → (a : Action w x.system s) → Answers x.system (call_in a) x.requests q
        → Step x (record x { system = s; requests = q })
    -- A round of `eventloop.poll()` that sends a request.
    take_request :
        (p : Request) (q : c.queue.Queue)
        → x.system.main ≢ exited
        → x.system.driver ≡ polling
        → c.queue.poll x.requests ≡ some (p, q)
        → Step x (record x { requests = q; sent = x.sent ++ p ∷ [] })

  pub data Reach : Program → Type 0 where
    begin :
        (q : c.queue.Queue) (filters : List Text)
        → c.queue.held q ≡ map (λ f. subscription f) filters
        → length (c.queue.held q) ≤ request_capacity
        → Reach (init q)
    next : {x y : Program} → Reach x → Step x y → Reach y

  -- The queue only holds steps back: what the program does with it, it does without it.
  pub system-Reach : {x : Program} → Reach x → System.Reach w x.system
  unfolding init
  system-Reach (begin q filters e fits) = System.begin
  system-Reach (next r (act alive a _)) = System.next (system-Reach r) (System.step alive a)
  system-Reach (next r (take_request p q _ _ _)) = system-Reach r
