-- ===== src/Tests/Requests.antt =====
-- A run of the program into the gridlock of driver, engine and decode tasks: a hundred packets are
-- decoded while the driver sends no request, four more are decoded and wait, and then a hundred and one
-- come in.
use rosetta_mq.Prelude.{
  ℕ, zero, suc, ◌≡◌, refl, ◌≢◌, ◌<◌, ◌≤◌, sym, subst, false, none, some, List, [], ◌∷◌, ◌++◌, ok,
  length, length-append, filter, lt→ltb, arith,
}
use rosetta_mq.Text.{codes, Text, split}
use rosetta_mq.Mqtt.{Publish}
use rosetta_mq.Topic.Covers.{covers}
use rosetta_mq.Decoder.{done, with_payload, erased, erase_act, resolve, publish, publish_resolved}
use rosetta_mq.Decoder.Utf8.{utf8, utf8_decoder, from_utf8, validate, char_width}
use rosetta_mq.Decoder.Registry
use rosetta_mq.Decoder.Registry.{max_by_filter, max_from}
use rosetta_mq.Engine.{Task, handle_incoming, publish_decoded}
use rosetta_mq.Engine.Incoming.{accepted}
use rosetta_mq.Engine.Relay
use rosetta_mq.Engine.Relay.{joining, push, pull, finish, after_join, finished}
use rosetta_mq.Engine.Loop
use rosetta_mq.Engine.Loop.{looping, returned, take_in}
use rosetta_mq.Main.System
use rosetta_mq.Main.System.{
  World, System, Running, Driver, polling, sending, waiting, stopping, exited, Action, begun,
  incoming_capacity,
}
use rosetta_mq.Main.Requests.{
  Request, publication, Requests, Program, call_in, Answers, act, Reach, begin, next, init,
  request_capacity,
}
use rosetta_mq.Tests.Fixtures.{broker, ListChannel, fifo_offer, accepting}
use rosetta_mq.Tests.Tasks.{message, output}
use rosetta_mq.Tests.System.{world, task, after_task}

-- A client that refuses no topic.
abbrev pub client : Requests
client = record { queue = ListChannel Request request_capacity; refuses = λ _. false }

-- The request that the output of the message is published by.
abbrev pub asked : Request
asked = publication output

unfoldable pub copies : {A : Type 0} → ℕ → A → List A
copies zero a = []
copies (suc n) a = copies n a ++ a ∷ []

length-copies : {A : Type 0} (n : ℕ) (a : A) → length (copies n a) ≡ n
unfolding copies
length-copies zero a = refl
length-copies (suc n) a = omega (arith, length-append (copies n a) (a ∷ []), length-copies n a)

pub offer_room :
    {A : Type 0} (n k : ℕ) (a : A) → k < n → fifo_offer A n (copies k a) a ≡ some (copies (suc k) a)
unfolding copies
offer_room n k a lt = rw (length-copies k a, lt→ltb k n lt) refl

pub offer_full : {A : Type 0} (n : ℕ) (a b : A) → fifo_offer A n (copies n a) b ≡ none
offer_full n a b = ground (arith, length-copies n a)

-- A state before a shutdown, by what happened so far.
abbrev state :
    Driver Text
    → List Publish
    → List Task
    → List (Running world)
    → (forwarded received : List Publish) (reported : List (Running world)) (reaped : List Task)
    → List Request
    → Program world client
state driver queue tasks running forwarded received reported reaped requests = record {
  system = record {
    driver = driver;
    queue = queue;
    engine = record {
      phase = looping;
      tasks = tasks;
      received = received;
      reaped = reaped;
      abandoned = [];
    };
    running = running;
    main = waiting;
    forwarded = forwarded;
    joined = reported;
    aborted = [];
  };
  requests = requests;
  sent = [];
}

-- `k` packets were decoded, and their outputs wait in the queue of requests.
abbrev served : ℕ → Program world client
served k =
    state polling [] [] [] (copies k message) (copies k message) (copies k after_task)
      (copies k task) (copies k asked)

-- A step that makes no call.
quietly :
    {x : Program world client} {s : System world}
    → Reach world client x
    → x.system.main ≢ exited
    → (a : Action world x.system s) → call_in world client a ≡ none
    → Reach world client (record x { system = s })
quietly {x} h alive a none_made = next h (
    act alive a (
      subst (λ call. Answers world client x.system call x.requests x.requests) (sym none_made)
        Answers.no_call))

-- A packet comes in, is forwarded and is taken in.
abbrev taken : (k : ℕ) → List (Running world) → Program world client
taken k running =
    state polling [] (task ∷ []) running (copies (suc k) message) (copies (suc k) message)
      (copies k after_task) (copies k task) (copies k asked)

taken-Reach :
    (k : ℕ) → Reach world client (served k) → Reach world client (taken k (begun world task ∷ []))
unfolding copies take_in handle_incoming accepted Registry.resolve broker filter covers split
taken-Reach k h =
    quietly
      (quietly (quietly h (λ e. cc e) (Action.poll_publish message refl) refl) (λ e. cc e)
        (Action.sent message (message ∷ []) refl (λ e. cc e) refl) refl)
      (λ e. cc e) (Action.receive message [] refl (omega arith) refl) refl

served_next :
    (k : ℕ) → k < 100 → Reach world client (served k) → Reach world client (served (suc k))
unfolding copies Relay.start erased erase_act utf8_decoder utf8 from_utf8 validate char_width
    publish_decoded publish publish_resolved resolve after_join
served_next k lt h =
    let pushed =
      quietly (taken-Reach k h) (λ e. cc e) (Action.work [] [] task _ _ refl (push refl)) refl in
    let pulled = next pushed (
      act (λ e. cc e) (Action.work [] [] task _ _ refl (pull accepting refl))
        (Answers.queued (λ (r, e). cc e) (offer_room 100 k asked lt))) in
    let finished =
      quietly pulled (λ e. cc e) (Action.work [] [] task _ _ refl (finish accepting refl)) refl in
    quietly finished (λ e. cc e)
      (Action.join [] [] task _ [] (λ e. cc e) refl tt ([], [], refl, refl)) refl

served_100 : (k : ℕ) → k ≤ 100 → Reach world client (served k)
unfolding copies init System.init Loop.start
served_100 zero le = begin [] [] refl (omega arith)
served_100 (suc k) le = served_next k (omega (arith, le)) (served_100 k (omega (arith, le)))

-- `n` more of them.
pub more : ℕ → List Publish → List Publish
more zero f = f
more (suc n) f = more n f ++ message ∷ []

-- A task whose decoder is done, with the message in the channel between decoder and publisher.
abbrev pub blocked : Running world
blocked = (task, joining (done (ok tt)) (with_payload (codes "hi") ∷ []) [])

abbrev before_block : List Publish
before_block = copies 100 message

-- The queue of requests is full, and `n` tasks wait for room in it.
abbrev busy : ℕ → Program world client
busy n =
    state polling [] (copies n task) (copies n blocked) (more n before_block) (more n before_block)
      (copies 100 after_task) (copies 100 task) (copies 100 asked)

busy_next : (n : ℕ) → n < 4 → Reach world client (busy n) → Reach world client (busy (suc n))
unfolding copies more take_in handle_incoming accepted Registry.resolve broker filter covers split
    Relay.start erased erase_act utf8_decoder utf8 from_utf8 validate char_width
busy_next n lt h =
    let polled = quietly h (λ e. cc e) (Action.poll_publish message refl) refl in
    let forwarded =
      quietly polled (λ e. cc e) (Action.sent message (message ∷ []) refl (λ e. cc e) refl) refl in
    let taken_in =
      quietly forwarded (λ e. cc e)
        (Action.receive message [] refl (omega (arith, lt, length-copies n task)) refl) refl in
    quietly taken_in (λ e. cc e) (Action.work (copies n blocked) [] task _ _ refl (push refl)) refl

busy_4 : (n : ℕ) → n ≤ 4 → Reach world client (busy n)
unfolding copies more
busy_4 zero le = served_100 100 (omega arith)
busy_4 (suc n) le = busy_next n (omega (arith, le)) (busy_4 n (omega (arith, le)))

-- `j` packets wait in the channel.
abbrev pub waiting_for : ℕ → Driver Text → Program world client
waiting_for j driver =
    state driver (copies j message) (copies 4 task) (copies 4 blocked)
      (more j (more 4 before_block)) (more 4 before_block) (copies 100 after_task) (copies 100 task)
      (copies 100 asked)

waiting_next :
    (j : ℕ)
    → j < 100
    → Reach world client (waiting_for j polling)
    → Reach world client (waiting_for (suc j) polling)
unfolding more
waiting_next j lt h =
    quietly (quietly h (λ e. cc e) (Action.poll_publish message refl) refl) (λ e. cc e)
      (Action.sent message (copies (suc j) message) refl (λ e. cc e) (offer_room 100 j message lt))
      refl

pub waiting_100 : (j : ℕ) → j ≤ 100 → Reach world client (waiting_for j polling)
unfolding copies more
waiting_100 zero le = busy_4 4 (omega arith)
waiting_100 (suc j) le = waiting_next j (omega (arith, le)) (waiting_100 j (omega (arith, le)))

pub gridlocked-Reach : Reach world client (waiting_for 100 (sending message))
gridlocked-Reach =
    quietly (waiting_100 100 (omega arith)) (λ e. cc e) (Action.poll_publish message refl) refl
