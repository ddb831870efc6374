-- ===== src/Tests/Gridlock.antt =====
-- Tests of the gridlock of driver, engine and decode tasks, and of what follows it.
use rosetta_mq.Prelude.{◌≡◌, ◌⊎◌, refl, false, some, [], Result, arith}
use rosetta_mq.Text.{codes, Text}
use rosetta_mq.Decoder.{resolve, publish}
use rosetta_mq.Engine.Relay
use rosetta_mq.Engine.Relay.{joining, push, pull, finish, after_join, finished}
use rosetta_mq.Engine.Loop.{returned}
use rosetta_mq.Main.System.{polling, sending, stopping, Action}
use rosetta_mq.Main.Requests.{Request, publication, Program, call_of, Answers, act}
use rosetta_mq.Main.Requests.Gridlock.{IsBlocked, IsGridlocked, IsFate}
use rosetta_mq.Main.Requests.Fate.{Later, here, onward, Later-IsFate}
use rosetta_mq.Main.Requests.Account.{IsBalanced, Reach-IsBalanced}
use rosetta_mq.Main.Requests.Deadlock.{CanMove, only_gridlock}
use rosetta_mq.Main.Requests.Graceful.{HasCleanEnd, clean_exit}
use rosetta_mq.Main.Ready.{startup-IsStarted}
use rosetta_mq.Tests.Platforms.{platform, templates-KeepsTemplates}
use rosetta_mq.Tests.Starts.{started, startup_run}
use rosetta_mq.Main.Requests.Exit.{CanExit, can_return}
use rosetta_mq.Tests.Fixtures.{Fifo, printing}
use rosetta_mq.Tests.Tasks.{message}
use rosetta_mq.Tests.System.{world, task}
use rosetta_mq.Tests.Requests.{
  client, copies, offer_full, asked, blocked, waiting_for, waiting_100, gridlocked-Reach,
}

blocked_calls :
    (r' : Relay.Relay Fifo Text) (x : Relay.Step Fifo Text printing message blocked.1 r')
    → (p : Request) × (a : Result (Unit {0}) Text) × (call_of world client x ≡ some (p, a))
      × (false ≡ false)
blocked_calls r' (pull {m = m} c e) =
    (publication (resolve m message), publish c m message, refl, refl)
blocked_calls r' (finish c e) = absurd (cc e)

blocked-IsBlocked : IsBlocked world client blocked
blocked-IsBlocked = record { under_way = λ over. over; calls = blocked_calls }

gridlocked : IsGridlocked world client (waiting_for 100 (sending message))
unfolding copies
gridlocked = record {
  packet = message;
  holds = refl;
  inbox_full = offer_full 100 message message;
  requests_full = λ p. offer_full 100 asked p;
  runs = λ e. cc e;
  at_limit = λ looks room. omega (arith, room);
  some_held = λ e. cc e;
  blocked = (blocked-IsBlocked, (blocked-IsBlocked, (blocked-IsBlocked, (blocked-IsBlocked, tt))));
}

-- The state after the signal, the cancellation and the timeout.
abbrev timed_out : Program world client
timed_out = record {
  system = record (waiting_for 100 (sending message)).system {
    engine = record (waiting_for 100 (sending message)).system.engine {
      phase = returned;
      tasks = [];
      abandoned = copies 4 task;
    };
    running = [];
    main = stopping;
    aborted = copies 4 blocked;
  };
  requests = copies 100 asked;
  sent = [];
}

timed_out-Later : Later world client (waiting_for 100 (sending message)) timed_out
timed_out-Later =
    onward
      (onward (onward here (act (λ e. cc e) (Action.ctrl_c refl) Answers.no_call))
        (act (λ e. cc e) (Action.cancelled refl refl) Answers.no_call))
      (act (λ e. cc e) (Action.timed_out refl) Answers.no_call)

Later-IsFate_example : IsFate world client (waiting_for 100 (sending message)) timed_out
Later-IsFate_example = Later-IsFate world client gridlocked timed_out-Later

Reach-IsBalanced_example : IsBalanced world client (waiting_for 100 (sending message))
Reach-IsBalanced_example = Reach-IsBalanced world client gridlocked-Reach

can_return_example : CanExit world client 4 (waiting_for 100 (sending message))
can_return_example = can_return world client (waiting_for 100 (sending message)) (λ e. cc e)

only_gridlock_example :
    ((waiting_for 100 (sending message)).system.driver ≡ polling)
    ⊎ IsGridlocked world client (waiting_for 100 (sending message))
    ⊎ ∥ CanMove world client (waiting_for 100 (sending message)) ∥₁
only_gridlock_example =
    only_gridlock world client (codes "invalid topic") (waiting_for 100 (sending message))
      gridlocked-Reach (omega arith) (λ e. cc e)

-- The channel of packets and the queue of requests are full and four tasks wait, but the driver still
-- polls.
clean_exit_example : ∥ HasCleanEnd world client (waiting_for 100 polling) ∥₁
clean_exit_example =
    clean_exit world client (codes "invalid topic")
      (startup-IsStarted platform (codes "rosetta.toml") started templates-KeepsTemplates
        startup_run).2.single
      (waiting_for 100 polling) (waiting_100 100 (omega arith)) refl (λ e. cc e)
