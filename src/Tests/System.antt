-- ===== src/Tests/System.antt =====
-- Tests of the running program.
use mathlib.Core.List.{Perm}
use rosetta_mq.Prelude.{◌≤◌, ◌<◌, ◌≡◌, refl, some, [], ◌∷◌, filter, here, arith}
use rosetta_mq.Text.{codes, Text, split}
use rosetta_mq.Mqtt.{Publish}
use rosetta_mq.Topic.Covers.{covers}
use rosetta_mq.Decoder.{erased, erase_act, resolve, publish, publish_resolved}
use rosetta_mq.Decoder.Utf8.{utf8, utf8_decoder, from_utf8, validate, char_width}
use rosetta_mq.Decoder.Registry
use rosetta_mq.Decoder.Registry.{max_by_filter, max_from}
use rosetta_mq.Engine.{Task, proceed, handle_incoming, publish_decoded}
use rosetta_mq.Engine.Incoming.{accepted, accepted_all}
use rosetta_mq.Engine.Relay
use rosetta_mq.Engine.Relay.{push, pull, finish, after_join, finished}
use rosetta_mq.Engine.Loop
use rosetta_mq.Engine.Loop.{draining, returned, looping, take_in}
use rosetta_mq.Main.System.{
  World, System, Running, polling, waiting, exited, incoming_capacity, Action, step, Reach, begin,
  next, init, begun,
}
use rosetta_mq.Main.System.Outputs.{IsDelivered}
use rosetta_mq.Main.Program.{launched, program-IsDelivered, program-no_loop}
use rosetta_mq.Tests.Platforms.{platform, templates-KeepsTemplates}
use rosetta_mq.Tests.Starts.{started, startup_run}
use rosetta_mq.Main.System.Exit.{IsCaused, Reach-IsCaused, exited-accounted}
use rosetta_mq.Tests.Fixtures.{packet, broker, TaskList, ListChannel, Fifo, printing, accepting}
use rosetta_mq.Tests.Tasks.{message, text_decoder, output, shown}

abbrev pub world : World
world = record {
  join_set = TaskList;
  inbox = ListChannel Publish incoming_capacity;
  outbox = Fifo;
  ClientError = Text;
  PollError = Text;
  printing = printing;
  matches = broker;
  registry = started.registry;
  max_concurrent_decodes = started.max_concurrent_decodes;
}

abbrev pub task : Task
task = record { decoder = text_decoder; message = message }

-- One packet was taken in and its task runs.
abbrev taken_in : System world
taken_in = record {
  driver = polling;
  queue = [];
  engine = record {
    phase = looping;
    tasks = task ∷ [];
    received = message ∷ [];
    reaped = [];
    abandoned = [];
  };
  running = begun world task ∷ [];
  main = waiting;
  forwarded = message ∷ [];
  joined = [];
  aborted = [];
}

taken_in-Reach : Reach world taken_in
unfolding init Loop.start take_in handle_incoming accepted Registry.resolve broker filter covers
    split
taken_in-Reach =
    next
      (next (next begin (step (λ e. cc e) (Action.poll_publish message refl)))
        (step (λ e. cc e) (Action.sent message (message ∷ []) refl (λ e. cc e) refl)))
      (step (λ e. cc e) (Action.receive message [] refl (omega arith) refl))

-- The task has published its output and returned.
abbrev pub after_task : Running world
after_task = (task, finished shown)

-- The program has returned after the signal.
abbrev returned_program : System world
returned_program = record {
  driver = polling;
  queue = [];
  engine = record {
    phase = returned;
    tasks = [];
    received = message ∷ [];
    reaped = task ∷ [];
    abandoned = [];
  };
  running = [];
  main = exited;
  forwarded = message ∷ [];
  joined = after_task ∷ [];
  aborted = [];
}

works :
    (r r' : Relay.Relay Fifo Text)
    → Relay.Step Fifo Text printing message r r'
    → Reach world (record taken_in { running = (task, r) ∷ [] })
    → Reach world (record taken_in { running = (task, r') ∷ [] })
works r r' x h = next h (step (λ e. cc e) (Action.work [] [] task r r' refl x))

worked-Reach : Reach world (record taken_in { running = after_task ∷ [] })
unfolding Relay.start erased erase_act utf8_decoder utf8 from_utf8 validate char_width
    publish_decoded publish publish_resolved resolve after_join
worked-Reach =
    works _ _ (finish accepting refl)
      (works _ _ (pull accepting refl) (works _ _ (push refl) taken_in-Reach))

returned_program-Reach : Reach world returned_program
returned_program-Reach =
    next
      (next
        (next
          (next
            (next worked-Reach (
              step (λ e. cc e)
                (Action.join [] [] task (finished shown) [] (λ e. cc e) refl tt
                  ([], [], refl, refl))))
            (step (λ e. cc e) (Action.ctrl_c refl)))
          (step (λ e. cc e) (Action.cancelled refl refl)))
        (step (λ e. cc e) (Action.drained refl refl)))
      (step (λ e. cc e) (Action.exit refl refl))

program-IsDelivered_example :
    IsDelivered (launched platform world started) returned_program
    × (0 ≤ started.max_concurrent_decodes)
    × (0 < started.max_concurrent_decodes)
program-IsDelivered_example =
    program-IsDelivered platform world (codes "rosetta.toml") started templates-KeepsTemplates
      startup_run returned_program-Reach

Reach-IsCaused_example : IsCaused world returned_program
Reach-IsCaused_example = Reach-IsCaused world returned_program-Reach (λ e. cc e)

exited-accounted_example :
    (returned_program.engine.phase ≡ returned)
    × (returned_program.running ≡ [])
    × Perm (task ∷ []) (accepted_all broker started.registry (message ∷ []))
exited-accounted_example = exited-accounted world returned_program-Reach refl

program-no_loop_example :
    handle_incoming TaskList broker
      (some (packet (codes "a/b/decoded") (codes "hi")))
      started.registry
      []
    ≡ (proceed, [])
program-no_loop_example =
    program-no_loop platform world (codes "rosetta.toml") started templates-KeepsTemplates
      startup_run returned_program-Reach after_task output
      (packet (codes "a/b/decoded") (codes "hi")) [] here here refl
