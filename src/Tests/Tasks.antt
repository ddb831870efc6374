-- ===== src/Tests/Tasks.antt =====
-- Tests of the engine.
use rosetta_mq.Prelude.{
  ◌≡◌, refl, ◌≢◌, ◌≤◌, false, none, some, List, [], ◌∷◌, ok, All, filter, arith,
}
use rosetta_mq.Text.{Text, codes, split}
use rosetta_mq.Mqtt.{Publish}
use rosetta_mq.Topic.Covers.{covers}
use rosetta_mq.Decoder.{
  ResolvedDecodePublish, resolve, ErasedDecoder, erased, erase_act, publish, publish_resolved,
}
use rosetta_mq.Decoder.Config.{DecoderConfig, build}
use rosetta_mq.Decoder.Utf8.{utf8, utf8_decoder, from_utf8, validate, char_width}
use rosetta_mq.Decoder.Emits.{outcome}
use rosetta_mq.Decoder.Registry
use rosetta_mq.Decoder.Registry.{RegistryEntry, DecoderRegistry, max_by_filter, max_from}
use rosetta_mq.Decoder.Behaviour.{build-AlwaysSingle}
use rosetta_mq.Engine.{Effect, called, calls, publish_decoded}
use rosetta_mq.Engine.Relay.{finished, start, push, pull, finish, Steps, stay, step, after_join}
use rosetta_mq.Engine.Relay.Outcome.{relay_calls, relay_refines}
use rosetta_mq.Engine.Loop
use rosetta_mq.Engine.Loop.Shutdown.{Runs, rest, run, Runs-draining}
use rosetta_mq.Engine.Loop.{Engine, draining, returned, Reach, begin, next, take_in}
use rosetta_mq.Engine.Loop.Bounds.{Reach-len}
use rosetta_mq.Engine.Loop.Account.{IsAccounted, Reach-IsAccounted}
use rosetta_mq.Main.Startup.{HasSingleDecoder}
use rosetta_mq.Main.Output.{IsOutput, publishes_once}
use rosetta_mq.Tests.Fixtures.{broker, TaskList, Fifo, printing, accepting, packet}
use rosetta_mq.Tests.Platforms.{libraries, templates-KeepsTemplates}

-- The decoder of text, and a registry that gives it every topic with two segments.
abbrev pub text_decoder : ErasedDecoder
text_decoder = erased (utf8_decoder (λ _. codes "invalid utf-8"))

pub text_decoder_built : build libraries DecoderConfig.utf8 (codes ".") ≡ ok text_decoder
unfolding build
text_decoder_built = refl

abbrev pub registry : DecoderRegistry ErasedDecoder
registry = record {
  entries =
      (record {
        filter = record { raw = codes "a/+"; specificity = 2 ∷ 1 ∷ [] };
        decoder = text_decoder;
      })
      ∷ [];
}

pub registry-HasSingleDecoder : All HasSingleDecoder registry.entries
registry-HasSingleDecoder = (
  build-AlwaysSingle libraries DecoderConfig.utf8 (codes ".") text_decoder templates-KeepsTemplates
      text_decoder_built,
  tt,
)

abbrev pub message : Publish
message = packet (codes "a/b") (codes "hi")

pub message_found : Registry.resolve broker registry (codes "a/b") ≡ some text_decoder
unfolding Registry.resolve broker filter covers split
message_found = refl

abbrev pub output : ResolvedDecodePublish
output = record {
  topic = codes "a/b/decoded";
  qos = message.qos;
  retain = false;
  payload = codes "hi";
}

abbrev pub shown : List (Effect Text)
shown = called output ∷ []

task-Steps :
    Steps Fifo Text printing message 3 (start Fifo Text text_decoder message) (finished shown)
unfolding start erased erase_act utf8_decoder utf8 from_utf8 validate char_width publish_decoded
    publish publish_resolved resolve after_join
task-Steps = step (push refl) (step (pull accepting refl) (step (finish accepting refl) stay))

text_decoder-outcome : outcome (text_decoder.run message) ≢ none
unfolding outcome erased erase_act utf8_decoder utf8 from_utf8 validate char_width
text_decoder-outcome e = cc e

relay_refines_example : calls shown ≡ relay_calls printing message (text_decoder.run message)
relay_refines_example =
    relay_refines printing message Fifo Text text_decoder 3 shown text_decoder-outcome task-Steps

publishes_once_example :
    (r : ResolvedDecodePublish) × (calls shown ≡ r ∷ []) × IsOutput printing text_decoder message r
publishes_once_example =
    publishes_once printing Fifo Text broker registry message text_decoder registry-HasSingleDecoder
      message_found 3 shown task-Steps

-- One message taken in, with room for one task.
taken_in :
    Reach TaskList broker registry 1
      (take_in TaskList broker registry (Loop.start TaskList) (some message))
taken_in =
    next begin
      (Loop.receive (some message) (unfold Loop.start in refl) (unfold Loop.start in omega arith))

Reach-len_example :
    TaskList.len (take_in TaskList broker registry (Loop.start TaskList) (some message)).tasks ≤ 1
Reach-len_example = Reach-len TaskList broker registry 1 taken_in

Reach-IsAccounted_example :
    IsAccounted TaskList broker registry
      (take_in TaskList broker registry (Loop.start TaskList) (some message))
Reach-IsAccounted_example = Reach-IsAccounted TaskList broker registry 1 taken_in

-- The loop has ended with one task in flight, which ends, and the engine returns.
abbrev waiting : Engine TaskList
waiting = record {
  phase = draining;
  tasks = (record { decoder = text_decoder; message = message }) ∷ [];
  received = message ∷ [];
  reaped = [];
  abandoned = [];
}

abbrev stopped : Engine TaskList
stopped = record {
  phase = returned;
  tasks = [];
  received = message ∷ [];
  reaped = (record { decoder = text_decoder; message = message }) ∷ [];
  abandoned = [];
}

waiting-Runs : Runs TaskList broker registry 1 2 waiting stopped
waiting-Runs =
    run
      (Loop.drain (record { decoder = text_decoder; message = message }) [] refl
        ([], [], refl, refl))
      (run (Loop.drained refl refl) rest)

Runs-draining_example : (2 ≤ 2) × (stopped.received ≡ waiting.received)
Runs-draining_example = Runs-draining TaskList broker registry 1 2 waiting stopped refl waiting-Runs
