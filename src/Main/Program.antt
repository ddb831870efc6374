-- ===== src/Main/Program.antt =====
-- src/main.rs as a whole: the start, and the running program with what the start prepared.
use rosetta_mq.Prelude.{◌≤◌, ◌<◌, ◌≡◌, ◌++◌, ok, some, In}
use rosetta_mq.Mqtt.{Publish}
use rosetta_mq.Decoder.{ResolvedDecodePublish}
use rosetta_mq.Engine.{proceed, handle_incoming}
use rosetta_mq.Engine.Loop.Feedback.{published}
use rosetta_mq.Util.{FilePath}
use rosetta_mq.Decoder.Behaviour.{KeepsTemplates}
use rosetta_mq.Engine.Loop.Bounds.{Reach-len}
use rosetta_mq.Main.{Platform, Started, startup}
use rosetta_mq.Main.Ready.{startup-IsStarted}
use rosetta_mq.Main.System.{World, System, Running, Reach}
use rosetta_mq.Main.System.Feedback.{Reach-no_loop}
use rosetta_mq.Main.System.Refines.{engine-Reach}
use rosetta_mq.Main.System.Outputs.{IsDelivered, Reach-IsDelivered}

module _ (s : Platform) (w : World) where
  -- The engine is spawned with the registry and the limit of the start.
  abbrev pub launched : Started s → World
  launched st = record w {
    registry = st.registry;
    max_concurrent_decodes = st.max_concurrent_decodes;
  }

  -- If the start of `main` succeeds, then in every state that the program reaches afterwards the
  -- packets that the driver forwarded are taken in, in their order, or in the channel, which holds a
  -- hundred at most; the decode tasks that have ended, those in flight and those abandoned at a
  -- timed-out shutdown are together exactly the tasks of the accepted packets, each once; each that
  -- has ended has published exactly one message, with the payload that its decoder emits for its
  -- packet, or with the text of the error with which its decoder fails and the packet's payload in
  -- hexadecimal;
  -- and no more tasks are in flight than the configuration allows, which is one at least. The
  -- template engine must find the template that it was given.
  pub program-IsDelivered :
      (config_path : FilePath) (st : Started s)
      → KeepsTemplates s.libraries.engine
      → startup s config_path ≡ ok st
      → {t : System (launched st)} → Reach (launched st) t
      → IsDelivered (launched st) t
        × (w.join_set.len t.engine.tasks ≤ st.max_concurrent_decodes)
        × (0 < st.max_concurrent_decodes)
  program-IsDelivered config_path st keeps e r =
      let started = (startup-IsStarted s config_path st keeps e).2 in
      (
        Reach-IsDelivered (launched st) started.single r,
        Reach-len w.join_set w.matches st.registry st.max_concurrent_decodes
            (engine-Reach (launched st) r),
        started.has_room,
      )

  -- If the start of `main` succeeds, then in every state that the program reaches afterwards no
  -- message that a decode task has published, be the task under way, ended or stopped, starts a task
  -- when it comes back from the broker: it is skipped and the set of tasks stays as it is. The
  -- template engine must find the template that it was given.
  pub program-no_loop :
      (config_path : FilePath) (st : Started s)
      → KeepsTemplates s.libraries.engine
      → startup s config_path ≡ ok st
      → {t : System (launched st)} → Reach (launched st) t
      → (run : Running (launched st)) (r : ResolvedDecodePublish) (back : Publish)
        (tasks : w.join_set.Tasks)
      → In run (t.running ++ t.joined ++ t.aborted)
      → In r (published w.printing w.outbox w.ClientError run.1)
      → back.topic ≡ r.topic
      → handle_incoming w.join_set w.matches (some back) st.registry tasks ≡ (proceed, tasks)
  program-no_loop config_path st keeps e =
      Reach-no_loop (launched st) (startup-IsStarted s config_path st keeps e).2.single
