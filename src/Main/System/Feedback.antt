-- ===== src/Main/System/Feedback.antt =====
-- The skip of own topics in `handle_incoming` of src/engine.rs, in the running program.
use rosetta_mq.Prelude.{◌≡◌, some, ◌++◌, All, All-append, All-at, In}
use rosetta_mq.Mqtt.{Publish}
use rosetta_mq.Decoder.{ResolvedDecodePublish}
use rosetta_mq.Engine.{proceed, handle_incoming}
use rosetta_mq.Engine.Loop.Feedback.{published}
use rosetta_mq.Main.Startup.{HasSingleDecoder}
use rosetta_mq.Main.Output.{no_loop}
use rosetta_mq.Main.System.{World, System, Running, Reach}
use rosetta_mq.Main.System.Runs.{IsRun, Reach-HasRuns}

module _ (w : World) where
  all-IsRun : {s : System w} → Reach w s → All (IsRun w) (s.running ++ s.joined ++ s.aborted)
  all-IsRun {s} h =
      let runs = Reach-HasRuns w h in
      All-append (IsRun w) (s.running ++ s.joined) _
        (All-append (IsRun w) s.running _ runs.under_way runs.reported) runs.stopped

  -- No message that a decode task has published, be the task under way, ended or stopped, starts a
  -- task when it comes back from the broker. Each registered decoder must always emit one message or
  -- fail.
  pub Reach-no_loop :
      {s : System w}
      → All HasSingleDecoder w.registry.entries
      → Reach w s
      → (run : Running w) (r : ResolvedDecodePublish) (back : Publish) (tasks : w.join_set.Tasks)
      → In run (s.running ++ s.joined ++ s.aborted)
      → In r (published w.printing w.outbox w.ClientError run.1)
      → back.topic ≡ r.topic
      → handle_incoming w.join_set w.matches (some back) w.registry tasks ≡ (proceed, tasks)
  Reach-no_loop single h run r back tasks i =
      let is = All-at (IsRun w) _ (all-IsRun h) i in
      no_loop w.printing w.outbox w.ClientError w.matches w.registry run.0.message run.0.decoder
        single is.found w.join_set is.count run.1 back r tasks is.steps
