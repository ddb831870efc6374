-- ===== src/Engine/Loop.antt =====
-- `run` and `drain` of src/engine.rs: the loop that takes messages in, up to a number of tasks at
-- once, and the bounded wait at its end.
pub mod Bounds
pub mod Account
pub mod Feedback
pub mod Shutdown
use rosetta_mq.Prelude.{ℕ, zero, suc, ◌≡◌, ◌<◌, Option, none, some, List, [], ◌∷◌, ◌++◌, Bool}
use rosetta_mq.Text.{Text}
use rosetta_mq.Mqtt.{Publish}
use rosetta_mq.Decoder.{ErasedDecoder}
use rosetta_mq.Decoder.Registry.{DecoderRegistry}
use rosetta_mq.Engine.{JoinSet, Task, ControlFlow, proceed, break, handle_incoming}

-- In the loop; past it, waiting for the tasks; returned.
pub data Phase : Type 0 where
  looping draining returned : Phase

abbrev pub after_message : ControlFlow → Phase
after_message proceed = looping
after_message break = draining

module _ (j : JoinSet) where
  -- `received`, `reaped` and `abandoned` are a record for the proofs: the messages taken in, the
  -- tasks whose end was reported, and those dropped at the return.
  pub record Engine : Type 0 where
    pub phase : Phase
    pub tasks : j.Tasks
    pub received : List Publish
    pub reaped : List Task
    pub abandoned : List Task

  unfoldable pub start : Engine
  start = record { phase = looping; tasks = j.new; received = []; reaped = []; abandoned = [] }

  abbrev note_message : Option Publish → List Publish → List Publish
  note_message none ms = ms
  note_message (some m) ms = ms ++ m ∷ []

  module _ (matches : Text → Text → Bool) (registry : DecoderRegistry ErasedDecoder) where
    -- The body of the first branch of `select!`.
    unfoldable pub take_in : Engine → Option Publish → Engine
    unfolding handle_incoming
    take_in e message =
        let (flow, tasks') = handle_incoming j matches message registry e.tasks in
        record e {
          phase = after_message flow;
          tasks = tasks';
          received = note_message message e.received;
        }

    -- The runtime chooses among the branches of `select!` that are open, and, past the loop,
    -- whether the tasks end before the timeout.
    pub data Step (max_concurrent_decodes : ℕ) (e : Engine) : Engine → Type 0 where
      receive :
          (message : Option Publish)
          → e.phase ≡ looping
          → j.len e.tasks < max_concurrent_decodes
          → Step max_concurrent_decodes e (take_in e message)
      reap :
          (t : Task) (tasks' : j.Tasks)
          → e.phase ≡ looping
          → j.Joins e.tasks t tasks'
          → Step max_concurrent_decodes e (record e { tasks = tasks'; reaped = e.reaped ++ t ∷ [] })
      shutdown : e.phase ≡ looping → Step max_concurrent_decodes e (record e { phase = draining })
      drain :
          (t : Task) (tasks' : j.Tasks)
          → e.phase ≡ draining
          → j.Joins e.tasks t tasks'
          → Step max_concurrent_decodes e (record e { tasks = tasks'; reaped = e.reaped ++ t ∷ [] })
      drained :
          e.phase ≡ draining
          → j.held e.tasks ≡ []
          → Step max_concurrent_decodes e (record e { phase = returned })
      -- What is left in the set is aborted when it is dropped.
      timed_out :
          e.phase ≡ draining
          → Step max_concurrent_decodes e
              (record e { phase = returned; tasks = j.new; abandoned = j.held e.tasks })

    pub data Reach (max_concurrent_decodes : ℕ) : Engine → Type 0 where
      begin : Reach max_concurrent_decodes start
      next :
          {e f : Engine}
          → Reach max_concurrent_decodes e
          → Step max_concurrent_decodes e f
          → Reach max_concurrent_decodes f
