-- ===== src/Engine/Incoming.antt =====
-- `handle_incoming` of src/engine.rs: which messages get a task.
use rosetta_mq.Prelude.{
  ◌≡◌, refl, ◌≤◌, sym, Bool, Option, none, some, List, [], ◌∷◌, ◌++◌, append-nil, length,
  if◌then◌else◌, arith, Bool-cases, inl, inr,
}
use rosetta_mq.Text.{Text}
use rosetta_mq.Mqtt.{Publish}
use rosetta_mq.Decoder.{ErasedDecoder}
use rosetta_mq.Decoder.Registry
use rosetta_mq.Decoder.Registry.{DecoderRegistry}
use rosetta_mq.Engine.{JoinSet, Task, proceed, break, is_own_output, spawn_found, handle_incoming}

module _ (matches : Text → Text → Bool) (registry : DecoderRegistry ErasedDecoder) where
  abbrev task_for : Option ErasedDecoder → Publish → List Task
  task_for none m = []
  task_for (some d) m = (record { decoder = d; message = m }) ∷ []

  -- The task for a message: none for an output of the engine and where no filter matches.
  unfoldable pub accepted : Publish → List Task
  accepted m =
      if is_own_output m.topic then [] else task_for (Registry.resolve matches registry m.topic) m

  unfoldable pub accepted_all : List Publish → List Task
  accepted_all [] = []
  accepted_all (m ∷ ms) = accepted m ++ accepted_all ms

  pub length-accepted : (m : Publish) → length (accepted m) ≤ 1
  unfolding accepted
  length-accepted m = ground arith

  held-spawn_found :
      (j : JoinSet) (o : Option ErasedDecoder) (m : Publish) (tasks : j.Tasks)
      → j.held (spawn_found j o m tasks) ≡ j.held tasks ++ task_for o m
  unfolding spawn_found
  held-spawn_found j none m tasks = sym (append-nil _)
  held-spawn_found j (some d) m tasks = j.held_spawn tasks _

  -- A message that arrives keeps the loop going and adds its task, if it has one, behind those that
  -- run; the end of the channel stops the loop and leaves the tasks alone.
  pub handle_incoming_lem :
      (j : JoinSet) (m : Publish) (tasks : j.Tasks)
      → ((handle_incoming j matches (some m) registry tasks).0 ≡ proceed)
        × (j.held (handle_incoming j matches (some m) registry tasks).1
            ≡ j.held tasks ++ accepted m)
        × (handle_incoming j matches none registry tasks ≡ (break, tasks))
  handle_incoming_lem j m tasks = elim (Bool-cases (is_own_output m.topic)) [
    | inl own ↦ (
      unfold handle_incoming in rw own,
      unfold handle_incoming accepted in rw own (sym (append-nil _)),
      unfold handle_incoming in refl,
    )
    | inr other ↦ (
      unfold handle_incoming in rw other,
      unfold handle_incoming accepted in
          rw other (held-spawn_found j (Registry.resolve matches registry m.topic) m tasks),
      unfold handle_incoming in refl,
    )
  ]
