-- ===== src/Engine/Loop/Shutdown.antt =====
-- `run` of src/engine.rs after its loop: the bounded wait of `drain`, and the return.
use rosetta_mq.Prelude.{ℕ, zero, suc, ◌≤◌, ◌≡◌, refl, ◌∙◌, ◌⊎◌, inl, inr, Bool, arith}
use rosetta_mq.Text.{Text}
use rosetta_mq.Decoder.{ErasedDecoder}
use rosetta_mq.Decoder.Registry.{DecoderRegistry}
use rosetta_mq.Engine.{JoinSet}
use rosetta_mq.Engine.Loop.{
  draining, returned, Engine, Step, receive, reap, shutdown, drain, drained, timed_out,
}
use rosetta_mq.Engine.Loop.Bounds.{len-join}

module _ (j : JoinSet) (matches : Text → Text → Bool) (registry : DecoderRegistry ErasedDecoder)
    (max : ℕ) where
  -- A number of steps.
  pub data Runs : ℕ → Engine j → Engine j → Type 0 where
    rest : {e : Engine j} → Runs zero e e
    run :
        {n : ℕ} {e f g : Engine j} → Step j matches registry max e f → Runs n f g → Runs (suc n) e g

  -- What one step of the wait does.
  abbrev Waited : Engine j → Engine j → Type 0
  Waited e f =
      (f.received ≡ e.received)
      × (((f.phase ≡ draining) × (j.len e.tasks ≡ suc (j.len f.tasks))) ⊎ (f.phase ≡ returned))

  Step-Waited : {e f : Engine j} → e.phase ≡ draining → Step j matches registry max e f → Waited e f
  Step-Waited d (receive m looks room) = cc
  Step-Waited d (reap t s' looks x) = cc
  Step-Waited d (shutdown looks) = cc
  Step-Waited {e = e} d (drain t s' waits x) =
      (refl, inl (d, len-join j matches registry e.tasks s' t x))
  Step-Waited d (drained waits left) = (refl, inr refl)
  Step-Waited d (timed_out waits) = (refl, inr refl)

  returned-ne-Step : {e f : Engine j} → e.phase ≡ returned → Step j matches registry max e f → ⊥
  returned-ne-Step d (receive m looks room) = cc
  returned-ne-Step d (reap t s' looks x) = cc
  returned-ne-Step d (shutdown looks) = cc
  returned-ne-Step d (drain t s' waits x) = cc
  returned-ne-Step d (drained waits left) = cc
  returned-ne-Step d (timed_out waits) = cc

  Runs-returned :
      {n : ℕ} {e f : Engine j}
      → e.phase ≡ returned
      → Runs n e f
      → (n ≡ 0) × (f.received ≡ e.received)
  Runs-returned d rest = (refl, refl)
  Runs-returned d (run x xs) = absurd (returned-ne-Step d x)

  -- Once the loop has ended, the engine takes no more messages in, and it makes at most one step for
  -- each task in flight and one to return.
  pub Runs-draining :
      (n : ℕ) (e f : Engine j)
      → e.phase ≡ draining
      → Runs n e f
      → (n ≤ suc (j.len e.tasks)) × (f.received ≡ e.received)
  Runs-draining n e f d rest = (omega arith, refl)
  Runs-draining (suc n) e f d (run {f = g} x xs) =
      let (same, end) = Step-Waited d x in
      elim end [
        | inl (d', less) ↦
            let (bound, kept) = Runs-draining n g f d' xs in
            (omega (arith, bound, less), kept ∙ same)
        | inr over ↦
            let (stopped, kept) = Runs-returned over xs in (omega (arith, stopped), kept ∙ same)
      ]
