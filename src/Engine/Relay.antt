-- ===== src/Engine/Relay.antt =====
-- `decode_and_publish` of src/engine.rs: the decoder and the loop that publishes what it emits run
-- side by side, with a bounded channel between them, in any interleaving.
pub mod Outcome
pub mod Progress
use rosetta_mq.Prelude.{
  ℕ, zero, suc, ◌≡◌, ◌≤◌, Option, none, some, List, [], ◌∷◌, ◌++◌, Result, ok, err, length,
}
use rosetta_mq.Text.{Text}
use rosetta_mq.Runtime.{Channel}
use rosetta_mq.Mqtt.{Publish}
use rosetta_mq.Decoder.{
  DecodePublish, DecodeError, BoxedDecodeError, Act, done, panic, send, Client, ErasedDecoder,
}
use rosetta_mq.Engine.{decode_channel_capacity, Effect, publish_decoded, Printing, error_publish}

module _ (ch : Channel DecodePublish decode_channel_capacity) (ClientError : Type 0) where
  -- Both sides under way, the task at its end, or ended by a panic of the decoder.
  pub data Relay : Type 0 where
    joining : Act BoxedDecodeError → ch.Queue → List (Effect ClientError) → Relay
    finished : List (Effect ClientError) → Relay
    panicked : List (Effect ClientError) → Relay

  -- What follows the join: an error is published, and a success is not.
  unfoldable pub after_join :
      Printing
      → Client ClientError
      → Publish
      → Result (Unit {0}) (DecodeError BoxedDecodeError)
      → List (Effect ClientError)
  unfolding publish_decoded error_publish
  after_join p client message (ok _) = []
  after_join p client message (err e) = publish_decoded client (error_publish p e message) message

  unfoldable pub start : ErasedDecoder → Publish → Relay
  start decoder message = joining (decoder.run message) ch.empty []

  module _ (p : Printing) (message : Publish) where
    -- One step of either side. The receiver is never dropped while the decoder runs, so a send
    -- succeeds once there is room. The client may answer each call as it likes.
    pub data Step : Relay → Relay → Type 0 where
      push :
          {m : DecodePublish} {k : Result (Unit {0}) _ → Act BoxedDecodeError} {q q' : ch.Queue}
          {out : List (Effect ClientError)}
          → ch.offer q m ≡ some q'
          → Step (joining (send m k) q out) (joining (k (ok tt)) q' out)
      pull :
          {a : Act BoxedDecodeError} {m : DecodePublish} {q q' : ch.Queue}
          {out : List (Effect ClientError)} (client : Client ClientError)
          → ch.poll q ≡ some (m, q')
          → Step (joining a q out) (joining a q' (out ++ publish_decoded client m message))
      finish :
          {r : Result (Unit {0}) (DecodeError BoxedDecodeError)} {q : ch.Queue}
          {out : List (Effect ClientError)} (client : Client ClientError)
          → ch.poll q ≡ none
          → Step (joining (done r) q out) (finished (out ++ after_join p client message r))
      crash :
          {why : Text} {q : ch.Queue} {out : List (Effect ClientError)}
          → Step (joining (panic why) q out) (panicked out)

    -- A number of steps.
    pub data Steps : ℕ → Relay → Relay → Type 0 where
      stay : {r : Relay} → Steps zero r r
      step : {n : ℕ} {r s t : Relay} → Step r s → Steps n s t → Steps (suc n) r t
