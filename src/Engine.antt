-- ===== src/Engine.antt =====
-- src/engine.rs: what is done with one incoming message, and the messages of a failed decode. The
-- task that relays a decoder's messages is in `Engine/Relay`, the loop of `run` in `Engine/Loop`.
pub mod Incoming
pub mod Relay
pub mod Loop
use rosetta_mq.Prelude.{
  ℕ, ◌≡◌, Bool, ◌||◌, Option, none, some, List, [], ◌∷◌, ◌++◌, Result, ok, err, length,
  if◌then◌else◌,
}
use rosetta_mq.Text.{Text, codes, ends_with}
use rosetta_mq.Mqtt.{QoS, Publish}
use rosetta_mq.Decoder.{
  DecodePublish, SendError, DecodeError, chanel, decode, BoxedDecodeError, ErasedDecoder,
  ResolvedDecodePublish, resolve, Client, publish, decoded_suffix,
}
use rosetta_mq.Decoder.Registry
use rosetta_mq.Decoder.Registry.{DecoderRegistry}

abbrev pub decode_channel_capacity : ℕ
decode_channel_capacity = 8

abbrev pub default_max_concurrent_decodes : ℕ
default_max_concurrent_decodes = 100

abbrev pub shutdown_drain_timeout_secs : ℕ
shutdown_drain_timeout_secs = 5

pub record EngineConfig : Type 0 where
  pub max_concurrent_decodes : ℕ

-- `impl Default for EngineConfig`.
abbrev pub default_engine_config : EngineConfig
default_engine_config = record { max_concurrent_decodes = default_max_concurrent_decodes }

abbrev pub decode_error_suffix : Text
decode_error_suffix = codes "/decode_error"

-- One running `decode_and_publish`: the decoder, and the message that it decodes.
pub record Task : Type 0 where
  pub decoder : ErasedDecoder
  pub message : Publish

-- The runtime's set of spawned tasks. `Joins s t s'` says that `join_next` may report the end of `t`
-- in `s` and leave `s'`; it reports a task that the set holds, and removes that one, and it may
-- report any.
pub record JoinSet : Type 1 where
  pub Tasks : Type 0
  pub held : Tasks → List Task
  pub new : Tasks
  pub held_new : held new ≡ []
  pub spawn : Tasks → Task → Tasks
  pub held_spawn : (s : Tasks) (t : Task) → held (spawn s t) ≡ held s ++ t ∷ []
  pub len : Tasks → ℕ
  pub len_held : (s : Tasks) → len s ≡ length (held s)
  pub Joins : Tasks → Task → Tasks → Type 0
  pub joins_removes :
      (s s' : Tasks) (t : Task)
      → Joins s t s'
      → (before : List Task) × (after : List Task) × (held s ≡ before ++ t ∷ after)
        × (held s' ≡ before ++ after)
  pub joins_held :
      (s : Tasks) (t : Task) (before after : List Task)
      → held s ≡ before ++ t ∷ after
      → (s' : Tasks) × Joins s t s'

pub data ControlFlow : Type 0 where
  proceed break : ControlFlow

-- A topic that the engine publishes on itself.
unfoldable pub is_own_output : Text → Bool
unfolding ends_with
is_own_output topic = ends_with topic decoded_suffix || ends_with topic decode_error_suffix

module _ (j : JoinSet) where
  spawn_found : Option ErasedDecoder → Publish → j.Tasks → j.Tasks
  spawn_found none message tasks = tasks
  spawn_found (some decoder) message tasks =
      j.spawn tasks (record { decoder = decoder; message = message })

  unfoldable pub handle_incoming :
      (Text → Text → Bool)
      → Option Publish
      → DecoderRegistry ErasedDecoder
      → j.Tasks
      → ControlFlow × j.Tasks
  unfolding is_own_output spawn_found
  handle_incoming matches none registry tasks = (break, tasks)
  handle_incoming matches (some message) registry tasks =
      if is_own_output message.topic
      then (proceed, tasks)
      else (proceed, spawn_found (Registry.resolve matches registry message.topic) message tasks)

-- What the program shows of the outside: its calls of the client, and its log of failed ones.
pub data Effect (ClientError : Type 0) : Type 0 where
  called : ResolvedDecodePublish → Effect ClientError
  publish_failed : Text → ClientError → Effect ClientError

module _ {ClientError : Type 0} where
  abbrev pub log_failed : Text → Result (Unit {0}) ClientError → List (Effect ClientError)
  log_failed topic (ok _) = []
  log_failed topic (err e) = publish_failed topic e ∷ []

  -- The helper `publish`: one call of the client; a failure is logged and goes no further.
  unfoldable pub publish_decoded :
      Client ClientError → DecodePublish → Publish → List (Effect ClientError)
  unfolding publish resolve
  publish_decoded client decoded incoming =
      called (resolve decoded incoming)
      ∷ log_failed incoming.topic (publish client decoded incoming)

  -- The calls alone.
  abbrev pub calls : List (Effect ClientError) → List ResolvedDecodePublish
  calls [] = []
  calls (called r ∷ es) = r ∷ calls es
  calls (publish_failed _ _ ∷ es) = calls es

-- What the engine reads of other libraries: the `hex` library's `encode`, and the text of the
-- channel's send error.
pub record Printing : Type 0 where
  pub hex_encode : List ℕ → Text
  pub show_send_error : SendError → Text

-- `Display` of a decode error, which is that of its content.
unfoldable pub show_decode_error : Printing → DecodeError BoxedDecodeError → Text
show_decode_error p (chanel e) = p.show_send_error e
show_decode_error p (decode e) = e.message

-- The message about a failed decode.
unfoldable pub error_publish : Printing → DecodeError BoxedDecodeError → Publish → DecodePublish
unfolding show_decode_error
error_publish p e message = record {
  topic = some (message.topic ++ decode_error_suffix);
  qos = none;
  retain = none;
  payload =
      codes "error: "
      ++ show_decode_error p e
      ++ codes "\nraw_hex: "
      ++ p.hex_encode message.payload;
}
