-- ===== src/Decoder.antt =====
-- src/decoder/mod.rs: what a decoder is, and the messages that it emits.
-- A decoder's asynchronous body is a value of `Act`: it sends messages one after the other, sees the
-- result of each send, and ends with a result. So the channel that it sends to stays outside.
pub mod Emits
pub mod Behaviour
pub mod Decimal
pub mod Hexdump
pub mod Utf8
pub mod Template
pub mod Protobuf
pub mod Config
pub mod Registry
use rosetta_mq.Prelude.{ℕ, Bool, Option, none, some, List, [], ◌++◌, Result, ok, err, map_err}
use rosetta_mq.Text.{Text, codes}
use rosetta_mq.Mqtt.{QoS, Publish}

pub record DecodePublish : Type 0 where
  pub topic : Option Text
  pub qos : Option QoS
  pub retain : Option Bool
  pub payload : List ℕ

-- `DecodePublish { payload, ..Default::default() }`.
abbrev pub with_payload : List ℕ → DecodePublish
with_payload payload = record { topic = none; qos = none; retain = none; payload = payload }

-- The channel's error, which gives the unsent message back.
pub record SendError : Type 0 where
  pub unsent : DecodePublish

pub data DecodeError (E : Type 0) : Type 0 where
  chanel : SendError → DecodeError E
  decode : E → DecodeError E

abbrev pub map_decode : {E F : Type 0} → (E → F) → DecodeError E → DecodeError F
map_decode f (chanel e) = chanel e
map_decode f (decode e) = decode (f e)

-- A boxed error is known by its `Display`, which is all that the program reads of it.
pub record BoxedDecodeError : Type 0 where
  pub message : Text

-- The body of a decoder. A panic ends it with no result.
pub data Act (E : Type 0) : Type 0 where
  done : Result (Unit {0}) (DecodeError E) → Act E
  panic : Text → Act E
  send : DecodePublish → (Result (Unit {0}) SendError → Act E) → Act E

-- `tx.send(message).await?; Ok(())`.
abbrev pub send_last : {E : Type 0} → DecodePublish → Act E
send_last m = send m (λ sent. done (map_err chanel sent))

-- `return Err(DecodeError::Decode(e))`.
abbrev pub fail : {E : Type 0} → E → Act E
fail e = done (err (decode e))

-- `trait Decoder`, with the `Display` of its error type.
pub record Decoder : Type 1 where
  pub Error : Type 0
  pub display : Error → Text
  pub name : Text
  pub run : Publish → Act Error

-- `trait ErasedDecoder`.
pub record ErasedDecoder : Type 0 where
  pub name : Text
  pub run : Publish → Act BoxedDecodeError

-- `DecodeError::erase`.
abbrev pub erase : {E : Type 0} → (E → Text) → DecodeError E → DecodeError BoxedDecodeError
erase display = map_decode (λ e. record { message = display e })

unfoldable pub erase_act : {E : Type 0} → (E → Text) → Act E → Act BoxedDecodeError
erase_act display (done r) = done (map_err (erase display) r)
erase_act display (panic why) = panic why
erase_act display (send m k) = send m (λ sent. erase_act display (k sent))

-- The blanket `impl<T> ErasedDecoder for T`.
unfoldable pub erased : Decoder → ErasedDecoder
unfolding erase_act
erased d = record { name = d.name; run = λ publish. erase_act d.display (d.run publish) }

pub record ResolvedDecodePublish : Type 0 where
  pub topic : Text
  pub qos : QoS
  pub retain : Bool
  pub payload : List ℕ

abbrev pub decoded_suffix : Text
decoded_suffix = codes "/decoded"

-- `Option::unwrap_or`.
abbrev unwrap_or {ℓ} : {A : Type ℓ} → Option A → A → A
unwrap_or none d = d
unwrap_or (some a) d = a

-- `DecodePublish::resolve`.
unfoldable pub resolve : DecodePublish → Publish → ResolvedDecodePublish
resolve m incoming = record {
  topic = unwrap_or m.topic (incoming.topic ++ decoded_suffix);
  qos = unwrap_or m.qos incoming.qos;
  retain = unwrap_or m.retain incoming.retain;
  payload = m.payload;
}

-- What the client answers to one call of its `publish`.
abbrev pub Client : Type 0 → Type 0
Client ClientError = Text → QoS → Bool → List ℕ → Result (Unit {0}) ClientError

module _ {ClientError : Type 0} (client : Client ClientError) where
  -- `ResolvedDecodePublish::publish`.
  unfoldable pub publish_resolved : ResolvedDecodePublish → Result (Unit {0}) ClientError
  publish_resolved r = client r.topic r.qos r.retain r.payload

  -- `DecodePublish::publish`.
  unfoldable pub publish : DecodePublish → Publish → Result (Unit {0}) ClientError
  unfolding publish_resolved resolve
  publish m incoming = publish_resolved (resolve m incoming)
