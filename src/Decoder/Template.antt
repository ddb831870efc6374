-- ===== src/Decoder/Template.antt =====
-- src/decoder/template.rs. The template engine and the JSON parser are a parameter, `Engine`.
use rosetta_mq.Prelude.{ℕ, Bool, List, [], ◌∷◌, ◌++◌, Result, ok, err, ◌>>=◌, map_err}
use rosetta_mq.Text.{Text, codes}
use rosetta_mq.Mqtt.{QoS, Publish}
use rosetta_mq.Decoder.{Act, panic, send_last, fail, with_payload, Decoder}
use rosetta_mq.Decoder.Utf8.{from_utf8}

abbrev pub template_name : Text
template_name = codes "message"

-- `UndefinedBehavior`; the engine's own enum has the same four cases.
pub data UndefinedBehavior : Type 0 where
  lenient chainable semi_strict strict : UndefinedBehavior

-- `#[default]`
abbrev pub default_undefined_behavior : UndefinedBehavior
default_undefined_behavior = strict

pub record TemplateConfig : Type 0 where
  pub template : Text
  pub undefined_behavior : UndefinedBehavior

-- The engine's own cases of undefined behaviour.
pub data EngineUndefined : Type 0 where
  lenient chainable semi_strict strict : EngineUndefined

unfoldable pub to_engine_undefined : UndefinedBehavior → EngineUndefined
to_engine_undefined UndefinedBehavior.lenient = EngineUndefined.lenient
to_engine_undefined UndefinedBehavior.chainable = EngineUndefined.chainable
to_engine_undefined UndefinedBehavior.semi_strict = EngineUndefined.semi_strict
to_engine_undefined UndefinedBehavior.strict = EngineUndefined.strict

-- What the source calls of `minijinja`, `serde_json` and `hex`, with `Debug` of the packet's QoS.
pub record Engine : Type 1 where
  pub Error : Type 0
  pub Environment : Type 0
  pub Template : Type 0
  pub Value : Type 0
  pub Json : Type 0
  pub JsonError : Type 0
  pub new : Environment
  pub set_undefined_behavior : Environment → EngineUndefined → Environment
  pub add_template_owned : Environment → Text → Text → Result Environment Error
  pub get_template : Environment → Text → Result Template Error
  pub render : Template → Value → Result Text Error
  pub context : List (Text × Value) → Value
  pub of_json : Json → Value
  pub of_text : Text → Value
  pub of_bool : Bool → Value
  pub of_number : ℕ → Value
  pub parse_json : Text → Result Json JsonError
  pub hex_encode : List ℕ → Text
  pub debug_qos : QoS → Text
  pub show_error : Error → Text

pub data TemplateDecoderError (g : Engine) : Type 0 where
  parse : g.Error → TemplateDecoderError g
  render : g.Error → TemplateDecoderError g

pub record TemplateDecoder (g : Engine) : Type 0 where
  pub env : g.Environment

module _ (g : Engine) where
  -- `#[error("invalid template syntax: {0}")]` and its sibling.
  unfoldable pub show_template_error : TemplateDecoderError g → Text
  show_template_error (parse e) = codes "invalid template syntax: " ++ g.show_error e
  show_template_error (render e) = codes "template render failed: " ++ g.show_error e

  unfoldable pub from_config : TemplateConfig → Result (TemplateDecoder g) (TemplateDecoderError g)
  unfolding to_engine_undefined
  from_config cfg = do
    let env = g.set_undefined_behavior g.new (to_engine_undefined cfg.undefined_behavior)
    env' ← map_err parse (g.add_template_owned env template_name cfg.template)
    ok (record { env = env' })

  -- The payload as parsed JSON, as text, or as hex, in that order of preference.
  unfoldable pub payload_value : List ℕ → g.Value
  payload_value payload = elim (from_utf8 payload) [
    | ok text ↦ elim (g.parse_json text) [ ok json ↦ g.of_json json | err _ ↦ g.of_text text ]
    | err _ ↦ g.of_text (g.hex_encode payload)
  ]

  -- `context! { … }`
  unfoldable pub packet_context : Publish → g.Value
  packet_context publish = g.context (
      (codes "topic", g.of_text publish.topic)
      ∷ (codes "qos", g.of_text (g.debug_qos publish.qos))
      ∷ (codes "retain", g.of_bool publish.retain)
      ∷ (codes "dup", g.of_bool publish.dup)
      ∷ (codes "pkid", g.of_number publish.pkid)
      ∷ (codes "payload", payload_value publish.payload)
      ∷ [])

  unfoldable pub template_run : TemplateDecoder g → Publish → Act (TemplateDecoderError g)
  template_run d publish = elim (g.get_template d.env template_name) [
    | err _ ↦ panic (codes "registered in from_config")
    | ok template ↦ elim (g.render template (packet_context publish)) [
      | err e ↦ fail (render e)
      | ok rendered ↦ send_last (with_payload rendered)
    ]
  ]

  unfoldable pub template_decoder : TemplateDecoder g → Decoder
  template_decoder d = record {
    Error = TemplateDecoderError g;
    display = show_template_error;
    name = codes "template";
    run = template_run d;
  }
