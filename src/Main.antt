-- ===== src/Main.antt =====
-- src/main.rs: what `main` does before the engine runs. Parsing the command line and the log are not
-- modelled; the program that runs from there on is in System.
pub mod Startup
pub mod Faults
pub mod Ready
pub mod NoPanic
pub mod System
pub mod Requests
pub mod Output
pub mod Failure
pub mod Program
use rosetta_mq.Prelude.{
  ℕ, Bool, Option, none, some, List, [], ◌∷◌, map, Result, ok, err, ◌>>=◌, map_err, ok_or,
}
use rosetta_mq.Text.{Text, codes}
use rosetta_mq.Util.{FilePath, parent, parent_or}
use rosetta_mq.Mqtt.{QoS}
use rosetta_mq.Topic
use rosetta_mq.Topic.{TopicError, TopicFilter}
use rosetta_mq.Decoder.{ErasedDecoder}
use rosetta_mq.Decoder.Config
use rosetta_mq.Decoder.Config.{DecoderConfig, Libraries, BuildDecoderError}
use rosetta_mq.Decoder.Registry
use rosetta_mq.Decoder.Registry.{DecoderRegistry, DecoderRegistryBuilder, RegistryError, register}
use rosetta_mq.Auth
use rosetta_mq.Auth.{Host, AuthConfig, AuthError, ResolvedAuth, none_auth}
use rosetta_mq.Config.{
  Config, ConfigError, ConnectionConfig, RefOr, TopicMapping, Toml, resolve, load,
}
use rosetta_mq.Client.{MqttLibrary, build_options}
use rosetta_mq.Client.Tls.{Rustls, ClientInitError}
use rosetta_mq.Client.Driver.{subscribe_all}

-- The libraries and the system that `main` runs on. `subscribe` is the client's answer to one call.
pub record Platform : Type 1 where
  pub host : Host
  pub toml : Toml
  pub libraries : Libraries
  pub rustls : Rustls
  pub mqtt : MqttLibrary rustls.ClientConfig
  pub SubscribeError : Type 0
  pub read_to_string : FilePath → Result Text host.IoError
  pub subscribe : mqtt.MqttOptions → Text → QoS → Result (Unit {0}) SubscribeError

-- What `main` stops with, by its context; `panicked` is the `expect` of a reference that the
-- validation lets through only if it resolves.
pub data StartError (s : Platform) : Type 0 where
  loading : ConfigError s.host s.toml → StartError s
  panicked : Text → StartError s
  building : Text → BuildDecoderError s.libraries → StartError s
  invalid_filter : Text → TopicError → StartError s
  registering : Text → RegistryError → StartError s
  resolving_auth : AuthError s.host → StartError s
  connecting : ClientInitError s.rustls → StartError s
  subscribing : s.SubscribeError → StartError s

-- What the engine is started with.
pub record Started (s : Platform) : Type 0 where
  pub registry : DecoderRegistry ErasedDecoder
  pub options : s.mqtt.MqttOptions
  pub subscribed : List (Text × QoS)
  pub max_concurrent_decodes : ℕ

module _ (s : Platform) where
  -- The rest of the loop body, once there is a reference.
  unfoldable pub add_decoder :
      FilePath
      → List (Text × DecoderConfig)
      → DecoderRegistryBuilder ErasedDecoder
      → Text
      → RefOr DecoderConfig
      → Result (DecoderRegistryBuilder ErasedDecoder) (StartError s)
  add_decoder base_dir decoders builder topic_filter decoder_ref = do
    decoder_config ←
        ok_or (panicked (codes "decoder reference validated at config load"))
          (resolve decoder_ref decoders)
    decoder ← map_err (building topic_filter) (Config.build s.libraries decoder_config base_dir)
    filter ← map_err (invalid_filter topic_filter) (Topic.parse topic_filter)
    map_err (registering topic_filter) (register builder filter decoder)

  unfoldable pub add_mapping :
      FilePath
      → List (Text × DecoderConfig)
      → DecoderRegistryBuilder ErasedDecoder
      → TopicMapping
      → Result (DecoderRegistryBuilder ErasedDecoder) (StartError s)
  unfolding add_decoder
  add_mapping base_dir decoders builder mapping = elim mapping.decoder [
    | none ↦ ok builder
    | some decoder_ref ↦ add_decoder base_dir decoders builder mapping.topic_filter decoder_ref
  ]

  -- The loop over `config.topics`.
  unfoldable pub add_mappings :
      FilePath
      → List (Text × DecoderConfig)
      → DecoderRegistryBuilder ErasedDecoder
      → List TopicMapping
      → Result (DecoderRegistryBuilder ErasedDecoder) (StartError s)
  unfolding add_mapping
  add_mappings base_dir decoders builder [] = ok builder
  add_mappings base_dir decoders builder (m ∷ ms) = do
    builder' ← add_mapping base_dir decoders builder m
    add_mappings base_dir decoders builder' ms

  unfoldable pub resolve_auth : FilePath → Option AuthConfig → Result ResolvedAuth (StartError s)
  resolve_auth base_dir none = ok none_auth
  resolve_auth base_dir (some cfg) = map_err resolving_auth (Auth.build s.host cfg base_dir)

  unfoldable pub startup : FilePath → Result (Started s) (StartError s)
  unfolding add_mappings resolve_auth
  startup config_path = do
    config ← map_err loading (load s.host s.toml s.read_to_string config_path)
    let base_dir = parent_or (codes ".") config_path
    builder ← add_mappings base_dir config.decoders Registry.new config.topics
    let registry = Registry.build builder
    auth ← resolve_auth base_dir config.connection.auth
    options ← map_err connecting (build_options s.rustls s.mqtt config.connection auth)
    let (subscribed, result) =
        subscribe_all (s.subscribe options)
          (map (λ (m : TopicMapping). m.topic_filter) config.topics)
    _ ← map_err subscribing result
    ok (record {
      registry = registry;
      options = options;
      subscribed = subscribed;
      max_concurrent_decodes = config.engine.max_concurrent_decodes;
    })
