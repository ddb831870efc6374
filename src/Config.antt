-- ===== src/Config.antt =====
-- src/config.rs: the configuration, its validation and its normal form. What is called of
-- the `toml` library is an interface, `Toml`, which `Config/Read` fills over the values of a document;
-- the file system is `Auth.Host`.
pub mod Validate
pub mod Parse
pub mod Document
pub mod Read
use rosetta_mq.Prelude.{
  ℕ, Bool, true, false, Option, none, some, List, [], ◌∷◌, Result, ok, err, ◌>>=◌, ◌>>◌, map_err,
  ◌==◌, if◌then◌else◌,
}
use rosetta_mq.Text.{Text, codes, text_eq}
use rosetta_mq.Util.{FilePath}
use rosetta_mq.Topic
use rosetta_mq.Topic.{TopicError}
use rosetta_mq.Decoder.Config.{DecoderConfig}
use rosetta_mq.Engine.{EngineConfig}
use rosetta_mq.Protocol.{Protocol, mqtt, ws, normalize}
use rosetta_mq.Auth.{AuthConfig, Host}

-- A name of a shared definition, or the definition.
pub data RefOr (T : Type 0) : Type 0 where
  ref : Text → RefOr T
  literal : T → RefOr T

-- `HashMap::get`, over the entries of the map.
unfoldable pub lookup {ℓ} : {V : Type ℓ} → Text → List (Text × V) → Option V
unfolding text_eq
lookup k [] = none
lookup k ((j, v) ∷ m) = if text_eq j k then some v else lookup k m

-- `HashMap::contains_key`.
unfoldable pub contains_key {ℓ} : {V : Type ℓ} → Text → List (Text × V) → Bool
unfolding lookup
contains_key k m = elim (lookup k m) [ none ↦ false | some _ ↦ true ]

-- `RefOr::resolve`
unfoldable pub resolve : {T : Type 0} → RefOr T → List (Text × T) → Option T
unfolding lookup
resolve (ref s) source = lookup s source
resolve (literal i) source = some i

pub record TopicMapping : Type 0 where
  pub topic_filter : Text
  pub decoder : Option (RefOr DecoderConfig)

-- `ConnectionConfig` of src/client.rs; `port` is a `u16`.
pub record ConnectionConfig : Type 0 where
  pub host : Text
  pub port : ℕ
  pub client_id : Text
  pub auth : Option AuthConfig
  pub tls : Bool
  pub protocol : Protocol
  pub allow_self_signed_certs : Bool

pub record Config : Type 0 where
  pub connection : ConnectionConfig
  pub topics : List TopicMapping
  pub decoders : List (Text × DecoderConfig)
  pub engine : EngineConfig

-- What the source calls of the `toml` library: parsing, the table under a key, writing it back,
-- the keys of a table, and `try_into`.
pub record Toml : Type 1 where
  pub Value : Type 0
  pub Table : Type 0
  pub TomlError : Type 0
  pub from_str : Text → Result Value TomlError
  pub get_table : Value → Text → Option Table
  pub put_table : Value → Text → Table → Value
  pub has_key : Table → Text → Bool
  pub insert_string : Table → Text → Text → Table
  pub try_into : Value → Result Config TomlError

pub data ConfigError (h : Host) (t : Toml) : Type 0 where
  io : FilePath → h.IoError → ConfigError h t
  parse : t.TomlError → ConfigError h t
  invalid_topic_filter : Text → TopicError → ConfigError h t
  invalid_engine_config : ConfigError h t
  unknown_decoder_ref : Text → Text → ConfigError h t

module _ (h : Host) (t : Toml) where
  -- The second half of the loop body of `validate`.
  unfoldable pub check_decoder :
      Text
      → List (Text × DecoderConfig)
      → Option (RefOr DecoderConfig)
      → Result (Unit {0}) (ConfigError h t)
  unfolding contains_key
  check_decoder topic_filter decoders none = ok tt
  check_decoder topic_filter decoders (some (literal _)) = ok tt
  check_decoder topic_filter decoders (some (ref name)) =
      if contains_key name decoders then ok tt else err (unknown_decoder_ref topic_filter name)

  unfoldable pub check_mapping :
      List (Text × DecoderConfig) → TopicMapping → Result (Unit {0}) (ConfigError h t)
  unfolding check_decoder
  check_mapping decoders mapping = do
    _ ← map_err (invalid_topic_filter mapping.topic_filter) (Topic.parse mapping.topic_filter)
    check_decoder mapping.topic_filter decoders mapping.decoder

  -- The loop of `validate`.
  unfoldable pub check_topics :
      List (Text × DecoderConfig) → List TopicMapping → Result (Unit {0}) (ConfigError h t)
  unfolding check_mapping
  check_topics decoders [] = ok tt
  check_topics decoders (m ∷ ms) = do check_mapping decoders m; check_topics decoders ms

  unfoldable pub validate : Config → Result (Unit {0}) (ConfigError h t)
  unfolding check_topics
  validate config = do
    check_topics config.decoders config.topics
    if config.engine.max_concurrent_decodes == 0 then err invalid_engine_config else ok tt

  abbrev normalize_protocol : Protocol → Protocol
  normalize_protocol mqtt = mqtt
  normalize_protocol (ws cfg) = ws (normalize cfg)

  -- `Config::normalize`
  unfoldable pub normalize_config : Config → Config
  unfolding normalize
  normalize_config config = record config {
    connection = record config.connection {
      protocol = normalize_protocol config.connection.protocol;
    };
  }

  -- The injected default of `protocol`: `entry("protocol").or_insert_with(…)` on the connection's
  -- table.
  unfoldable pub inject_protocol : t.Value → t.Value
  inject_protocol value = elim (t.get_table value (codes "connection")) [
    | none ↦ value
    | some connection ↦
        if t.has_key connection (codes "protocol")
        then value
        else t.put_table value (codes "connection")
            (t.insert_string connection (codes "protocol") (codes "mqtt"))
  ]

  -- `Config::parse`
  unfoldable pub parse_config : Text → Result Config (ConfigError h t)
  unfolding inject_protocol validate normalize_config
  parse_config raw = do
    value ← map_err ConfigError.parse (t.from_str raw)
    config ← map_err ConfigError.parse (t.try_into (inject_protocol value))
    validate config
    ok (normalize_config config)

  -- `Config::load`, over `std::fs::read_to_string`.
  unfoldable pub load :
      (FilePath → Result Text h.IoError) → FilePath → Result Config (ConfigError h t)
  unfolding parse_config
  load read_to_string path = do
    raw ← map_err (ConfigError.io path) (read_to_string path)
    parse_config raw
