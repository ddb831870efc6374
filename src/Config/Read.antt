-- ===== src/Config/Read.antt =====
-- The `#[derive(Deserialize)]` of the configuration types in src/config.rs, src/client.rs,
-- src/protocol.rs, src/auth.rs, src/engine.rs and src/decoder/, by their `#[serde(…)]` attributes:
-- the tags, the names, the defaults and the flattened field. A key that no field has is ignored.
pub mod Written
pub mod RoundTrip
pub mod Fields
pub mod Source
use rosetta_mq.Prelude.{
  Bool, true, false, Option, none, some, List, [], ◌∷◌, Result, ok_or, if◌then◌else◌,
}
use rosetta_mq.Text.{Text, codes, text_eq}
use rosetta_mq.Decoder.Protobuf.{ProtobufConfig}
use rosetta_mq.Decoder.Template.{
  UndefinedBehavior, lenient, chainable, semi_strict, strict, default_undefined_behavior,
  TemplateConfig,
}
use rosetta_mq.Decoder.Config.{DecoderConfig}
use rosetta_mq.Engine.{EngineConfig, default_max_concurrent_decodes, default_engine_config}
use rosetta_mq.Protocol.{WebsocketConfig, Protocol, default_path}
use rosetta_mq.Auth.{MtlsConfig, PasswordSource, UserPassConfig, AuthConfig}
use rosetta_mq.Config.{RefOr, ref, literal, TopicMapping, ConnectionConfig, Config, Toml}
use rosetta_mq.Config.Document.{
  Value, Values, Table, string, table, no_entries, entry, ◌>>=◌, ◌or_else◌, get, replace, as_table,
  read_string, read_bool, read_u16, read_usize, required, optional, or_default, read_vec, read_map,
  read_record,
}

-- What the derived code makes of shapes that no configuration is written in: an array in the place
-- of a record, whose fields it reads by position, and a table in the place of a variant's name.
pub record OtherShapes : Type 0 where
  pub undefined_behavior : Table → Option UndefinedBehavior
  pub template : Values → Option TemplateConfig
  pub protobuf : Values → Option ProtobufConfig
  pub decoder : Values → Option DecoderConfig
  pub env : Values → Option Text
  pub auth : Values → Option AuthConfig
  pub engine : Values → Option EngineConfig
  pub topic : Values → Option TopicMapping
  pub config : Values → Option Config

-- The `toml` library: the parser, and the error that it gives for a value that is refused.
pub record Library : Type 1 where
  pub TomlError : Type 0
  pub from_str : Text → Result Value TomlError
  pub refused : Value → TomlError
  pub other : OtherShapes

-- `#[serde(tag = "protocol", rename_all = "lowercase")]`, in the table that it is flattened into.
unfoldable pub read_protocol : Table → Option Protocol
unfolding required or_default text_eq
read_protocol t = do
  protocol ← required read_string t (codes "protocol")
  if text_eq protocol (codes "mqtt")
      then some Protocol.mqtt
      else if text_eq protocol (codes "ws")
      then (do
        path ← or_default read_string default_path t (codes "path")
        some (Protocol.ws (record { path = path })))
      else none

unfoldable pub read_mtls : Table → Option MtlsConfig
unfolding required
read_mtls t = do
  ca_file ← required read_string t (codes "ca_file")
  cert_file ← required read_string t (codes "cert_file")
  key_file ← required read_string t (codes "key_file")
  some (record { ca_file = ca_file; cert_file = cert_file; key_file = key_file })

-- `#[serde(untagged)]`: the variants in their order.
unfoldable pub read_ref_or : {T : Type 0} → (Value → Option T) → Value → Option (RefOr T)
read_ref_or read v =
    (read_string v >>= λ name. some (ref name)) or_else (read v >>= λ given. some (literal given))

module _ (o : OtherShapes) where
  -- `#[serde(rename_all = "snake_case")]`
  unfoldable pub read_undefined_behavior : Value → Option UndefinedBehavior
  unfolding text_eq
  read_undefined_behavior (string s) =
      if text_eq s (codes "lenient")
      then some lenient
      else if text_eq s (codes "chainable")
      then some chainable
      else if text_eq s (codes "semi_strict")
      then some semi_strict
      else if text_eq s (codes "strict")
      then some strict
      else none
  read_undefined_behavior (table t) = o.undefined_behavior t
  read_undefined_behavior _ = none

  unfoldable pub read_template : Table → Option TemplateConfig
  unfolding required or_default read_undefined_behavior
  read_template t = do
    template ← required read_string t (codes "template")
    undefined_behavior ←
        or_default read_undefined_behavior default_undefined_behavior t (codes "undefined_behavior")
    some (record { template = template; undefined_behavior = undefined_behavior })

  unfoldable pub read_protobuf : Table → Option ProtobufConfig
  unfolding required or_default read_vec
  read_protobuf t = do
    proto_file ← required read_string t (codes "proto_file")
    message_type ← required read_string t (codes "message_type")
    include_paths ← or_default (read_vec read_string) [] t (codes "include_paths")
    some (record {
      proto_file = proto_file;
      message_type = message_type;
      include_paths = include_paths;
    })

  -- `#[serde(tag = "decoder")]`
  unfoldable pub read_decoder_table : Table → Option DecoderConfig
  unfolding required read_protobuf read_template text_eq
  read_decoder_table t = do
    decoder ← required read_string t (codes "decoder")
    if text_eq decoder (codes "hexdump")
        then some DecoderConfig.hexdump
        else if text_eq decoder (codes "utf8")
        then some DecoderConfig.utf8
        else if text_eq decoder (codes "protobuf")
        then (read_protobuf t >>= λ cfg. some (DecoderConfig.protobuf cfg))
        else if text_eq decoder (codes "template")
        then (read_template t >>= λ cfg. some (DecoderConfig.template cfg))
        else none

  unfoldable pub read_decoder : Value → Option DecoderConfig
  unfolding read_record read_decoder_table
  read_decoder = read_record read_decoder_table o.decoder

  unfoldable pub read_password_source : Value → Option PasswordSource
  unfolding read_record required
  read_password_source v =
      (read_record (λ t. required read_string t (codes "env")) o.env v >>= λ name.
      some (PasswordSource.env name))
      or_else (read_string v >>= λ password. some (PasswordSource.literal password))

  unfoldable pub read_user_pass : Table → Option UserPassConfig
  unfolding required read_password_source
  read_user_pass t = do
    username ← required read_string t (codes "username")
    password ← required read_password_source t (codes "password")
    some (record { username = username; password = password })

  -- `#[serde(tag = "method")]`
  unfoldable pub read_auth_table : Table → Option AuthConfig
  unfolding required read_mtls read_user_pass text_eq
  read_auth_table t = do
    method ← required read_string t (codes "method")
    if text_eq method (codes "mtls")
        then (read_mtls t >>= λ cfg. some (AuthConfig.mtls cfg))
        else if text_eq method (codes "userpass")
        then (read_user_pass t >>= λ cfg. some (AuthConfig.user_pass cfg))
        else none

  unfoldable pub read_auth : Value → Option AuthConfig
  unfolding read_record read_auth_table
  read_auth = read_record read_auth_table o.auth

  unfoldable pub read_connection_table : Table → Option ConnectionConfig
  unfolding required optional or_default read_u16 read_auth read_protocol
  read_connection_table t = do
    host ← required read_string t (codes "host")
    port ← required read_u16 t (codes "port")
    client_id ← required read_string t (codes "client_id")
    auth ← optional read_auth t (codes "auth")
    tls ← required read_bool t (codes "tls")
    protocol ← read_protocol t
    allow ← or_default read_bool false t (codes "allow_self_signed_certs")
    some (record {
      host = host;
      port = port;
      client_id = client_id;
      auth = auth;
      tls = tls;
      protocol = protocol;
      allow_self_signed_certs = allow;
    })

  -- A record with a flattened field is read from a table only.
  unfoldable pub read_connection : Value → Option ConnectionConfig
  unfolding as_table read_connection_table
  read_connection v = as_table v >>= read_connection_table

  unfoldable pub read_engine : Value → Option EngineConfig
  unfolding read_record or_default
  read_engine =
      read_record
        (λ t.
          or_default read_usize default_max_concurrent_decodes t (codes "max_concurrent_decodes")
          >>= λ n. some (record { max_concurrent_decodes = n }))
        o.engine

  unfoldable pub read_topic : Value → Option TopicMapping
  unfolding read_record required optional read_ref_or read_decoder
  read_topic =
      read_record
        (λ t. do
          topic_filter ← required read_string t (codes "topic_filter")
          decoder ← optional (read_ref_or read_decoder) t (codes "decoder")
          some (record { topic_filter = topic_filter; decoder = decoder }))
        o.topic

  unfoldable pub read_config_table : Table → Option Config
  unfolding required or_default read_connection read_vec read_topic read_map read_decoder
      read_engine
  read_config_table t = do
    connection ← required read_connection t (codes "connection")
    topics ← or_default (read_vec read_topic) [] t (codes "topic")
    decoders ← or_default (read_map read_decoder) [] t (codes "decoder")
    engine ← or_default read_engine default_engine_config t (codes "engine")
    some (record { connection = connection; topics = topics; decoders = decoders; engine = engine })

  unfoldable pub read_config : Value → Option Config
  unfolding read_record read_config_table
  read_config = read_record read_config_table o.config

-- What `Config::parse` calls, over these values.
abbrev pub toml_of : Library → Toml
toml_of l = record {
  Value = Value;
  Table = Table;
  TomlError = l.TomlError;
  from_str = l.from_str;
  get_table = λ v key. as_table v >>= λ t. get t key >>= as_table;
  put_table =
      λ v key inner. elim (as_table v) [ none ↦ v | some t ↦ table (replace t key (table inner)) ];
  has_key = λ t key. elim (get t key) [ none ↦ false | some _ ↦ true ];
  insert_string = λ t key text. entry key (string text) t;
  try_into = λ v. ok_or (l.refused v) (read_config l.other v);
}
