-- ===== src/Config/Read/Written.antt =====
-- Each configuration written as a TOML document, and that the derived readers give it back.
use rosetta_mq.Prelude.{ℕ, ◌<◌, ◌^◌, ◌≡◌, refl, Option, none, some, List, [], ◌∷◌, lt→ltb}
use rosetta_mq.Text.{Text, codes, text_eq}
use rosetta_mq.Decoder.Template.{UndefinedBehavior, lenient, chainable, semi_strict, strict}
use rosetta_mq.Decoder.Config.{DecoderConfig}
use rosetta_mq.Engine.{EngineConfig}
use rosetta_mq.Protocol.{Protocol}
use rosetta_mq.Auth.{PasswordSource, AuthConfig}
use rosetta_mq.Config.{RefOr, ref, literal, TopicMapping, ConnectionConfig, Config}
use rosetta_mq.Config.Document.{
  Value, Values, Table, string, integer, pos, boolean, array, table, no_values, item, no_entries,
  entry, get, as_table, read_string, read_u16, required, optional, or_default, each, each_entry,
  read_vec, read_map, read_record,
}
use rosetta_mq.Config.Read.{
  OtherShapes, read_protocol, read_mtls, read_undefined_behavior, read_template, read_protobuf,
  read_decoder_table, read_decoder, read_ref_or, read_password_source, read_user_pass,
  read_auth_table, read_auth, read_connection_table, read_connection, read_engine, read_topic,
  read_config_table, read_config,
}

abbrev text_entry : Text → Text → Table → Table
text_entry key s rest = entry key (string s) rest

unfoldable pub write_vec : {T : Type 0} → (T → Value) → List T → Values
write_vec write [] = no_values
write_vec write (a ∷ xs) = item (write a) (write_vec write xs)

unfoldable pub write_map : {T : Type 0} → (T → Value) → List (Text × T) → Table
write_map write [] = no_entries
write_map write ((key, a) ∷ xs) = entry key (write a) (write_map write xs)

abbrev pub behavior_name : UndefinedBehavior → Text
behavior_name lenient = codes "lenient"
behavior_name chainable = codes "chainable"
behavior_name semi_strict = codes "semi_strict"
behavior_name strict = codes "strict"

unfoldable pub write_decoder : DecoderConfig → Value
unfolding write_vec
write_decoder DecoderConfig.hexdump =
    table (text_entry (codes "decoder") (codes "hexdump") no_entries)
write_decoder DecoderConfig.utf8 = table (text_entry (codes "decoder") (codes "utf8") no_entries)
write_decoder (DecoderConfig.protobuf cfg) = table (
    text_entry (codes "decoder") (codes "protobuf") (
      text_entry (codes "proto_file") cfg.proto_file (
        text_entry (codes "message_type") cfg.message_type
          (entry (codes "include_paths") (array (write_vec string cfg.include_paths)) no_entries))))
write_decoder (DecoderConfig.template cfg) = table (
    text_entry (codes "decoder") (codes "template") (
      text_entry (codes "template") cfg.template (
        text_entry (codes "undefined_behavior") (behavior_name cfg.undefined_behavior) no_entries)))

abbrev write_ref_or : RefOr DecoderConfig → Value
write_ref_or (ref name) = string name
write_ref_or (literal cfg) = write_decoder cfg

abbrev decoder_entry : Option (RefOr DecoderConfig) → Table
decoder_entry none = no_entries
decoder_entry (some r) = entry (codes "decoder") (write_ref_or r) no_entries

unfoldable pub write_topic : TopicMapping → Value
unfolding write_decoder
write_topic m = table (text_entry (codes "topic_filter") m.topic_filter (decoder_entry m.decoder))

abbrev write_password_source : PasswordSource → Value
write_password_source (PasswordSource.env name) = table (text_entry (codes "env") name no_entries)
write_password_source (PasswordSource.literal password) = string password

unfoldable pub write_auth : AuthConfig → Value
write_auth (AuthConfig.mtls cfg) = table (
    text_entry (codes "method") (codes "mtls") (
      text_entry (codes "ca_file") cfg.ca_file (
        text_entry (codes "cert_file") cfg.cert_file
          (text_entry (codes "key_file") cfg.key_file no_entries))))
write_auth (AuthConfig.user_pass cfg) = table (
    text_entry (codes "method") (codes "userpass") (
      text_entry (codes "username") cfg.username
        (entry (codes "password") (write_password_source cfg.password) no_entries)))

abbrev write_protocol : Protocol → Table → Table
write_protocol Protocol.mqtt rest = text_entry (codes "protocol") (codes "mqtt") rest
write_protocol (Protocol.ws cfg) rest =
    text_entry (codes "protocol") (codes "ws") (text_entry (codes "path") cfg.path rest)

abbrev auth_entry : Option AuthConfig → Table
auth_entry none = no_entries
auth_entry (some auth) = entry (codes "auth") (write_auth auth) no_entries

unfoldable pub write_connection : ConnectionConfig → Table
unfolding write_auth
write_connection c = text_entry (codes "host") c.host (
    entry (codes "port") (integer (pos c.port)) (
      text_entry (codes "client_id") c.client_id (
        entry (codes "tls") (boolean c.tls) (
          entry (codes "allow_self_signed_certs") (boolean c.allow_self_signed_certs)
            (write_protocol c.protocol (auth_entry c.auth))))))

abbrev write_engine : EngineConfig → Value
write_engine e =
    table
      (entry (codes "max_concurrent_decodes") (integer (pos e.max_concurrent_decodes)) no_entries)

unfoldable pub write_config : Config → Value
unfolding write_connection write_vec write_topic write_map write_decoder
write_config c = table (
    entry (codes "connection") (table (write_connection c.connection)) (
      entry (codes "topic") (array (write_vec write_topic c.topics)) (
        entry (codes "decoder") (table (write_map write_decoder c.decoders))
          (entry (codes "engine") (write_engine c.engine) no_entries))))

module _ {T : Type 0} (read : Value → Option T) (write : T → Value)
    (back : (a : T) → read (write a) ≡ some a) where
  each-write_vec : (xs : List T) → each read (write_vec write xs) ≡ some xs
  unfolding each write_vec
  each-write_vec [] = refl
  each-write_vec (a ∷ xs) = rw (back a, each-write_vec xs) refl

  each_entry-write_map : (xs : List (Text × T)) → each_entry read (write_map write xs) ≡ some xs
  unfolding each_entry write_map
  each_entry-write_map [] = refl
  each_entry-write_map ((key, a) ∷ xs) = rw (back a, each_entry-write_map xs) refl

-- A port is 16 bits wide.
abbrev pub HasPort : ConnectionConfig → Type 0
HasPort c = c.port < 2 ^ 16

module _ (o : OtherShapes) where
  read_undefined_behavior-name :
      (b : UndefinedBehavior) → read_undefined_behavior o (string (behavior_name b)) ≡ some b
  unfolding read_undefined_behavior text_eq
  read_undefined_behavior-name lenient = refl
  read_undefined_behavior-name chainable = refl
  read_undefined_behavior-name semi_strict = refl
  read_undefined_behavior-name strict = refl

  read_decoder-write : (cfg : DecoderConfig) → read_decoder o (write_decoder cfg) ≡ some cfg
  unfolding read_decoder read_record read_decoder_table required or_default get text_eq
      write_decoder read_protobuf read_template read_vec
  read_decoder-write DecoderConfig.hexdump = refl
  read_decoder-write DecoderConfig.utf8 = refl
  read_decoder-write (DecoderConfig.protobuf cfg) =
      rw (each-write_vec read_string string (λ s. refl) cfg.include_paths) refl
  read_decoder-write (DecoderConfig.template cfg) =
      rw (read_undefined_behavior-name cfg.undefined_behavior) refl

  read_string-decoder : (cfg : DecoderConfig) → read_string (write_decoder cfg) ≡ none
  unfolding write_decoder
  read_string-decoder DecoderConfig.hexdump = refl
  read_string-decoder DecoderConfig.utf8 = refl
  read_string-decoder (DecoderConfig.protobuf cfg) = refl
  read_string-decoder (DecoderConfig.template cfg) = refl

  read_ref_or-write :
      (r : RefOr DecoderConfig) → read_ref_or (read_decoder o) (write_ref_or r) ≡ some r
  unfolding read_ref_or
  read_ref_or-write (ref name) = refl
  read_ref_or-write (literal cfg) = rw (read_string-decoder cfg, read_decoder-write cfg) refl

  read_topic-write : (m : TopicMapping) → read_topic o (write_topic m) ≡ some m
  unfolding read_topic write_topic read_record required optional get text_eq
  read_topic-write m = go m.topic_filter m.decoder
    where
      go :
          (f : Text) (d : Option (RefOr DecoderConfig))
          → read_topic o (write_topic (record { topic_filter = f; decoder = d }))
            ≡ some (record { topic_filter = f; decoder = d })
      go f none = refl
      go f (some r) = rw (read_ref_or-write r) refl

  read_password_source-write :
      (p : PasswordSource) → read_password_source o (write_password_source p) ≡ some p
  unfolding read_password_source read_record required get text_eq
  read_password_source-write (PasswordSource.env name) = refl
  read_password_source-write (PasswordSource.literal password) = refl

  read_auth-write : (a : AuthConfig) → read_auth o (write_auth a) ≡ some a
  unfolding read_auth write_auth read_record read_auth_table required get text_eq read_mtls
      read_user_pass
  read_auth-write (AuthConfig.mtls cfg) = refl
  read_auth-write (AuthConfig.user_pass cfg) = rw (read_password_source-write cfg.password) refl

  read_u16-write : (n : ℕ) → n < 2 ^ 16 → read_u16 (integer (pos n)) ≡ some n
  unfolding read_u16
  read_u16-write n h = rw (lt→ltb n (2 ^ 16) h) refl

  read_connection-write :
      (c : ConnectionConfig) → HasPort c → read_connection_table o (write_connection c) ≡ some c
  unfolding read_connection_table write_connection required optional or_default get text_eq
      read_protocol
  read_connection-write c h = go c.auth c.protocol
    where
      go :
          (auth : Option AuthConfig) (protocol : Protocol)
          → read_connection_table o
              (write_connection (record c { auth = auth; protocol = protocol }))
            ≡ some (record c { auth = auth; protocol = protocol })
      go none Protocol.mqtt = rw (read_u16-write c.port h) refl
      go none (Protocol.ws cfg) = rw (read_u16-write c.port h) refl
      go (some a) Protocol.mqtt = rw (read_u16-write c.port h, read_auth-write a) refl
      go (some a) (Protocol.ws cfg) = rw (read_u16-write c.port h, read_auth-write a) refl

  -- A configuration that is written as a document is read back.
  pub read_config-write :
      (c : Config) → HasPort c.connection → read_config o (write_config c) ≡ some c
  unfolding read_config read_record read_config_table write_config required or_default get text_eq
      as_table read_connection read_vec read_map read_engine
  read_config-write c h =
      rw
        (
          read_connection-write c.connection h,
          each-write_vec (read_topic o) write_topic read_topic-write c.topics,
          each_entry-write_map (read_decoder o) write_decoder read_decoder-write c.decoders,
        )
        refl
