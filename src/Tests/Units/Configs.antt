-- ===== src/Tests/Units/Configs.antt =====
-- The tests at the end of src/config.rs of the topics, the decoders and the engine of a document.
use rosetta_mq.Prelude.{
  ℕ, ◌≡◌, refl, Bool, true, false, ◌&&◌, Option, none, some, List, [], ◌∷◌, Result, ◌==◌, length,
  is_empty,
}
use rosetta_mq.Text.{Text, codes, text_eq, starts_with, contains, split}
use rosetta_mq.Topic
use rosetta_mq.Topic.{rank_parts, rank}
use rosetta_mq.Protocol.{normalize}
use rosetta_mq.Decoder.Config.{DecoderConfig}
use rosetta_mq.Config.{
  Config, ConfigError, RefOr, ref, literal, lookup, parse_config, normalize_config, inject_protocol,
  validate, check_topics, check_mapping, check_decoder, contains_key,
}
use rosetta_mq.Config.Document.{
  Value, Table, no_entries, get, replace, as_table, read_u16, required, optional, or_default, each,
  each_entry, read_vec, read_map, read_record,
}
use rosetta_mq.Config.Read.{
  read_protocol, read_undefined_behavior, read_template, read_protobuf, read_decoder_table,
  read_decoder, read_ref_or, read_connection_table, read_connection, read_engine, read_topic,
  read_config_table, read_config,
}
use rosetta_mq.Tests.Units.{unwrap_and, unwrap_err_and, is_some_and, is_none}
use rosetta_mq.Tests.Units.Documents.{
  Error, parse, number, section, document, valid, one_topic, by_name,
}

abbrev first : {A : Type 0} → List A → Option A
first [] = none
first (a ∷ rest) = some a

abbrev refers_to : Text → RefOr DecoderConfig → Bool
refers_to name (ref n) = text_eq n name
refers_to name (literal _) = false

abbrev is_utf8 : DecoderConfig → Bool
is_utf8 DecoderConfig.utf8 = true
is_utf8 _ = false

abbrev is_hexdump : DecoderConfig → Bool
is_hexdump DecoderConfig.hexdump = true
is_hexdump _ = false

abbrev is_device_reading : DecoderConfig → Bool
is_device_reading (DecoderConfig.protobuf cfg) =
    text_eq cfg.proto_file (codes "schemas/device.proto")
    && text_eq cfg.message_type (codes "device.v1.DeviceReading")
    && is_empty cfg.include_paths
is_device_reading _ = false

abbrev first_topic : Config → Text → (RefOr DecoderConfig → Bool) → Bool
first_topic c filter asserted =
    is_some_and (first c.topics)
      (λ m. text_eq m.topic_filter filter && is_some_and m.decoder asserted)

abbrev parses_valid_config : Bool
parses_valid_config = unwrap_and (parse valid) (λ c.
    text_eq c.connection.host (codes "127.0.0.1")
    && c.connection.port == 1883
    && text_eq c.connection.client_id (codes "rosetta-mq")
    && length c.topics == 3
    && first_topic c (codes "devices/+/raw") (refers_to (codes "utf8"))
    && is_some_and (lookup (codes "utf8") c.decoders) is_utf8
    && is_some_and (lookup (codes "hex") c.decoders) is_hexdump
    && is_some_and (lookup (codes "proto") c.decoders) is_device_reading)

abbrev topic_without_decoder_parses_to_none_and_is_subscribe_only : Bool
topic_without_decoder_parses_to_none_and_is_subscribe_only =
    unwrap_and (parse (document (one_topic (codes "devices/+/status") no_entries no_entries)))
      (λ c. is_some_and (first c.topics) (λ m. is_none m.decoder))

abbrev is_unknown_ref : {r : Result Value Text} → Text → Text → Error r → Bool
is_unknown_ref filter name (ConfigError.unknown_decoder_ref f n) =
    text_eq f filter && text_eq n name
is_unknown_ref filter name _ = false

abbrev rejects_reference_to_unknown_decoder : Bool
rejects_reference_to_unknown_decoder =
    unwrap_err_and
      (parse (
        document (one_topic (codes "devices/+/raw") (by_name (codes "does_not_exist")) no_entries)))
      (is_unknown_ref (codes "devices/+/raw") (codes "does_not_exist"))

abbrev is_inline_utf8 : RefOr DecoderConfig → Bool
is_inline_utf8 (ref _) = false
is_inline_utf8 (literal cfg) = is_utf8 cfg

abbrev parses_inline_literal_decoder_on_topic : Bool
parses_inline_literal_decoder_on_topic =
    unwrap_and
      (parse (
        document (
          one_topic (codes "devices/+/raw")
            (section (codes "decoder") (by_name (codes "utf8")) no_entries) no_entries)))
      (λ c. first_topic c (codes "devices/+/raw") is_inline_utf8)

abbrev defaults_to_empty_topics_when_omitted : Bool
defaults_to_empty_topics_when_omitted =
    unwrap_and (parse (document no_entries)) (λ c. is_empty c.topics)

abbrev is_invalid_filter : {r : Result Value Text} → Error r → Bool
is_invalid_filter (ConfigError.invalid_topic_filter _ _) = true
is_invalid_filter _ = false

abbrev rejects_invalid_topic_filter_at_load_time : Bool
rejects_invalid_topic_filter_at_load_time =
    unwrap_err_and
      (parse (document (one_topic (codes "a/#/b") (by_name (codes "utf8")) no_entries)))
      is_invalid_filter

abbrev defaults_max_concurrent_decodes_when_engine_omitted : Bool
defaults_max_concurrent_decodes_when_engine_omitted =
    unwrap_and (parse valid) (λ c. c.engine.max_concurrent_decodes == 100)

abbrev with_limit : ℕ → Table
with_limit n =
    document
      (section (codes "engine") (number (codes "max_concurrent_decodes") n no_entries) no_entries)

abbrev parses_engine_max_concurrent_decodes : Bool
parses_engine_max_concurrent_decodes =
    unwrap_and (parse (with_limit 5)) (λ c. c.engine.max_concurrent_decodes == 5)

abbrev is_invalid_engine : {r : Result Value Text} → Error r → Bool
is_invalid_engine ConfigError.invalid_engine_config = true
is_invalid_engine _ = false

abbrev rejects_zero_max_concurrent_decodes : Bool
rejects_zero_max_concurrent_decodes = unwrap_err_and (parse (with_limit 0)) is_invalid_engine

config_tests :
    (parses_valid_config ≡ true)
    × (topic_without_decoder_parses_to_none_and_is_subscribe_only ≡ true)
    × (rejects_reference_to_unknown_decoder ≡ true)
    × (parses_inline_literal_decoder_on_topic ≡ true)
    × (defaults_to_empty_topics_when_omitted ≡ true)
    × (rejects_invalid_topic_filter_at_load_time ≡ true)
    × (defaults_max_concurrent_decodes_when_engine_omitted ≡ true)
    × (parses_engine_max_concurrent_decodes ≡ true)
    × (rejects_zero_max_concurrent_decodes ≡ true)
unfolding parse_config inject_protocol validate check_topics check_mapping check_decoder
    contains_key lookup normalize_config normalize Topic.parse rank_parts rank split text_eq
    starts_with contains get replace as_table read_u16 required optional or_default each each_entry
    read_vec read_map read_record read_protocol read_undefined_behavior read_template read_protobuf
    read_decoder_table read_decoder read_ref_or read_connection_table read_connection read_engine
    read_topic read_config_table read_config
config_tests = (refl, refl, refl, refl, refl, refl, refl, refl, refl)
