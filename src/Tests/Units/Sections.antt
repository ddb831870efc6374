-- ===== src/Tests/Units/Sections.antt =====
-- The tests at the end of src/config.rs of the `[decoder.NAME]` sections of a document.
use rosetta_mq.Prelude.{◌≡◌, refl, Bool, true, false, ◌&&◌, ◌||◌, [], ◌∷◌, ◌++◌, is_empty}
use rosetta_mq.Text.{Text, codes, text_eq, starts_with, contains, split}
use rosetta_mq.Topic
use rosetta_mq.Topic.{rank_parts, rank}
use rosetta_mq.Protocol.{normalize}
use rosetta_mq.Decoder.Template.{UndefinedBehavior}
use rosetta_mq.Decoder.Config.{DecoderConfig}
use rosetta_mq.Config.{
  lookup, parse_config, normalize_config, inject_protocol, validate, check_topics, check_mapping,
  check_decoder, contains_key,
}
use rosetta_mq.Config.Document.{
  Table, no_entries, get, replace, as_table, read_u16, required, optional, or_default, each,
  each_entry, read_vec, read_map, read_record,
}
use rosetta_mq.Config.Read.{
  read_protocol, read_undefined_behavior, read_template, read_protobuf, read_decoder_table,
  read_decoder, read_ref_or, read_connection_table, read_connection, read_engine, read_topic,
  read_config_table, read_config,
}
use rosetta_mq.Tests.Units.{unwrap_and, unwrap_err_and, is_some_and}
use rosetta_mq.Tests.Units.Documents.{parse, text, section, document, is_parse, one_topic, by_name}

-- `str::contains` with a text.
abbrev has_text : Text → Text → Bool
has_text [] part = is_empty part
has_text (c ∷ s) part = starts_with (c ∷ s) part || has_text s part

abbrev newline : Text
newline = b'\n' ∷ []

abbrev is_strict : UndefinedBehavior → Bool
is_strict UndefinedBehavior.strict = true
is_strict _ = false

abbrev is_lenient : UndefinedBehavior → Bool
is_lenient UndefinedBehavior.lenient = true
is_lenient _ = false

abbrev is_message_template : DecoderConfig → Bool
is_message_template (DecoderConfig.template cfg) =
    has_text cfg.template (codes "topic: {{ topic }}")
    && has_text cfg.template (codes "device: {{ payload.device_id }}")
    && is_strict cfg.undefined_behavior
is_message_template _ = false

abbrev is_lenient_template : DecoderConfig → Bool
is_lenient_template (DecoderConfig.template cfg) = is_lenient cfg.undefined_behavior
is_lenient_template _ = false

abbrev decoder_section : Text → Table → Table → Table
decoder_section name fields rest = section (codes "decoder") (section name fields no_entries) rest

abbrev parses_template_mapping_with_multiline_toml_string : Bool
parses_template_mapping_with_multiline_toml_string =
    unwrap_and
      (parse (
        document (
          decoder_section (codes "json_template")
            (text (codes "decoder") (codes "template") (
              text (codes "template")
                (codes "            topic: {{ topic }}"
                  ++ newline
                  ++ codes "            device: {{ payload.device_id }}"
                  ++ newline
                  ++ codes "            ")
                no_entries))
            (one_topic (codes "devices/+/raw") (by_name (codes "json_template")) no_entries))))
      (λ c. is_some_and (lookup (codes "json_template") c.decoders) is_message_template)

abbrev parses_template_mapping_undefined_behavior_override : Bool
parses_template_mapping_undefined_behavior_override =
    unwrap_and
      (parse (
        document (
          decoder_section (codes "json_template")
            (text (codes "decoder") (codes "template") (
              text (codes "template") (codes "{{ topic }}")
                (text (codes "undefined_behavior") (codes "lenient") no_entries)))
            (one_topic (codes "devices/+/raw") (by_name (codes "json_template")) no_entries))))
      (λ c. is_some_and (lookup (codes "json_template") c.decoders) is_lenient_template)

abbrev rejects_template_mapping_missing_required_field : Bool
rejects_template_mapping_missing_required_field =
    unwrap_err_and
      (parse (
        document (decoder_section (codes "json_template") (by_name (codes "template")) no_entries)))
      is_parse

abbrev rejects_protobuf_mapping_missing_required_field : Bool
rejects_protobuf_mapping_missing_required_field =
    unwrap_err_and
      (parse (
        document (
          decoder_section (codes "proto")
            (text (codes "decoder") (codes "protobuf")
              (text (codes "proto_file") (codes "schemas/device.proto") no_entries))
            no_entries)))
      is_parse

section_tests :
    (parses_template_mapping_with_multiline_toml_string ≡ true)
    × (parses_template_mapping_undefined_behavior_override ≡ true)
    × (rejects_template_mapping_missing_required_field ≡ true)
    × (rejects_protobuf_mapping_missing_required_field ≡ true)
unfolding parse_config inject_protocol validate check_topics check_mapping check_decoder
    contains_key lookup normalize_config normalize Topic.parse rank_parts rank split text_eq
    starts_with contains get replace as_table read_u16 required optional or_default each each_entry
    read_vec read_map read_record read_protocol read_undefined_behavior read_template read_protobuf
    read_decoder_table read_decoder read_ref_or read_connection_table read_connection read_engine
    read_topic read_config_table read_config
section_tests = (refl, refl, refl, refl)
