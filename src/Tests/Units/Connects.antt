-- ===== src/Tests/Units/Connects.antt =====
-- The tests at the end of src/config.rs of the connection of a document.
use rosetta_mq.Prelude.{◌≡◌, refl, Bool, true, false, not}
use rosetta_mq.Text.{codes, text_eq, starts_with, split}
use rosetta_mq.Protocol.{normalize}
use rosetta_mq.Config.{
  parse_config, normalize_config, inject_protocol, validate, check_topics, check_mapping,
  check_decoder, contains_key, lookup,
}
use rosetta_mq.Topic
use rosetta_mq.Topic.{rank_parts, rank}
use rosetta_mq.Config.Document.{
  no_entries, get, replace, as_table, read_u16, required, optional, or_default, each, each_entry,
  read_vec, read_map, read_record,
}
use rosetta_mq.Config.Read.{
  read_protocol, read_mtls, read_protobuf, read_decoder_table, read_decoder, read_ref_or,
  read_password_source, read_user_pass, read_auth_table, read_auth, read_connection_table,
  read_connection, read_engine, read_topic, read_config_table, read_config,
}
use rosetta_mq.Tests.Units.{unwrap_and, unwrap_err_and, is_some_and, is_none}
use rosetta_mq.Tests.Units.Documents.{
  parse, text, number, flag, section, connection, connected, valid, is_parse,
}
use rosetta_mq.Tests.Units.Tables.{
  is_mqtt, is_ws_at, is_user_of, is_env, over_ws, mtls_table, is_client_mtls, user_table,
  env_password,
}

abbrev defaults_to_none_when_connection_auth_omitted : Bool
defaults_to_none_when_connection_auth_omitted =
    unwrap_and (parse valid) (λ c. is_none c.connection.auth)

abbrev defaults_to_mqtt_protocol_when_omitted : Bool
defaults_to_mqtt_protocol_when_omitted =
    unwrap_and (parse valid) (λ c. is_mqtt c.connection.protocol)

abbrev parses_ws_protocol_with_path : Bool
parses_ws_protocol_with_path =
    unwrap_and (parse (connected (connection 1883 false (over_ws (codes "/mqtt")))))
      (λ c. is_ws_at (codes "/mqtt") c.connection.protocol)

abbrev normalizes_ws_path_missing_leading_slash : Bool
normalizes_ws_path_missing_leading_slash =
    unwrap_and (parse (connected (connection 1883 false (over_ws (codes "mqtt")))))
      (λ c. is_ws_at (codes "/mqtt") c.connection.protocol)

abbrev parses_connection_mtls_auth : Bool
parses_connection_mtls_auth =
    unwrap_and
      (parse (connected (connection 8883 true (section (codes "auth") mtls_table no_entries))))
      (λ c. is_some_and c.connection.auth is_client_mtls)

abbrev parses_connection_userpass_auth : Bool
parses_connection_userpass_auth =
    unwrap_and
      (parse (
        connected
          (connection 1883 false (section (codes "auth") (user_table env_password) no_entries))))
      (λ c.
        is_some_and c.connection.auth
          (is_user_of (codes "device-reader") (is_env (codes "MQTT_PASSWORD"))))

abbrev parses_tls_true : Bool
parses_tls_true =
    unwrap_and (parse (connected (connection 8883 true no_entries))) (λ c. c.connection.tls)

abbrev rejects_connection_missing_tls : Bool
rejects_connection_missing_tls =
    unwrap_err_and
      (parse (
        connected (
          text (codes "host") (codes "127.0.0.1")
            (number (codes "port") 1883 (text (codes "client_id") (codes "x") no_entries)))))
      is_parse

abbrev allow_self_signed_certs_defaults_to_false : Bool
allow_self_signed_certs_defaults_to_false =
    unwrap_and (parse valid) (λ c. not c.connection.allow_self_signed_certs)

abbrev parses_allow_self_signed_certs_true : Bool
parses_allow_self_signed_certs_true =
    unwrap_and
      (parse
        (connected (connection 8883 true (flag (codes "allow_self_signed_certs") true no_entries))))
      (λ c. c.connection.allow_self_signed_certs)

connection_tests :
    (defaults_to_none_when_connection_auth_omitted ≡ true)
    × (defaults_to_mqtt_protocol_when_omitted ≡ true)
    × (parses_ws_protocol_with_path ≡ true)
    × (normalizes_ws_path_missing_leading_slash ≡ true)
    × (parses_connection_mtls_auth ≡ true)
    × (parses_connection_userpass_auth ≡ true)
    × (parses_tls_true ≡ true)
    × (rejects_connection_missing_tls ≡ true)
    × (allow_self_signed_certs_defaults_to_false ≡ true)
    × (parses_allow_self_signed_certs_true ≡ true)
unfolding parse_config inject_protocol validate check_topics check_mapping check_decoder
    contains_key lookup normalize_config normalize Topic.parse rank_parts rank split text_eq
    starts_with get replace as_table read_u16 required optional or_default each each_entry read_vec
    read_map read_record read_protocol read_mtls read_protobuf read_decoder_table read_decoder
    read_ref_or read_password_source read_user_pass read_auth_table read_auth read_connection_table
    read_connection read_engine read_topic read_config_table read_config
connection_tests = (refl, refl, refl, refl, refl, refl, refl, refl, refl, refl)
