-- ===== src/Tests/Units/Tables.antt =====
-- The tests at the end of src/auth.rs and src/protocol.rs that read a table, over the values that its
-- text parses to.
use rosetta_mq.Prelude.{◌≡◌, refl, Bool, true, false, ◌&&◌}
use rosetta_mq.Text.{Text, codes, text_eq}
use rosetta_mq.Protocol.{Protocol}
use rosetta_mq.Auth.{PasswordSource, AuthConfig}
use rosetta_mq.Config.Document.{Table, table, no_entries, get, required, or_default, read_record}
use rosetta_mq.Config.Read.{
  read_protocol, read_mtls, read_password_source, read_user_pass, read_auth_table, read_auth,
}
use rosetta_mq.Tests.Units.{is_some_and, is_none}
use rosetta_mq.Tests.Units.Documents.{no_other_shapes, text, section}

abbrev pub is_mqtt : Protocol → Bool
is_mqtt Protocol.mqtt = true
is_mqtt (Protocol.ws _) = false

abbrev pub is_ws_at : Text → Protocol → Bool
is_ws_at path Protocol.mqtt = false
is_ws_at path (Protocol.ws cfg) = text_eq cfg.path path

abbrev is_mtls_of : Text → Text → Text → AuthConfig → Bool
is_mtls_of ca cert key (AuthConfig.mtls cfg) =
    text_eq cfg.ca_file ca && text_eq cfg.cert_file cert && text_eq cfg.key_file key
is_mtls_of ca cert key (AuthConfig.user_pass _) = false

abbrev pub is_user_of : Text → (PasswordSource → Bool) → AuthConfig → Bool
is_user_of name asserted (AuthConfig.mtls _) = false
is_user_of name asserted (AuthConfig.user_pass cfg) =
    text_eq cfg.username name && asserted cfg.password

abbrev pub is_env : Text → PasswordSource → Bool
is_env name (PasswordSource.env n) = text_eq n name
is_env name (PasswordSource.literal _) = false

abbrev is_literal : Text → PasswordSource → Bool
is_literal password (PasswordSource.env _) = false
is_literal password (PasswordSource.literal p) = text_eq p password

abbrev pub over_ws : Text → Table
over_ws path = text (codes "protocol") (codes "ws") (text (codes "path") path no_entries)

abbrev pub mtls_table : Table
mtls_table = text (codes "method") (codes "mtls") (
    text (codes "ca_file") (codes "ca.pem") (
      text (codes "cert_file") (codes "client.pem")
        (text (codes "key_file") (codes "client.key") no_entries)))

abbrev pub is_client_mtls : AuthConfig → Bool
is_client_mtls = is_mtls_of (codes "ca.pem") (codes "client.pem") (codes "client.key")

-- The table of a user, with the field of the password.
abbrev pub user_table : Table → Table
user_table password =
    text (codes "method") (codes "userpass")
      (text (codes "username") (codes "device-reader") password)

abbrev pub env_password : Table
env_password =
    section (codes "password") (text (codes "env") (codes "MQTT_PASSWORD") no_entries) no_entries

abbrev parses_valid_mtls_config : Bool
parses_valid_mtls_config = is_some_and (read_auth no_other_shapes (table mtls_table)) is_client_mtls

abbrev parses_userpass_with_literal_password : Bool
parses_userpass_with_literal_password =
    is_some_and
      (read_auth no_other_shapes
        (table (user_table (text (codes "password") (codes "supersecret") no_entries))))
      (is_user_of (codes "device-reader") (is_literal (codes "supersecret")))

abbrev parses_userpass_with_env_password : Bool
parses_userpass_with_env_password =
    is_some_and (read_auth no_other_shapes (table (user_table env_password)))
      (is_user_of (codes "device-reader") (is_env (codes "MQTT_PASSWORD")))

abbrev rejects_unknown_method : Bool
rejects_unknown_method =
    is_none (read_auth no_other_shapes (table (text (codes "method") (codes "oauth") no_entries)))

abbrev rejects_mtls_missing_required_field : Bool
rejects_mtls_missing_required_field = is_none (
    read_auth no_other_shapes (
      table (
        text (codes "method") (codes "mtls") (
          text (codes "ca_file") (codes "ca.pem")
            (text (codes "cert_file") (codes "client.pem") no_entries)))))

abbrev parses_protocol_mqtt : Bool
parses_protocol_mqtt =
    is_some_and (read_protocol (text (codes "protocol") (codes "mqtt") no_entries)) is_mqtt

abbrev parses_protocol_ws_with_path : Bool
parses_protocol_ws_with_path =
    is_some_and (read_protocol (over_ws (codes "/mqtt"))) (is_ws_at (codes "/mqtt"))

abbrev ws_path_defaults_to_empty : Bool
ws_path_defaults_to_empty =
    is_some_and (read_protocol (text (codes "protocol") (codes "ws") no_entries))
      (is_ws_at (codes "/ws"))

abbrev rejects_unknown_protocol : Bool
rejects_unknown_protocol =
    is_none (read_protocol (text (codes "protocol") (codes "quic") no_entries))

auth_and_protocol_tests :
    (parses_valid_mtls_config ≡ true)
    × (parses_userpass_with_literal_password ≡ true)
    × (parses_userpass_with_env_password ≡ true)
    × (rejects_unknown_method ≡ true)
    × (rejects_mtls_missing_required_field ≡ true)
    × (parses_protocol_mqtt ≡ true)
    × (parses_protocol_ws_with_path ≡ true)
    × (ws_path_defaults_to_empty ≡ true)
    × (rejects_unknown_protocol ≡ true)
unfolding text_eq get required or_default read_record read_protocol read_mtls read_password_source
    read_user_pass read_auth_table read_auth
auth_and_protocol_tests = (refl, refl, refl, refl, refl, refl, refl, refl, refl)
