-- ===== src/Tests/Units/Transports.antt =====
-- The tests at the end of src/client.rs. The TLS library is an instance that accepts the certificates,
-- so the bytes of the certificate files are left open.
use rosetta_mq.Prelude.{ℕ, ◌≡◌, refl, Bool, true, false, ◌&&◌, ◌==◌, Option, none, some, List}
use rosetta_mq.Text.{Text, codes, text_eq}
use rosetta_mq.Protocol.{Protocol}
use rosetta_mq.Auth.{ResolvedAuth, none_auth, mtls, user_pass}
use rosetta_mq.Config.{ConnectionConfig}
use rosetta_mq.Decoder.Decimal.{decimal}
use rosetta_mq.Client.{Transport, MqttLibrary, effective_tls, ws_url, build_options}
use rosetta_mq.Client.Tls.{
  build_tls_config, server_verifier, client_auth, parse_pem_certs, parse_pem_private_key,
}
use rosetta_mq.Tests.Platforms.{rustls}
use rosetta_mq.Tests.Units.{unwrap_and, is_some_and, is_none}

-- Options that can be read back.
record Options : Type 0 where
  address : Text × ℕ
  transport : Transport (Unit {0})
  credentials : Option (Text × Text)

abbrev readable : MqttLibrary (Unit {0})
readable = record {
  MqttOptions = Options;
  new = λ _ host port. record {
    address = (host, port);
    transport = Transport.tcp;
    credentials = none;
  };
  set_keep_alive = λ o _. o;
  set_transport = λ o t. record o { transport = t };
  set_credentials = λ o u p. record o { credentials = some (u, p) };
}

abbrev test_config : ConnectionConfig
test_config = record {
  host = codes "127.0.0.1";
  port = 1883;
  client_id = codes "rosetta-mq-test";
  auth = none;
  tls = false;
  protocol = Protocol.mqtt;
  allow_self_signed_certs = false;
}

abbrev websocket_config : ConnectionConfig
websocket_config = record test_config { protocol = Protocol.ws (record { path = codes "/mqtt" }) }

abbrev by_password : ResolvedAuth
by_password = user_pass (codes "device-reader") (codes "supersecret")

-- `build_options(&config, &auth).unwrap()`, and what is asserted of the options.
abbrev options_of : ConnectionConfig → ResolvedAuth → (Options → Bool) → Bool
options_of config auth = unwrap_and (build_options rustls readable config auth)

abbrev is_tcp : Transport (Unit {0}) → Bool
is_tcp Transport.tcp = true
is_tcp _ = false

abbrev is_tls : Transport (Unit {0}) → Bool
is_tls (Transport.tls _) = true
is_tls _ = false

abbrev is_ws : Transport (Unit {0}) → Bool
is_ws Transport.ws = true
is_ws _ = false

abbrev is_wss : Transport (Unit {0}) → Bool
is_wss (Transport.wss _) = true
is_wss _ = false

abbrev has_login : Options → Bool
has_login o =
    is_some_and o.credentials
      (λ login. text_eq login.0 (codes "device-reader") && text_eq login.1 (codes "supersecret"))

abbrev is_at : Options → Text → ℕ → Bool
is_at o host port = text_eq o.address.0 host && o.address.1 == port

abbrev no_auth_leaves_options_unauthenticated : Bool
no_auth_leaves_options_unauthenticated =
    options_of test_config none_auth (λ o. is_none o.credentials && is_tcp o.transport)

abbrev userpass_auth_sets_credentials : Bool
userpass_auth_sets_credentials =
    options_of test_config by_password (λ o. has_login o && is_tcp o.transport)

abbrev tls_with_no_auth_uses_native_root_store : Bool
tls_with_no_auth_uses_native_root_store =
    options_of (record test_config { tls = true }) none_auth
      (λ o. is_none o.credentials && is_tls o.transport)

abbrev tls_with_userpass_uses_native_root_store_and_sets_credentials : Bool
tls_with_userpass_uses_native_root_store_and_sets_credentials =
    options_of (record test_config { tls = true }) by_password
      (λ o. has_login o && is_tls o.transport)

abbrev allow_self_signed_certs_skips_verification_with_userpass : Bool
allow_self_signed_certs_skips_verification_with_userpass =
    options_of (record test_config { tls = true; allow_self_signed_certs = true }) by_password
      (λ o.
        is_some_and o.credentials (λ login. text_eq login.0 (codes "device-reader"))
        && is_tls o.transport)

abbrev websocket_no_tls_uses_ws_transport_and_url_host : Bool
websocket_no_tls_uses_ws_transport_and_url_host = options_of websocket_config none_auth (λ o.
    is_none o.credentials && is_ws o.transport && is_at o (codes "ws://127.0.0.1:1883/mqtt") 1883)

abbrev websocket_no_tls_userpass_sets_credentials_and_ws_transport : Bool
websocket_no_tls_userpass_sets_credentials_and_ws_transport =
    options_of websocket_config by_password (λ o. has_login o && is_ws o.transport)

abbrev websocket_tls_userpass_uses_native_root_store_and_sets_credentials : Bool
websocket_tls_userpass_uses_native_root_store_and_sets_credentials =
    options_of (record websocket_config { tls = true }) by_password
      (λ o. has_login o && is_wss o.transport)

options_tests :
    (no_auth_leaves_options_unauthenticated ≡ true)
    × (userpass_auth_sets_credentials ≡ true)
    × (tls_with_no_auth_uses_native_root_store ≡ true)
    × (tls_with_userpass_uses_native_root_store_and_sets_credentials ≡ true)
    × (allow_self_signed_certs_skips_verification_with_userpass ≡ true)
    × (websocket_no_tls_uses_ws_transport_and_url_host ≡ true)
    × (websocket_no_tls_userpass_sets_credentials_and_ws_transport ≡ true)
    × (websocket_tls_userpass_uses_native_root_store_and_sets_credentials ≡ true)
unfolding build_options effective_tls ws_url decimal text_eq build_tls_config server_verifier
    client_auth
options_tests = (refl, refl, refl, refl, refl, refl, refl, refl)

module _ (ca cert key : List ℕ) where
  abbrev mtls_auth_sets_tls_transport_with_client_cert : Bool
  mtls_auth_sets_tls_transport_with_client_cert =
      options_of (record test_config { tls = true }) (mtls ca cert key)
        (λ o. is_none o.credentials && is_tls o.transport)

  abbrev mtls_without_tls_connects_with_tls_anyway : Bool
  mtls_without_tls_connects_with_tls_anyway =
      options_of test_config (mtls ca cert key) (λ o. is_tls o.transport && is_none o.credentials)

  abbrev websocket_tls_mtls_sets_wss_transport_with_client_cert : Bool
  websocket_tls_mtls_sets_wss_transport_with_client_cert =
      options_of (record websocket_config { tls = true }) (mtls ca cert key)
        (λ o.
          is_none o.credentials
          && is_wss o.transport
          && is_at o (codes "wss://127.0.0.1:1883/mqtt") 1883)

  abbrev websocket_mtls_without_tls_connects_with_wss_anyway : Bool
  websocket_mtls_without_tls_connects_with_wss_anyway =
      options_of websocket_config (mtls ca cert key) (λ o.
        is_wss o.transport
        && is_at o (codes "wss://127.0.0.1:1883/mqtt") 1883
        && is_none o.credentials)

  abbrev allow_self_signed_certs_skips_verification_with_mtls_client_cert : Bool
  allow_self_signed_certs_skips_verification_with_mtls_client_cert =
      options_of (record test_config { tls = true; allow_self_signed_certs = true })
        (mtls (codes "unused-when-self-signed-certs-are-allowed") cert key)
        (λ o. is_tls o.transport)

  mtls_tests :
      (mtls_auth_sets_tls_transport_with_client_cert ≡ true)
      × (mtls_without_tls_connects_with_tls_anyway ≡ true)
      × (websocket_tls_mtls_sets_wss_transport_with_client_cert ≡ true)
      × (websocket_mtls_without_tls_connects_with_wss_anyway ≡ true)
      × (allow_self_signed_certs_skips_verification_with_mtls_client_cert ≡ true)
  unfolding build_options effective_tls ws_url decimal text_eq build_tls_config server_verifier
      client_auth parse_pem_certs parse_pem_private_key
  mtls_tests = (refl, refl, refl, refl, refl)
