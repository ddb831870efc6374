-- ===== src/Client.antt =====
-- src/client.rs: the connection to the broker. The MQTT client library's options and the TLS library
-- are parameters, `MqttLibrary` and `Rustls`.
pub mod Tls
pub mod Subscribe
pub mod Options
pub mod Forward
pub mod Driver
use rosetta_mq.Prelude.{
  ℕ, Bool, true, false, not, ◌&&◌, ◌||◌, Option, none, some, List, [], ◌∷◌, ◌++◌, Result, ok, err,
  ◌>>=◌, map_err, ok_or, if◌then◌else◌, is_empty,
}
use rosetta_mq.Text.{Text, codes}
use rosetta_mq.Decoder.Decimal.{decimal}
use rosetta_mq.Protocol.{Protocol}
use rosetta_mq.Auth.{ResolvedAuth, none_auth, mtls, user_pass}
use rosetta_mq.Config.{ConnectionConfig}
use rosetta_mq.Client.Tls.{Rustls, ClientInitError, build_tls_config}

-- `rumqttc::Transport`, as far as the source uses it.
pub data Transport (TlsConfig : Type 0) : Type 0 where
  tcp ws : Transport TlsConfig
  tls wss : TlsConfig → Transport TlsConfig

-- What the source calls of `rumqttc::MqttOptions`.
pub record MqttLibrary (TlsConfig : Type 0) : Type 1 where
  pub MqttOptions : Type 0
  pub new : (client_id host : Text) (port : ℕ) → MqttOptions
  pub set_keep_alive : MqttOptions → ℕ → MqttOptions
  pub set_transport : MqttOptions → Transport TlsConfig → MqttOptions
  pub set_credentials : MqttOptions → (username password : Text) → MqttOptions

abbrev pub keep_alive_secs : ℕ
keep_alive_secs = 30

abbrev pub is_mtls : ResolvedAuth → Bool
is_mtls (mtls _ _ _) = true
is_mtls _ = false

-- The variable `tls` of `build_options`: mutual TLS turns it on.
unfoldable pub effective_tls : ConnectionConfig → ResolvedAuth → Bool
effective_tls config auth = if not config.tls && is_mtls auth then true else config.tls

-- `format!("{scheme}://{}:{}{}", …)`
unfoldable pub ws_url : Bool → ConnectionConfig → Text → Text
unfolding decimal
ws_url encrypted config path =
    (if encrypted then codes "wss" else codes "ws")
    ++ codes "://"
    ++ config.host
    ++ codes ":"
    ++ decimal config.port
    ++ path

-- The host argument of `MqttOptions::new`.
abbrev pub broker_host : Bool → ConnectionConfig → Protocol → Text
broker_host encrypted config Protocol.mqtt = config.host
broker_host encrypted config (Protocol.ws cfg) = ws_url encrypted config cfg.path

abbrev pub secure : {C : Type 0} → Protocol → C → Transport C
secure Protocol.mqtt cfg = Transport.tls cfg
secure (Protocol.ws _) cfg = Transport.wss cfg

module _ (r : Rustls) (m : MqttLibrary r.ClientConfig) where
  abbrev insecure : Protocol → m.MqttOptions → m.MqttOptions
  insecure Protocol.mqtt options = options
  insecure (Protocol.ws _) options = m.set_transport options Transport.ws

  abbrev with_credentials : ResolvedAuth → m.MqttOptions → m.MqttOptions
  with_credentials (user_pass username password) options =
      m.set_credentials options username password
  with_credentials _ options = options

  unfoldable pub build_options :
      ConnectionConfig → ResolvedAuth → Result m.MqttOptions (ClientInitError r)
  unfolding effective_tls ws_url build_tls_config
  build_options config auth = do
    let encrypted = effective_tls config auth
    let options =
        m.set_keep_alive
          (m.new config.client_id (broker_host encrypted config config.protocol) config.port)
          keep_alive_secs
    options' ←
        (if encrypted
          then (do
            tls_config ← build_tls_config r config.allow_self_signed_certs auth
            ok (m.set_transport options (secure config.protocol tls_config)))
          else ok (insecure config.protocol options))
    ok (with_credentials auth options')
