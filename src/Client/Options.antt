-- ===== src/Client/Options.antt =====
-- `build_options` of src/client.rs: the transport and the credentials of a connection, read back from
-- the options.
use rosetta_mq.Prelude.{
  ℕ, ◌≡◌, refl, ap, sym, ◌∙◌, subst, Bool, true, false, ◌||◌, Option, none, some, Result, ok, ◌>>=◌,
  >>=-eq-ok, ok_inj, arith, if◌then◌else◌,
}
use rosetta_mq.Text.{Text}
use rosetta_mq.Protocol.{Protocol}
use rosetta_mq.Auth.{ResolvedAuth, none_auth, mtls, user_pass}
use rosetta_mq.Config.{ConnectionConfig}
use rosetta_mq.Client.Tls.{Rustls, ClientInitError, build_tls_config}
use rosetta_mq.Client.{
  Transport, MqttLibrary, effective_tls, is_mtls, secure, insecure, broker_host, with_credentials,
  keep_alive_secs, build_options,
}

-- What the client library reads back of the options, and that each setter sets one of them. New
-- options have the plain transport and no credentials.
pub record Reads (C : Type 0) (m : MqttLibrary C) : Type 0 where
  pub transport : m.MqttOptions → Transport C
  pub credentials : m.MqttOptions → Option (Text × Text)
  pub transport_new : (id host : Text) (port : ℕ) → transport (m.new id host port) ≡ Transport.tcp
  pub transport_keep_alive :
      (o : m.MqttOptions) (n : ℕ) → transport (m.set_keep_alive o n) ≡ transport o
  pub transport_transport :
      (o : m.MqttOptions) (t : Transport C) → transport (m.set_transport o t) ≡ t
  pub transport_credentials :
      (o : m.MqttOptions) (u p : Text) → transport (m.set_credentials o u p) ≡ transport o
  pub credentials_new : (id host : Text) (port : ℕ) → credentials (m.new id host port) ≡ none
  pub credentials_keep_alive :
      (o : m.MqttOptions) (n : ℕ) → credentials (m.set_keep_alive o n) ≡ credentials o
  pub credentials_transport :
      (o : m.MqttOptions) (t : Transport C) → credentials (m.set_transport o t) ≡ credentials o
  pub credentials_credentials :
      (o : m.MqttOptions) (u p : Text) → credentials (m.set_credentials o u p) ≡ some (u, p)

-- The credentials that an authentication method sends in the MQTT connection.
abbrev pub login : ResolvedAuth → Option (Text × Text)
login none_auth = none
login (mtls _ _ _) = none
login (user_pass username password) = some (username, password)

abbrev pub plain : {C : Type 0} → Protocol → Transport C
plain Protocol.mqtt = Transport.tcp
plain (Protocol.ws _) = Transport.ws

effective_tls-or :
    (config : ConnectionConfig) (auth : ResolvedAuth)
    → effective_tls config auth ≡ (config.tls || is_mtls auth)
unfolding effective_tls
effective_tls-or config auth = ground arith

module _ (r : Rustls) (m : MqttLibrary r.ClientConfig) (reads : Reads r.ClientConfig m) where
  -- The transport of a connection: encrypted, by the TLS configuration of the flag and the method,
  -- if TLS is asked for or the method is mutual TLS, and plain otherwise.
  pub data HasTransport (config : ConnectionConfig) (auth : ResolvedAuth)
      : Transport r.ClientConfig → Type 0 where
    encrypted :
        {cfg : r.ClientConfig}
        → (config.tls || is_mtls auth) ≡ true
        → build_tls_config r config.allow_self_signed_certs auth ≡ ok cfg
        → HasTransport config auth (secure config.protocol cfg)
    unencrypted :
        (config.tls || is_mtls auth) ≡ false → HasTransport config auth (plain config.protocol)

  transport-with_credentials :
      (auth : ResolvedAuth) (o : m.MqttOptions)
      → reads.transport (with_credentials r m auth o) ≡ reads.transport o
  transport-with_credentials none_auth o = refl
  transport-with_credentials (mtls _ _ _) o = refl
  transport-with_credentials (user_pass u p) o = reads.transport_credentials o u p

  credentials-with_credentials :
      (auth : ResolvedAuth) (o : m.MqttOptions)
      → reads.credentials o ≡ none
      → reads.credentials (with_credentials r m auth o) ≡ login auth
  credentials-with_credentials none_auth o h = h
  credentials-with_credentials (mtls _ _ _) o h = h
  credentials-with_credentials (user_pass u p) o h = reads.credentials_credentials o u p

  -- The options before the transport.
  fresh : ConnectionConfig → Bool → m.MqttOptions
  fresh config tls =
      m.set_keep_alive (m.new config.client_id (broker_host tls config config.protocol) config.port)
        keep_alive_secs

  transport-insecure :
      (p : Protocol) (o : m.MqttOptions)
      → reads.transport o ≡ Transport.tcp
      → reads.transport (insecure r m p o) ≡ plain p
  transport-insecure Protocol.mqtt o h = h
  transport-insecure (Protocol.ws cfg) o h = reads.transport_transport o Transport.ws

  credentials-insecure :
      (p : Protocol) (o : m.MqttOptions)
      → reads.credentials o ≡ none
      → reads.credentials (insecure r m p o) ≡ none
  credentials-insecure Protocol.mqtt o h = h
  credentials-insecure (Protocol.ws cfg) o h = reads.credentials_transport o Transport.ws ∙ h

  transport-fresh :
      (config : ConnectionConfig) (tls : Bool) → reads.transport (fresh config tls) ≡ Transport.tcp
  transport-fresh config tls =
      unfold fresh in reads.transport_keep_alive _ _ ∙ reads.transport_new _ _ _

  credentials-fresh :
      (config : ConnectionConfig) (tls : Bool) → reads.credentials (fresh config tls) ≡ none
  credentials-fresh config tls =
      unfold fresh in reads.credentials_keep_alive _ _ ∙ reads.credentials_new _ _ _

  -- The transport step of `build_options`.
  choose : ConnectionConfig → ResolvedAuth → Bool → Result m.MqttOptions (ClientInitError r)
  choose config auth tls =
      if tls
      then (do
        cfg ← build_tls_config r config.allow_self_signed_certs auth
        ok (m.set_transport (fresh config tls) (secure config.protocol cfg)))
      else ok (insecure r m config.protocol (fresh config tls))

  build_options-choose :
      (config : ConnectionConfig) (auth : ResolvedAuth)
      → build_options r m config auth
        ≡ (choose config auth (effective_tls config auth) >>= λ o. ok (with_credentials r m auth o))
  unfolding build_options choose fresh
  build_options-choose config auth = refl

  choose-HasTransport :
      (config : ConnectionConfig) (auth : ResolvedAuth) (tls : Bool) (o : m.MqttOptions)
      → (config.tls || is_mtls auth) ≡ tls
      → choose config auth tls ≡ ok o
      → HasTransport config auth (reads.transport o) × (reads.credentials o ≡ none)
  unfolding choose
  choose-HasTransport config auth false o h e =
      let same = ok_inj e in
      (
        subst (HasTransport config auth)
            (sym (transport-insecure config.protocol _ (transport-fresh config false))
              ∙ ap reads.transport same)
            (unencrypted h),
        sym (ap reads.credentials same)
            ∙ credentials-insecure config.protocol _ (credentials-fresh config false),
      )
  choose-HasTransport config auth true o h e =
      let (cfg, built, done) =
        >>=-eq-ok (build_tls_config r config.allow_self_signed_certs auth) _ e in
      let same = ok_inj done in
      (
        subst (HasTransport config auth)
            (sym (reads.transport_transport (fresh config true) _) ∙ ap reads.transport same)
            (encrypted h built),
        sym (ap reads.credentials same)
            ∙ reads.credentials_transport _ _
            ∙ credentials-fresh config true,
      )

  -- If the options are built, the connection is encrypted exactly if TLS is asked for or the method
  -- is mutual TLS, over the protocol of the configuration and by the TLS configuration of the method
  -- and the flag; and it logs in exactly with the name and password of that method.
  pub build_options-HasTransport :
      (config : ConnectionConfig) (auth : ResolvedAuth) (o : m.MqttOptions)
      → build_options r m config auth ≡ ok o
      → HasTransport config auth (reads.transport o) × (reads.credentials o ≡ login auth)
  build_options-HasTransport config auth o e =
      let (o', chosen, done) =
        >>=-eq-ok (choose config auth (effective_tls config auth)) _
          (sym (build_options-choose config auth) ∙ e) in
      let same = ok_inj done in
      let (t, c) =
        choose-HasTransport config auth _ o' (sym (effective_tls-or config auth)) chosen in
      (
        subst (HasTransport config auth)
            (sym (transport-with_credentials auth o') ∙ ap reads.transport same) t,
        sym (ap reads.credentials same) ∙ credentials-with_credentials auth o' c,
      )
