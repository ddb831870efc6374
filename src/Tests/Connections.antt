-- ===== src/Tests/Connections.antt =====
-- Tests of the authentication and of the client.
use rosetta_mq.Prelude.{
  ◌≡◌, refl, ◌⊎◌, true, false, Option, none, some, List, [], ◌∷◌, Result, ok, err,
}
use rosetta_mq.Text.{Text, codes}
use rosetta_mq.Protocol.{Protocol}
use rosetta_mq.Auth
use rosetta_mq.Auth.{AuthConfig, MtlsConfig, ResolvedAuth, Host, AuthError, read}
use rosetta_mq.Auth.Files.{Resolved, build-Resolved}
use rosetta_mq.Config.{ConnectionConfig}
use rosetta_mq.Client.{Transport, MqttLibrary, build_options}
use rosetta_mq.Client.Tls.{build_tls_config}
use rosetta_mq.Client.Tls.Verdict.{Verdict, build_tls_config-Verdict}
use rosetta_mq.Client.Options.{Reads, HasTransport, login, build_options-HasTransport}
use rosetta_mq.Client.Driver.{Poll, publish, other, failed, DriverState, running, drive}
use rosetta_mq.Client.Forward.{Forwards, IsEnded, drive_lem}
use rosetta_mq.Tests.Fixtures.{packet}
use rosetta_mq.Tests.Platforms.{host, rustls}

-- Options that are the transport and the credentials.
abbrev Options : Type 0
Options = Transport (Unit {0}) × Option (Text × Text)

abbrev library : MqttLibrary (Unit {0})
library = record {
  MqttOptions = Options;
  new = λ _ _ _. (Transport.tcp, none);
  set_keep_alive = λ o _. o;
  set_transport = λ o t. (t, o.1);
  set_credentials = λ o u p. (o.0, some (u, p));
}

abbrev reads : Reads (Unit {0}) library
reads = record {
  transport = λ o. o.0;
  credentials = λ o. o.1;
  transport_new = λ _ _ _. refl;
  transport_keep_alive = λ _ _. refl;
  transport_transport = λ _ _. refl;
  transport_credentials = λ _ _ _. refl;
  credentials_new = λ _ _ _. refl;
  credentials_keep_alive = λ _ _. refl;
  credentials_transport = λ _ _. refl;
  credentials_credentials = λ _ _ _. refl;
}

abbrev connection : ConnectionConfig
connection = record {
  host = codes "localhost";
  port = 8883;
  client_id = codes "rosetta";
  auth = none;
  tls = false;
  protocol = Protocol.mqtt;
  allow_self_signed_certs = false;
}

abbrev certificates : ResolvedAuth
certificates = ResolvedAuth.mtls (1 ∷ []) (2 ∷ []) (3 ∷ [])

-- TLS is off, and mtls_files TLS turns it on.
options_built : build_options rustls library connection certificates ≡ ok (Transport.tls tt, none)
unfolding build_options
options_built = refl

build_options-HasTransport_example :
    HasTransport rustls library reads connection certificates (Transport.tls tt)
    × (reads.credentials (Transport.tls tt, none) ≡ login certificates)
build_options-HasTransport_example =
    build_options-HasTransport rustls library reads connection certificates (Transport.tls tt, none)
      options_built

abbrev rounds : List (Poll Text)
rounds = publish (packet (codes "a") []) true ∷ other ∷ failed (codes "reset") ∷ other ∷ []

drive_test : drive rounds ≡ (packet (codes "a") [] ∷ [], DriverState.ended (err (codes "reset")))
unfolding drive
drive_test = refl

drive_lem_example :
    (Forwards rounds (drive rounds).0 × ((drive rounds).1 ≡ running))
    ⊎ ((result : Result (Unit {0}) Text) × IsEnded rounds result)
drive_lem_example = drive_lem rounds

abbrev mtls_files : AuthConfig
mtls_files = AuthConfig.mtls (record {
  ca_file = codes "ca.pem";
  cert_file = codes "/etc/client.pem";
  key_file = codes "client.key";
})

build-Resolved_example :
    Resolved host (codes "conf") mtls_files (Auth.build host mtls_files (codes "conf"))
build-Resolved_example = build-Resolved host (codes "conf") mtls_files

build_tls_config-Verdict_example :
    Verdict rustls false certificates (build_tls_config rustls false certificates)
build_tls_config-Verdict_example = build_tls_config-Verdict rustls false certificates
