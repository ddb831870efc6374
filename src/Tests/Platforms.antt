-- ===== src/Tests/Platforms.antt =====
-- Instances of the libraries and of the system.
use rosetta_mq.Prelude.{ℕ, refl, false, Option, none, some, List, [], ◌∷◌, ok, err}
use rosetta_mq.Text.{Text, codes}
use rosetta_mq.Protocol.{Protocol}
use rosetta_mq.Auth.{Host}
use rosetta_mq.Decoder.Config.{DecoderConfig, Libraries}
use rosetta_mq.Decoder.Template.{Engine}
use rosetta_mq.Decoder.Protobuf.{Schemas}
use rosetta_mq.Decoder.Behaviour.{KeepsTemplates}
use rosetta_mq.Config.{Config, RefOr, ref, literal, TopicMapping, Toml}
use rosetta_mq.Client.{MqttLibrary, Transport}
use rosetta_mq.Client.Tls.{Rustls}
use rosetta_mq.Main.{Platform}

-- An environment is the source of its template, and rendering gives the source back.
abbrev pub templates : Engine
templates = record {
  Error = Unit;
  Environment = Text;
  Template = Text;
  Value = Unit;
  Json = Unit;
  JsonError = Unit;
  new = [];
  set_undefined_behavior = λ env _. env;
  add_template_owned = λ _ _ source. ok source;
  get_template = λ env _. ok env;
  render = λ template _. ok template;
  context = λ _. tt;
  of_json = λ _. tt;
  of_text = λ _. tt;
  of_bool = λ _. tt;
  of_number = λ _. tt;
  parse_json = λ _. err tt;
  hex_encode = λ _. codes "00";
  debug_qos = λ _. codes "AtLeastOnce";
  show_error = λ _. codes "error";
}

pub templates-KeepsTemplates : KeepsTemplates templates
templates-KeepsTemplates env env' source h = (env', refl)

-- A pool with no message type.
abbrev pub schemas : Schemas
schemas = record {
  CompileError = Unit;
  PoolError = Unit;
  WireError = Unit;
  JsonError = Unit;
  DescriptorSet = Unit;
  Pool = Unit;
  Descriptor = Unit;
  Message = Unit;
  compile = λ _ _. ok tt;
  from_file_descriptor_set = λ _. ok tt;
  get_message_by_name = λ _ _. none;
  decode_message = λ _ _. err tt;
  serialize = λ _ _. err tt;
  debug_path = λ p. p;
  debug_text = λ t. t;
  show_compile = λ _. codes "error";
  show_pool = λ _. codes "error";
  show_wire = λ _. codes "error";
  show_json = λ _. codes "error";
}

abbrev pub libraries : Libraries
libraries = record {
  hex_encode = λ _. codes "00";
  show_utf8_error = λ _. codes "invalid utf-8";
  engine = templates;
  schemas = schemas;
}

abbrev pub host : Host
host = record { IoError = Unit; VarError = Unit; read = λ _. err tt; env_var = λ _. err tt }

abbrev pub mapping : Text → Option (RefOr DecoderConfig) → TopicMapping
mapping topic_filter decoder = record { topic_filter = topic_filter; decoder = decoder }

-- A text decoder by name, a hex dump in place, and a topic with no decoder.
abbrev pub config : Config
config = record {
  connection = record {
    host = codes "localhost";
    port = 1883;
    client_id = codes "rosetta";
    auth = none;
    tls = false;
    protocol = Protocol.mqtt;
    allow_self_signed_certs = false;
  };
  topics =
      mapping (codes "a/+") (some (ref (codes "text")))
      ∷ mapping (codes "b") (some (literal DecoderConfig.hexdump))
      ∷ mapping (codes "c/#") none
      ∷ [];
  decoders = (codes "text", DecoderConfig.utf8) ∷ [];
  engine = record { max_concurrent_decodes = 4 };
}

-- Every file reads as `config`.
abbrev pub toml : Toml
toml = record {
  Value = Unit;
  Table = Unit;
  TomlError = Unit;
  from_str = λ _. ok tt;
  get_table = λ _ _. none;
  put_table = λ v _ _. v;
  has_key = λ _ _. false;
  insert_string = λ t _ _. t;
  try_into = λ _. ok config;
}

abbrev pub rustls : Rustls
rustls = record {
  Certificate = List ℕ;
  PrivateKey = List ℕ;
  RootCertStore = List (List ℕ);
  Verifier = Unit;
  ClientConfig = Unit;
  PemError = Unit;
  NativeError = Unit;
  TlsError = Unit;
  certs = λ pem. ok (pem ∷ []);
  private_key = λ pem. ok (some pem);
  native_certs = [];
  native_errors = [];
  empty_roots = [];
  add_parsable_certificates = λ _ certs. certs;
  with_custom_certificate_verifier = λ _. tt;
  with_root_certificates = λ _. tt;
  with_client_auth_cert = λ _ _ _. ok tt;
  with_no_client_auth = λ _. tt;
}

-- The options are the client's name, whether a transport was set, and the user's name.
abbrev pub mqtt_library : MqttLibrary Unit
mqtt_library = record {
  MqttOptions = Text × Option (Transport Unit) × Option Text;
  new = λ client_id _ _. (client_id, none, none);
  set_keep_alive = λ o _. o;
  set_transport = λ o t. (o.0, some t, o.2);
  set_credentials = λ o name _. (o.0, o.1, some name);
}

abbrev pub platform : Platform
platform = record {
  host = host;
  toml = toml;
  libraries = libraries;
  rustls = rustls;
  mqtt = mqtt_library;
  SubscribeError = Unit;
  read_to_string = λ _. ok [];
  subscribe = λ _ _ _. ok tt;
}
