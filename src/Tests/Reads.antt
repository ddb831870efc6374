-- ===== src/Tests/Reads.antt =====
-- Tests of the documents that configurations are read from.
use rosetta_mq.Prelude.{◌≡◌, refl, false, none, some, [], ◌∷◌, ok, arith}
use rosetta_mq.Text.{codes, split}
use rosetta_mq.Topic
use rosetta_mq.Topic.{rank_parts, rank}
use rosetta_mq.Protocol.{Protocol}
use rosetta_mq.Decoder.Config.{DecoderConfig}
use rosetta_mq.Config.{
  Config, ref, parse_config, inject_protocol, validate, check_topics, check_mapping, check_decoder,
}
use rosetta_mq.Config.Parse.{parse_config-IsReady}
use rosetta_mq.Config.Document.{table, replace}
use rosetta_mq.Config.Read.{Library, toml_of, read_config}
use rosetta_mq.Config.Read.Written.{write_config}
use rosetta_mq.Config.Read.RoundTrip.{parse_config-write}
use rosetta_mq.Config.Read.Source.{IsReadFrom, parse_config-IsReadFrom}
use rosetta_mq.Tests.Platforms.{host, toml, config, mapping}
use rosetta_mq.Tests.Starts.{config_read}
use rosetta_mq.Tests.Units.Documents.{parsed_as, parse, valid}

abbrev library : Library
library = parsed_as (ok (write_config config))

parse_config-write_example : parse_config host (toml_of library) (codes "text") ≡ ok config
parse_config-write_example =
    parse_config-write host library (codes "text") config refl (omega arith)
      (parse_config-IsReady host toml (codes "any") config config_read)

-- The configuration of the document of the unit tests, which names no protocol.
abbrev valid_config : Config
valid_config = record {
  connection = record {
    host = codes "127.0.0.1";
    port = 1883;
    client_id = codes "rosetta-mq";
    auth = none;
    tls = false;
    protocol = Protocol.mqtt;
    allow_self_signed_certs = false;
  };
  topics =
      mapping (codes "devices/+/raw") (some (ref (codes "utf8")))
      ∷ mapping (codes "sensors/#") (some (ref (codes "hex")))
      ∷ mapping (codes "devices/+/proto") (some (ref (codes "proto")))
      ∷ [];
  decoders =
      (codes "utf8", DecoderConfig.utf8)
      ∷ (codes "hex", DecoderConfig.hexdump)
      ∷ (
        codes "proto",
        DecoderConfig.protobuf (record {
          proto_file = codes "schemas/device.proto";
          message_type = codes "device.v1.DeviceReading";
          include_paths = [];
        }),
      )
      ∷ [];
  engine = record { max_concurrent_decodes = 100 };
}

valid_read : parse valid ≡ ok valid_config
unfolding parse_config inject_protocol validate check_topics check_mapping check_decoder read_config
    replace Topic.parse rank_parts split rank
valid_read = refl

parse_config-IsReadFrom_example :
    IsReadFrom host (parsed_as (ok (table valid))) valid valid_config.connection
parse_config-IsReadFrom_example =
    parse_config-IsReadFrom host (parsed_as (ok (table valid))) (codes "text") valid valid_config
      refl valid_read
