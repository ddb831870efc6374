-- ===== src/Tests/Units/Documents.antt =====
-- The documents of the tests at the end of src/config.rs, as the values that their text parses to, and
-- a library that parses every text to one value.
use rosetta_mq.Prelude.{ℕ, Bool, true, false, none, List, [], ◌∷◌, Result, ok}
use rosetta_mq.Text.{Text, codes}
use rosetta_mq.Config.{Config, ConfigError, parse_config}
use rosetta_mq.Config.Document.{
  Value, Values, Table, string, integer, pos, boolean, array, table, no_values, item, no_entries,
  entry,
}
use rosetta_mq.Config.Read.{OtherShapes, Library, toml_of}
use rosetta_mq.Tests.Platforms.{host}

abbrev pub no_other_shapes : OtherShapes
no_other_shapes = record {
  undefined_behavior = λ _. none;
  template = λ _. none;
  protobuf = λ _. none;
  decoder = λ _. none;
  env = λ _. none;
  auth = λ _. none;
  engine = λ _. none;
  topic = λ _. none;
  config = λ _. none;
}

-- The text of a refusal.
abbrev pub parsed_as : Result Value Text → Library
parsed_as parsed = record {
  TomlError = Text;
  from_str = λ _. parsed;
  refused = λ _. codes "refused";
  other = no_other_shapes;
}

abbrev pub Error : Result Value Text → Type 0
Error parsed = ConfigError host (toml_of (parsed_as parsed))

abbrev pub is_parse : {r : Result Value Text} → Error r → Bool
is_parse (ConfigError.parse _) = true
is_parse _ = false

-- `Config::parse` of the text of a document.
abbrev pub parse : (t : Table) → Result Config (Error (ok (table t)))
parse t = parse_config host (toml_of (parsed_as (ok (table t)))) (codes "text")

abbrev pub text : Text → Text → Table → Table
text key s rest = entry key (string s) rest

abbrev pub number : Text → ℕ → Table → Table
number key n rest = entry key (integer (pos n)) rest

abbrev pub flag : Text → Bool → Table → Table
flag key b rest = entry key (boolean b) rest

abbrev pub section : Text → Table → Table → Table
section key inner rest = entry key (table inner) rest

-- Blocks of the same name, `[[topic]]`.
abbrev pub blocks : List Table → Values
blocks [] = no_values
blocks (t ∷ ts) = item (table t) (blocks ts)

abbrev pub topics : List Table → Table → Table
topics ts rest = entry (codes "topic") (array (blocks ts)) rest

abbrev pub one_topic : Text → Table → Table → Table
one_topic filter more rest = topics (text (codes "topic_filter") filter more ∷ []) rest

abbrev pub by_name : Text → Table
by_name decoder = text (codes "decoder") decoder no_entries

-- The connection of most tests, with more fields.
abbrev pub connection : ℕ → Bool → Table → Table
connection port tls more = text (codes "host") (codes "127.0.0.1") (
    number (codes "port") port (text (codes "client_id") (codes "x") (flag (codes "tls") tls more)))

-- A document with that connection, at port 1883 without TLS, and more sections.
abbrev pub document : Table → Table
document more = section (codes "connection") (connection 1883 false no_entries) more

-- A document of a connection alone.
abbrev pub connected : Table → Table
connected c = section (codes "connection") c no_entries

-- `VALID`
abbrev pub valid : Table
valid =
    section (codes "connection")
      (text (codes "host") (codes "127.0.0.1") (
        number (codes "port") 1883
          (text (codes "client_id") (codes "rosetta-mq") (flag (codes "tls") false no_entries))))
      (section (codes "decoder")
        (section (codes "utf8") (text (codes "decoder") (codes "utf8") no_entries) (
          section (codes "hex") (text (codes "decoder") (codes "hexdump") no_entries) (
            section (codes "proto")
              (text (codes "decoder") (codes "protobuf") (
                text (codes "proto_file") (codes "schemas/device.proto")
                  (text (codes "message_type") (codes "device.v1.DeviceReading") no_entries)))
              no_entries)))
        (topics
          (topic (codes "devices/+/raw") (codes "utf8")
            ∷ topic (codes "sensors/#") (codes "hex")
            ∷ topic (codes "devices/+/proto") (codes "proto")
            ∷ [])
          no_entries))
  where
    topic : Text → Text → Table
    topic filter decoder =
        text (codes "topic_filter") filter (text (codes "decoder") decoder no_entries)
