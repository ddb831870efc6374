-- ===== src/Examples/Reading.antt =====
-- examples/encode_device_reading.rs: the sample payload for the protobuf decoder. The messages of the
-- protobuf library are a parameter, `Messages`.
use rosetta_mq.Prelude.{ℕ, Bool, true, List, [], ◌∷◌, ◌++◌, Result, ok, ◌>>=◌, ok_or}
use rosetta_mq.Text.{Text, codes}
use rosetta_mq.Util.{FilePath}
use rosetta_mq.Decoder.Protobuf.{Schemas}
use rosetta_mq.Examples.{Panic, panicked, unwrap}

-- `prost_reflect::Value`, as far as it is used; a `f64` is a fraction.
pub data Value : Type 0 where
  string : Text → Value
  f64 : (numerator denominator : ℕ) → Value
  bool : Bool → Value
  enum_number : ℕ → Value

-- What the source calls of `DynamicMessage`.
pub record Messages (p : Schemas) : Type 0 where
  pub new : p.Descriptor → p.Message
  pub set_field_by_name : p.Message → Text → Value → p.Message
  pub encode_to_vec : p.Message → List ℕ

abbrev pub proto_file : FilePath → FilePath
proto_file manifest_dir = manifest_dir ++ codes "/tests/fixtures/protobuf/device.proto"

abbrev pub fixtures_dir : FilePath → FilePath
fixtures_dir manifest_dir = manifest_dir ++ codes "/tests/fixtures"

abbrev pub message_name : Text
message_name = codes "device.v1.DeviceReading"

module _ (p : Schemas) (ms : Messages p) where
  -- The message with its fields set.
  unfoldable pub sample : p.Descriptor → p.Message
  sample descriptor =
      let m0 = ms.new descriptor in
      let m1 = ms.set_field_by_name m0 (codes "device_id") (string (codes "sensor-42")) in
      let m2 = ms.set_field_by_name m1 (codes "temperature_c") (f64 43 2) in
      let m3 = ms.set_field_by_name m2 (codes "online") (bool true) in
      ms.set_field_by_name m3 (codes "status") (enum_number 1)

  -- `main`, with the bytes that it has written.
  unfoldable pub main :
      {IoError : Type 0}
      → (write_all : List ℕ → Result (Unit {0}) IoError) → (manifest_dir : FilePath)
      → Result (List ℕ) Panic
  unfolding sample
  main write_all manifest_dir = do
    set ← unwrap (p.compile (proto_file manifest_dir ∷ []) (fixtures_dir manifest_dir ∷ []))
    pool ← unwrap (p.from_file_descriptor_set set)
    descriptor ← ok_or panicked (p.get_message_by_name pool message_name)
    let bytes = ms.encode_to_vec (sample descriptor)
    _ ← unwrap (write_all bytes)
    ok bytes
