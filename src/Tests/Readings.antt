-- ===== src/Tests/Readings.antt =====
-- Tests of the tool for the sample payload, with messages that are the list of their fields.
use rosetta_mq.Prelude.{ℕ, ◌≡◌, refl, true, some, List, [], ◌∷◌, ◌++◌, Result, ok}
use rosetta_mq.Text.{Text, codes}
use rosetta_mq.Decoder.Protobuf.{Schemas}
use rosetta_mq.Examples.Reading.{Value, string, f64, bool, enum_number, Messages, sample, main}
use rosetta_mq.Tests.Platforms.{schemas}

abbrev listed : Schemas
listed = record schemas {
  Message = List (Text × Value);
  get_message_by_name = λ _ _. some tt;
  decode_message = λ _ _. ok [];
  serialize = λ _ _. ok [];
}

abbrev messages : Messages listed
messages = record {
  new = λ _. [];
  set_field_by_name = λ m name v. m ++ (name, v) ∷ [];
  encode_to_vec = λ _. codes "encoded";
}

abbrev stdout : List ℕ → Result (Unit {0}) Text
stdout _ = ok tt

sample_fields :
    sample listed messages tt
    ≡ (codes "device_id", string (codes "sensor-42"))
      ∷ (codes "temperature_c", f64 43 2)
      ∷ (codes "online", bool true)
      ∷ (codes "status", enum_number 1)
      ∷ []
unfolding sample
sample_fields = refl

main_run : main listed messages stdout (codes "/repo") ≡ ok (codes "encoded")
unfolding main sample
main_run = refl
