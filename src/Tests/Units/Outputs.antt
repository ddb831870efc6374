-- ===== src/Tests/Units/Outputs.antt =====
-- The tests at the end of src/decoder/hexdump.rs and src/decoder/utf8.rs, with a hex encoder.
use rosetta_mq.Prelude.{
  ℕ, ◌+◌, ◌/◌, ◌%◌, ◌≡◌, refl, Bool, true, false, ◌&&◌, Option, some, List, [], ◌∷◌, Result, ok,
  err, ltb, if◌then◌else◌,
}
use rosetta_mq.Text.{Text, codes, text_eq}
use rosetta_mq.Mqtt.{at_least_once, Publish}
use rosetta_mq.Decoder.{DecodePublish, DecodeError, Act}
use rosetta_mq.Decoder.Decimal.{decimal}
use rosetta_mq.Decoder.Emits.{sent, outcome}
use rosetta_mq.Decoder.Hexdump.{hexdump, hexdump_text}
use rosetta_mq.Decoder.Utf8.{utf8, from_utf8, validate, char_width}

abbrev hex_digit : ℕ → ℕ
hex_digit n = if ltb n 10 then 48 + n else 87 + n

abbrev hex_text : List ℕ → Text
hex_text [] = []
hex_text (b ∷ bs) = hex_digit (b / 16) ∷ hex_digit (b % 16) ∷ hex_text bs

-- `Publish::new("devices/42/raw", QoS::AtLeastOnce, payload)`
abbrev reading : List ℕ → Publish
reading payload = record {
  dup = false;
  qos = at_least_once;
  retain = false;
  topic = codes "devices/42/raw";
  pkid = 0;
  payload = payload;
}

abbrev is_success : {E : Type 0} → Option (Result (Unit {0}) (DecodeError E)) → Bool
is_success (some (ok _)) = true
is_success _ = false

abbrev is_failure : {E : Type 0} → Option (Result (Unit {0}) (DecodeError E)) → Bool
is_failure (some (err _)) = true
is_failure _ = false

abbrev first_payload : List DecodePublish → Text → Bool
first_payload [] expected = false
first_payload (m ∷ _) expected = text_eq m.payload expected

-- The decoder succeeds, and the message received first has this payload.
abbrev decodes_to : {E : Type 0} → Act E → Text → Bool
decodes_to a expected = is_success (outcome a) && first_payload (sent a) expected

abbrev hexdump_always_succeeds : Bool
hexdump_always_succeeds =
    decodes_to (hexdump hex_text (reading (0xDE ∷ 0xAD ∷ 0xBE ∷ 0xEF ∷ [])))
      (codes "deadbeef (4 bytes)")

abbrev utf8_decodes_valid_text : Bool
utf8_decodes_valid_text =
    decodes_to (utf8 (λ _. codes "invalid utf-8") (reading (codes "hello device")))
      (codes "hello device")

abbrev utf8_fails_on_invalid_bytes : Bool
utf8_fails_on_invalid_bytes =
    is_failure (outcome (utf8 (λ _. codes "invalid utf-8") (reading (0xff ∷ 0xfe ∷ []))))

output_tests :
    (hexdump_always_succeeds ≡ true)
    × (utf8_decodes_valid_text ≡ true)
    × (utf8_fails_on_invalid_bytes ≡ true)
unfolding hexdump hexdump_text decimal sent outcome text_eq utf8 from_utf8 validate char_width
output_tests = (refl, refl, refl)
