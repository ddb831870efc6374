-- ===== src/Decoder/Hexdump.antt =====
-- src/decoder/hexdump.rs. The `hex` library's `encode` is a parameter.
use rosetta_mq.Prelude.{ℕ, ◌++◌, List, length}
use rosetta_mq.Text.{Text, codes}
use rosetta_mq.Mqtt.{Publish}
use rosetta_mq.Decoder.{Act, send_last, with_payload, Decoder}
use rosetta_mq.Decoder.Decimal.{decimal}

-- `std::convert::Infallible`.
pub data Infallible : Type 0 where

module _ (hex_encode : List ℕ → Text) where
  -- `format!("{} ({} bytes)", …)`
  unfoldable pub hexdump_text : List ℕ → Text
  hexdump_text payload =
      hex_encode payload ++ codes " (" ++ decimal (length payload) ++ codes " bytes)"

  unfoldable pub hexdump : Publish → Act Infallible
  hexdump publish = send_last (with_payload (hexdump_text publish.payload))

  unfoldable pub hexdump_decoder : Decoder
  hexdump_decoder = record {
    Error = Infallible;
    display = λ e. elim e [ ];
    name = codes "hexdump";
    run = hexdump;
  }
