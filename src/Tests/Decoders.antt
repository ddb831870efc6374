-- ===== src/Tests/Decoders.antt =====
-- Tests of the decoders.
use rosetta_mq.Prelude.{◌≡◌, refl, none, some, [], ◌∷◌, ◌⊎◌, ok, err}
use rosetta_mq.Text.{codes}
use rosetta_mq.Decoder.{ErasedDecoder, erased, erase_act, with_payload}
use rosetta_mq.Decoder.Config.{DecoderConfig, build}
use rosetta_mq.Mqtt.{Publish}
use rosetta_mq.Decoder.Emits.{sent}
use rosetta_mq.Decoder.Utf8.Sound.{IsText}
use rosetta_mq.Decoder.Utf8.Decoded.{IsPassed, IsRefused, utf8-IsDecoded}
use rosetta_mq.Tests.Fixtures.{packet}
use rosetta_mq.Tests.Tasks.{text_decoder, text_decoder_built}
use rosetta_mq.Decoder.Utf8.{utf8, utf8_decoder, from_utf8, char_width, validate}
use rosetta_mq.Decoder.Template.{template_decoder, TemplateConfig, strict}
use rosetta_mq.Decoder.Template
use rosetta_mq.Decoder.Behaviour.{AlwaysSingle, build-AlwaysSingle}
use rosetta_mq.Tests.Platforms.{libraries, templates, templates-KeepsTemplates}

from_utf8_tests :
    (from_utf8 (0x41 ∷ 0xc3 ∷ 0xa9 ∷ []) ≡ ok (0x41 ∷ 0xc3 ∷ 0xa9 ∷ []))
    × (from_utf8 (0x41 ∷ 0xff ∷ []) ≡ err (record { valid_up_to = 1; error_len = some 1 }))
    × (from_utf8 (0xe2 ∷ 0x82 ∷ []) ≡ err (record { valid_up_to = 0; error_len = none }))
    × (from_utf8 (0xed ∷ 0xa0 ∷ 0x80 ∷ []) ≡ err (record { valid_up_to = 0; error_len = some 1 }))
unfolding from_utf8 validate char_width
from_utf8_tests = (refl, refl, refl, refl)

abbrev greeting : TemplateConfig
greeting = record {
  template = codes "hello";
  undefined_behavior = Template.UndefinedBehavior.strict;
}

abbrev greeter : ErasedDecoder
greeter = erased (template_decoder templates (record { env = codes "hello" }))

greeter_built : build libraries (DecoderConfig.template greeting) (codes ".") ≡ ok greeter
unfolding build Template.from_config
greeter_built = refl

build-AlwaysSingle_example : AlwaysSingle greeter
build-AlwaysSingle_example =
    build-AlwaysSingle libraries (DecoderConfig.template greeting) (codes ".") greeter
      templates-KeepsTemplates greeter_built

-- An e with an acute accent, as text, and a byte that is none.
abbrev accented : Publish
accented = packet (codes "a/b") (0xc3 ∷ 0xa9 ∷ [])

abbrev broken : Publish
broken = packet (codes "a/b") (0x41 ∷ 0xff ∷ [])

utf8-IsDecoded_example :
    (IsText accented.payload × IsPassed text_decoder accented)
    ⊎ ((¬ IsText accented.payload) × IsRefused libraries text_decoder accented)
utf8-IsDecoded_example =
    utf8-IsDecoded libraries accented (codes ".") text_decoder text_decoder_built

text_decoder_runs :
    (sent (text_decoder.run accented) ≡ with_payload (0xc3 ∷ 0xa9 ∷ []) ∷ [])
    × (sent (text_decoder.run broken) ≡ [])
unfolding sent erased erase_act utf8_decoder utf8 from_utf8 validate char_width
text_decoder_runs = (refl, refl)
