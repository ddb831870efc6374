-- ===== src/Tests/Units/Registrations.antt =====
-- The tests at the end of src/decoder/registry.rs.
use rosetta_mq.Prelude.{◌≡◌, refl, Bool, true, ◌&&◌, filter}
use rosetta_mq.Text.{Text, codes, split, text_eq, contains}
use rosetta_mq.Topic.{parse, rank_parts, rank, cmp, lex_cmp}
use rosetta_mq.Topic.Covers.{covers}
use rosetta_mq.Decoder.{ErasedDecoder, erased}
use rosetta_mq.Decoder.Hexdump.{hexdump_decoder}
use rosetta_mq.Decoder.Utf8.{utf8_decoder}
use rosetta_mq.Decoder.Registry.{
  RegistryError, duplicate_filter, DecoderRegistryBuilder, DecoderRegistry, new, register, build,
  resolve, max_by_filter, max_from,
}
use rosetta_mq.Tests.Fixtures.{broker}
use rosetta_mq.Tests.Units.{unwrap_and, unwrap_err_and, is_some_and, is_none}

abbrev utf8_entry : ErasedDecoder
utf8_entry = erased (utf8_decoder (λ _. codes "invalid utf-8"))

abbrev hexdump_entry : ErasedDecoder
hexdump_entry = erased (hexdump_decoder (λ _. codes "00"))

abbrev Registering : Type 0
Registering = DecoderRegistryBuilder ErasedDecoder

-- The first registration of each test.
abbrev with_wildcard : (Registering → Bool) → Bool
with_wildcard rest =
    unwrap_and (parse (codes "devices/+/raw")) (λ f. unwrap_and (register new f utf8_entry) rest)

-- `registry.resolve(topic).unwrap().name()` is this name.
abbrev resolves_to : DecoderRegistry ErasedDecoder → Text → Text → Bool
resolves_to registry topic name =
    is_some_and (resolve broker registry topic) (λ d. text_eq d.name name)

abbrev resolves_most_specific_match : Bool
resolves_most_specific_match = with_wildcard (λ b. unwrap_and (parse (codes "devices/42/raw")) (λ f.
    unwrap_and (register b f hexdump_entry) (λ c.
      resolves_to (build c) (codes "devices/42/raw") (codes "hexdump")
      && resolves_to (build c) (codes "devices/99/raw") (codes "utf8"))))

abbrev resolve_returns_none_when_no_filter_matches : Bool
resolve_returns_none_when_no_filter_matches =
    with_wildcard (λ b. is_none (resolve broker (build b) (codes "sensors/1")))

abbrev is_duplicate : Text → RegistryError → Bool
is_duplicate raw (duplicate_filter text) = text_eq text raw

abbrev register_rejects_duplicate_filter_strings : Bool
register_rejects_duplicate_filter_strings = with_wildcard (λ b.
    unwrap_and (parse (codes "devices/+/raw"))
      (λ f. unwrap_err_and (register b f hexdump_entry) (is_duplicate (codes "devices/+/raw"))))

registry_tests :
    (resolves_most_specific_match ≡ true)
    × (resolve_returns_none_when_no_filter_matches ≡ true)
    × (register_rejects_duplicate_filter_strings ≡ true)
unfolding parse rank_parts rank split text_eq contains cmp lex_cmp broker covers new register build
    resolve max_by_filter max_from filter erased hexdump_decoder utf8_decoder
registry_tests = (refl, refl, refl)
