-- ===== src/Tests/Units/Rooted.antt =====
-- The tests at the end of src/protocol.rs of the default and of the normal form. Those that read
-- TOML are in Tests/Units/Tables.
use rosetta_mq.Prelude.{◌≡◌, refl, Bool, true, false, []}
use rosetta_mq.Text.{Text, codes, text_eq, starts_with}
use rosetta_mq.Protocol.{Protocol, default_protocol, normalize}

abbrev protocol_default_is_mqtt : Bool
protocol_default_is_mqtt = elim default_protocol [ Protocol.mqtt ↦ true | Protocol.ws _ ↦ false ]

-- The path after `cfg.normalize()`.
abbrev normal_path : Text → Text
normal_path path = (normalize (record { path = path })).path

abbrev normalize_leaves_empty_path_as_is : Bool
normalize_leaves_empty_path_as_is = text_eq (normal_path []) []

abbrev normalize_leaves_path_starting_with_slash_as_is : Bool
normalize_leaves_path_starting_with_slash_as_is =
    text_eq (normal_path (codes "/mqtt")) (codes "/mqtt")

abbrev normalize_adds_leading_slash_when_missing : Bool
normalize_adds_leading_slash_when_missing = text_eq (normal_path (codes "mqtt")) (codes "/mqtt")

protocol_tests :
    (protocol_default_is_mqtt ≡ true)
    × (normalize_leaves_empty_path_as_is ≡ true)
    × (normalize_leaves_path_starting_with_slash_as_is ≡ true)
    × (normalize_adds_leading_slash_when_missing ≡ true)
unfolding normalize text_eq starts_with
protocol_tests = (refl, refl, refl, refl)
