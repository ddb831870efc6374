-- ===== src/Tests/Starts.antt =====
-- Tests of the configuration and of the start.
use rosetta_mq.Prelude.{◌≡◌, refl, ◌≢◌, ◌⊎◌, none, some, List, [], ◌∷◌, ok, err}
use rosetta_mq.Text.{codes, split}
use rosetta_mq.Mqtt.{at_least_once}
use rosetta_mq.Topic.{parse, rank_parts, rank}
use rosetta_mq.Protocol.{WebsocketConfig, normalize}
use rosetta_mq.Decoder.{ErasedDecoder, erased}
use rosetta_mq.Decoder.Utf8.{utf8_decoder}
use rosetta_mq.Decoder.Hexdump.{hexdump_decoder}
use rosetta_mq.Decoder.Config
use rosetta_mq.Decoder.Config.{DecoderConfig}
use rosetta_mq.Decoder.Registry
use rosetta_mq.Decoder.Registry.{register, new, RegistryEntry, duplicate_filter}
use rosetta_mq.Config.{
  Config, literal, TopicMapping, load, parse_config, validate, resolve, normalize_config,
}
use rosetta_mq.Config.Validate.{Verdict, validate-Verdict}
use rosetta_mq.Config.Parse.{IsReady, parse_config-IsReady}
use rosetta_mq.Client.{build_options}
use rosetta_mq.Client.Driver.{subscribe_all}
use rosetta_mq.Client.Subscribe.{Accepted, Refused, subscribe_all_lem}
use rosetta_mq.Main.{Platform, Started, panicked, registering, subscribing, add_mappings, startup}
use rosetta_mq.Main.Ready.{IsStarted, startup-IsStarted}
use rosetta_mq.Main.Failure.{Failure, startup-Failure}
use rosetta_mq.Main.NoPanic.{startup-no_panic}
use rosetta_mq.Tests.Platforms.{host, toml, config, mapping, platform, templates-KeepsTemplates}

abbrev bare_path : WebsocketConfig
bare_path = record { path = codes "mqtt" }

normalize_test : normalize bare_path ≡ record { path = codes "/mqtt" }
unfolding normalize
normalize_test = refl

validate-Verdict_example : Verdict host toml config (validate host toml config)
validate-Verdict_example = validate-Verdict host toml config

pub config_read : parse_config host toml (codes "any") ≡ ok config
unfolding parse_config normalize_config parse rank_parts rank split
config_read = refl

parse_config-IsReady_example : IsReady config
parse_config-IsReady_example = parse_config-IsReady host toml (codes "any") config config_read

subscribe_all_lem_example :
    Accepted (platform.subscribe (codes "rosetta", none, none)) (codes "a/+" ∷ codes "b" ∷ [])
    ⊎ Refused (platform.subscribe (codes "rosetta", none, none)) (codes "a/+" ∷ codes "b" ∷ [])
subscribe_all_lem_example =
    subscribe_all_lem (platform.subscribe (codes "rosetta", none, none))
      (codes "a/+" ∷ codes "b" ∷ [])

abbrev text_decoder : ErasedDecoder
text_decoder = erased (utf8_decoder (λ _. codes "invalid utf-8"))

abbrev hex_decoder : ErasedDecoder
hex_decoder = erased (hexdump_decoder (λ _. codes "00"))

abbrev pub entries : List (RegistryEntry ErasedDecoder)
entries =
    (record {
      filter = record { raw = codes "a/+"; specificity = 2 ∷ 1 ∷ [] };
      decoder = text_decoder;
    })
    ∷ (record { filter = record { raw = codes "b"; specificity = 2 ∷ [] }; decoder = hex_decoder })
    ∷ []

abbrev pub started : Started platform
started = record {
  registry = record { entries = entries };
  options = (codes "rosetta", none, none);
  subscribed =
      (codes "a/+", at_least_once) ∷ (codes "b", at_least_once) ∷ (codes "c/#", at_least_once) ∷ [];
  max_concurrent_decodes = 4;
}

mappings_added :
    add_mappings platform (codes "") config.decoders Registry.new config.topics
    ≡ ok (record { entries = entries })
unfolding add_mappings resolve Config.build parse rank_parts split rank register new
mappings_added = refl

pub startup_run : startup platform (codes "rosetta.toml") ≡ ok started
unfolding startup load parse_config normalize_config parse rank_parts split rank resolve
    Config.build register new build_options subscribe_all Registry.build
startup_run = refl

startup-IsStarted_example :
    (c : Config) × (load host toml platform.read_to_string (codes "rosetta.toml") ≡ ok c)
    × IsStarted platform (codes "rosetta.toml") c started
startup-IsStarted_example =
    startup-IsStarted platform (codes "rosetta.toml") started templates-KeepsTemplates startup_run

startup-no_panic_example :
    startup platform (codes "rosetta.toml")
    ≢ err (panicked (codes "decoder reference validated at config load"))
startup-no_panic_example =
    startup-no_panic platform (codes "rosetta.toml")
      (codes "decoder reference validated at config load")

-- The same filter twice.
abbrev twice : List TopicMapping
twice =
    mapping (codes "b") (some (literal DecoderConfig.hexdump))
    ∷ mapping (codes "b") (some (literal DecoderConfig.utf8))
    ∷ []

twice_refused :
    add_mappings platform (codes "") [] Registry.new twice
    ≡ err (registering (codes "b") (duplicate_filter (codes "b")))
unfolding add_mappings resolve Config.build parse rank_parts split rank register new
twice_refused = refl

-- The broker's client refuses every subscription.
abbrev refusing : Platform
refusing = record platform { subscribe = λ _ _ _. err tt }

refusing_run : startup refusing (codes "rosetta.toml") ≡ err (subscribing tt)
unfolding startup load parse_config normalize_config parse rank_parts split rank resolve
    Config.build register new build_options subscribe_all Registry.build
refusing_run = refl

startup-Failure_example : Failure refusing (codes "rosetta.toml") (subscribing tt)
startup-Failure_example =
    startup-Failure refusing (codes "rosetta.toml") (subscribing tt) refusing_run
