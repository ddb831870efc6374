-- ===== src/Tests/Units/Topics.antt =====
-- The tests at the end of src/topic.rs, with the matching segment by segment.
use rosetta_mq.Prelude.{◌≡◌, refl, Bool, true, false, not, ◌&&◌, [], Ordering}
use rosetta_mq.Text.{Text, codes, split, text_eq, contains}
use rosetta_mq.Topic.{
  TopicFilter, TopicError, hash_not_last, invalid_wildcard_segment, empty, parse, rank_parts, rank,
  cmp, lex_cmp, filter_matches,
}
use rosetta_mq.Topic.Covers.{covers}
use rosetta_mq.Tests.Fixtures.{broker}
use rosetta_mq.Tests.Units.{unwrap_and, unwrap_err_and}

-- `f.matches(topic)`
abbrev hits : TopicFilter → Text → Bool
hits = filter_matches broker

-- `f > g`
abbrev is_above : TopicFilter → TopicFilter → Bool
is_above f g = elim (cmp f g) [ Ordering.gt ↦ true | _ ↦ false ]

abbrev is_hash_not_last : Text → TopicError → Bool
is_hash_not_last raw (hash_not_last text) = text_eq text raw
is_hash_not_last raw _ = false

abbrev is_invalid_wildcard_segment : TopicError → Bool
is_invalid_wildcard_segment (invalid_wildcard_segment _ _) = true
is_invalid_wildcard_segment _ = false

abbrev is_empty_filter : TopicError → Bool
is_empty_filter empty = true
is_empty_filter _ = false

abbrev matches_exact_literal : Bool
matches_exact_literal = unwrap_and (parse (codes "devices/42/raw")) (λ f.
    hits f (codes "devices/42/raw")
    && not (hits f (codes "devices/43/raw"))
    && not (hits f (codes "devices/42/raw/extra")))

abbrev matches_single_level_wildcard : Bool
matches_single_level_wildcard = unwrap_and (parse (codes "devices/+/raw")) (λ f.
    hits f (codes "devices/42/raw")
    && hits f (codes "devices/anything/raw")
    && not (hits f (codes "devices/42/43/raw"))
    && not (hits f (codes "devices/raw")))

abbrev matches_multi_level_wildcard : Bool
matches_multi_level_wildcard = unwrap_and (parse (codes "sensors/#")) (λ f.
    hits f (codes "sensors")
    && hits f (codes "sensors/a")
    && hits f (codes "sensors/a/b/c")
    && not (hits f (codes "other/a")))

abbrev matches_bare_hash : Bool
matches_bare_hash = unwrap_and (parse (codes "#")) (λ f. hits f (codes "anything/at/all"))

abbrev rejects_hash_not_last : Bool
rejects_hash_not_last = unwrap_err_and (parse (codes "a/#/b")) (is_hash_not_last (codes "a/#/b"))

abbrev rejects_mixed_wildcard_segment : Bool
rejects_mixed_wildcard_segment =
    unwrap_err_and (parse (codes "a/b#/c")) is_invalid_wildcard_segment
    && unwrap_err_and (parse (codes "a/+b/c")) is_invalid_wildcard_segment

abbrev rejects_empty_filter : Bool
rejects_empty_filter = unwrap_err_and (parse []) is_empty_filter

abbrev specificity_ranks_exact_over_plus_over_hash : Bool
specificity_ranks_exact_over_plus_over_hash = unwrap_and (parse (codes "devices/42/raw")) (λ exact.
    unwrap_and (parse (codes "devices/+/raw")) (λ plus.
      unwrap_and (parse (codes "devices/#")) (λ hash. is_above exact plus && is_above plus hash)))

abbrev specificity_bare_hash_loses_to_prefixed_hash : Bool
specificity_bare_hash_loses_to_prefixed_hash =
    unwrap_and (parse (codes "#"))
      (λ bare. unwrap_and (parse (codes "a/#")) (λ prefixed. is_above prefixed bare))

topic_tests :
    (matches_exact_literal ≡ true)
    × (matches_single_level_wildcard ≡ true)
    × (matches_multi_level_wildcard ≡ true)
    × (matches_bare_hash ≡ true)
    × (rejects_hash_not_last ≡ true)
    × (rejects_mixed_wildcard_segment ≡ true)
    × (rejects_empty_filter ≡ true)
    × (specificity_ranks_exact_over_plus_over_hash ≡ true)
    × (specificity_bare_hash_loses_to_prefixed_hash ≡ true)
unfolding parse rank_parts rank split text_eq contains cmp lex_cmp broker covers
topic_tests = (refl, refl, refl, refl, refl, refl, refl, refl, refl)
