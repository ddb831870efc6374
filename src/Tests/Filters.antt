-- ===== src/Tests/Filters.antt =====
-- Tests of topic filters.
use rosetta_mq.Prelude.{◌≡◌, refl, ◌≢◌, ◌↔◌, ◌⊎◌, [], ◌∷◌, ok, err}
use rosetta_mq.Text.{codes, split}
use rosetta_mq.Topic.{
  TopicFilter, hash_not_last, invalid_wildcard_segment, empty, slash, rank_parts, rank, parse,
}
use rosetta_mq.Topic.Segments.{Ranked, Fault}
use rosetta_mq.Topic.Parse.{parse-ok_iff, parse-err_iff}

abbrev raw_filter : TopicFilter
raw_filter = record { raw = codes "devices/+/raw"; specificity = 2 ∷ 1 ∷ 2 ∷ [] }

parse_tests :
    (parse (codes "devices/+/raw") ≡ ok raw_filter)
    × (parse (codes "a/#/b") ≡ err (hash_not_last (codes "a/#/b")))
    × (parse (codes "a/b+/c") ≡ err (invalid_wildcard_segment (codes "b+") (codes "a/b+/c")))
    × (parse [] ≡ err empty)
    × (parse (codes "#") ≡ ok (record { raw = codes "#"; specificity = 0 ∷ [] }))
unfolding parse rank_parts rank split
parse_tests = (refl, refl, refl, refl, refl)

parse-ok_iff_example : (parse (codes "devices/+/raw") ≡ ok raw_filter) ↔ (
    (codes "devices/+/raw" ≢ [])
    × (raw_filter.raw ≡ codes "devices/+/raw")
    × Ranked (split slash (codes "devices/+/raw")) raw_filter.specificity)
parse-ok_iff_example = parse-ok_iff (codes "devices/+/raw") raw_filter

parse-err_iff_example : (parse (codes "a/#/b") ≡ err (hash_not_last (codes "a/#/b"))) ↔ (
    ((codes "a/#/b" ≡ []) × (hash_not_last (codes "a/#/b") ≡ empty))
    ⊎ ((codes "a/#/b" ≢ [])
        × Fault (codes "a/#/b") (split slash (codes "a/#/b")) (hash_not_last (codes "a/#/b"))))
parse-err_iff_example = parse-err_iff (codes "a/#/b") (hash_not_last (codes "a/#/b"))
