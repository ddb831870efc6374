-- ===== src/Topic.antt =====
-- src/topic.rs: parsing a topic filter, and the order of filters by specificity. The proofs stand
-- in the children. `Self::matches` calls `rumqttc::mqttbytes::matches`, which is a parameter of
-- every definition that uses it.
pub mod Segments
pub mod Parse
pub mod Order
pub mod Covers
use rosetta_mq.Prelude.{
  ℕ, suc, ◌+◌, ◌-◌, Bool, ◌||◌, List, [], ◌∷◌, ◌++◌, compare, Ordering, Result, ok, err, ◌>>=◌,
  ◌==◌, if◌then◌else◌, length, is_empty,
}
use rosetta_mq.Text.{Text, text_eq, contains, split}

pub data TopicError : Type 0 where
  empty : TopicError
  hash_not_last : Text → TopicError
  invalid_wildcard_segment : Text → Text → TopicError

pub record TopicFilter : Type 0 where
  pub raw : Text
  pub specificity : List ℕ

abbrev pub slash : ℕ
slash = b'/'

abbrev pub hash : ℕ
hash = b'#'

abbrev pub plus : ℕ
plus = b'+'

-- The `match` in the loop of `parse`: the rank of the part at index `i`.
unfoldable pub rank : Text → ℕ → ℕ → Text → Result ℕ TopicError
unfolding text_eq contains
rank raw last i part =
    if text_eq part (hash ∷ [])
    then (if i == last then ok 0 else err (hash_not_last raw))
    else if text_eq part (plus ∷ [])
    then ok 1
    else if contains part hash || contains part plus
    then err (invalid_wildcard_segment part raw)
    else ok 2

-- The loop of `parse` over `parts.iter().enumerate()`; the last argument is what was pushed.
unfoldable pub rank_parts : Text → ℕ → ℕ → List Text → List ℕ → Result (List ℕ) TopicError
rank_parts raw last i [] specificity = ok specificity
rank_parts raw last i (part ∷ parts) specificity = do
  r ← rank raw last i part
  rank_parts raw last (suc i) parts (specificity ++ r ∷ [])

unfoldable pub parse : Text → Result TopicFilter TopicError
parse raw = if is_empty raw then err empty else do
  let parts = split slash raw
  let last = length parts - 1
  specificity ← rank_parts raw last 0 parts []
  ok (record { raw = raw; specificity = specificity })

-- `TopicFilter::matches`, over rumqttc's function of the topic and the filter's text.
abbrev pub filter_matches : (Text → Text → Bool) → TopicFilter → Text → Bool
filter_matches matches f topic = matches topic f.raw

-- `Ordering::then`.
abbrev pub then_cmp : Ordering → Ordering → Ordering
then_cmp Ordering.eq o = o
then_cmp Ordering.lt o = Ordering.lt
then_cmp Ordering.gt o = Ordering.gt

-- `Vec<u8>::cmp`: lexicographic, and a proper prefix comes first.
unfoldable pub lex_cmp : List ℕ → List ℕ → Ordering
lex_cmp [] [] = Ordering.eq
lex_cmp [] (_ ∷ _) = Ordering.lt
lex_cmp (_ ∷ _) [] = Ordering.gt
lex_cmp (x ∷ xs) (y ∷ ys) = then_cmp (compare x y) (lex_cmp xs ys)

-- `impl Ord for TopicFilter`; `partial_cmp` is this under `Some`.
unfoldable pub cmp : TopicFilter → TopicFilter → Ordering
unfolding lex_cmp
cmp f g = lex_cmp f.specificity g.specificity
