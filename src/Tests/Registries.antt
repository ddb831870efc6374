-- ===== src/Tests/Registries.antt =====
-- Tests of the registry.
use rosetta_mq.Prelude.{
  ℕ, ◌≡◌, refl, ◌≢◌, ◌↔◌, ◌⊎◌, true, false, none, some, List, [], ◌∷◌, ◌++◌, ok, err, In, here,
  there, filter,
}
use rosetta_mq.Text.{Text, codes, split, contains, text_eq}
use rosetta_mq.Topic.{rank_parts, rank, parse, cmp}
use rosetta_mq.Topic.Covers.{covers}
use rosetta_mq.Decoder.Registry.{
  duplicate_filter, RegistryEntry, DecoderRegistryBuilder, DecoderRegistry, register, resolve,
}
use rosetta_mq.Decoder.Registry.Build.{
  IsWellFormed, IsParsed, register-IsWellFormed, register-err_iff,
}
use rosetta_mq.Decoder.Registry.Resolve.{IsBest, resolve-IsBest}
use rosetta_mq.Decoder.Registry.Precedence.{
  IsName, resolve_same_entries, resolve_exact, resolve_child_hash,
}
use rosetta_mq.Tests.Fixtures.{broker, broker-OnlyCovers}

abbrev entry : Text → List ℕ → ℕ → RegistryEntry ℕ
entry raw specificity decoder = record {
  filter = record { raw = raw; specificity = specificity };
  decoder = decoder;
}

abbrev topic : Text
topic = codes "a/b"

abbrev exact : RegistryEntry ℕ
exact = entry topic (2 ∷ 2 ∷ []) 1

abbrev wild : RegistryEntry ℕ
wild = entry (codes "a/+") (2 ∷ 1 ∷ []) 2

abbrev child : RegistryEntry ℕ
child = entry (codes "a/b/#") (2 ∷ 2 ∷ 0 ∷ []) 3

abbrev registry_of : List (RegistryEntry ℕ) → DecoderRegistry ℕ
registry_of entries = record { entries = entries }

exact-IsParsed : IsParsed exact
unfolding parse rank_parts rank split
exact-IsParsed = refl

wild-IsParsed : IsParsed wild
unfolding parse rank_parts rank split
wild-IsParsed = refl

child-IsParsed : IsParsed child
unfolding parse rank_parts rank split
child-IsParsed = refl

a_b-IsName : IsName topic
unfolding split contains
a_b-IsName =
    (record { no_hash = refl; no_plus = refl }, (record { no_hash = refl; no_plus = refl }, tt))

two-IsWellFormed : IsWellFormed (exact ∷ wild ∷ [])
two-IsWellFormed = record {
  parsed = (exact-IsParsed, (wild-IsParsed, tt));
  distinct = ((λ e. cc e, tt), (tt, tt));
}

swapped-IsWellFormed : IsWellFormed (wild ∷ exact ∷ [])
swapped-IsWellFormed = record {
  parsed = (wild-IsParsed, (exact-IsParsed, tt));
  distinct = ((λ e. cc e, tt), (tt, tt));
}

nested-IsWellFormed : IsWellFormed (exact ∷ child ∷ [])
nested-IsWellFormed = record {
  parsed = (exact-IsParsed, (child-IsParsed, tt));
  distinct = ((λ e. cc e, tt), (tt, tt));
}

resolve_tests :
    (resolve broker (registry_of (wild ∷ exact ∷ [])) topic ≡ some 1)
    × (resolve broker (registry_of (wild ∷ exact ∷ [])) (codes "a/c") ≡ some 2)
    × (resolve broker (registry_of (wild ∷ exact ∷ child ∷ [])) topic ≡ some 3)
    × (resolve broker (registry_of (wild ∷ exact ∷ [])) (codes "c") ≡ none)
unfolding resolve broker filter covers split cmp
resolve_tests = (refl, refl, refl, refl)

abbrev builder_of : List (RegistryEntry ℕ) → DecoderRegistryBuilder ℕ
builder_of entries = record { entries = entries }

only_exact-IsWellFormed : IsWellFormed (exact ∷ [])
only_exact-IsWellFormed = record { parsed = (exact-IsParsed, tt); distinct = (tt, tt) }

register-wild :
    register (builder_of (exact ∷ [])) wild.filter 2 ≡ ok (builder_of (exact ∷ wild ∷ []))
unfolding register text_eq
register-wild = refl

register-IsWellFormed_example :
    IsWellFormed (exact ∷ wild ∷ []) × (exact ∷ wild ∷ [] ≡ (exact ∷ []) ++ wild ∷ [])
register-IsWellFormed_example =
    register-IsWellFormed (builder_of (exact ∷ [])) (builder_of (exact ∷ wild ∷ [])) (codes "a/+")
      wild.filter 2 only_exact-IsWellFormed wild-IsParsed register-wild

register-err_iff_example :
    (register (builder_of (exact ∷ [])) exact.filter 9 ≡ err (duplicate_filter topic)) ↔ (
      (duplicate_filter topic ≡ duplicate_filter topic)
      × ((e : RegistryEntry ℕ) × In e (exact ∷ []) × (e.filter.raw ≡ topic)))
register-err_iff_example =
    register-err_iff (builder_of (exact ∷ [])) exact.filter 9 (duplicate_filter topic)

resolve-IsBest_example :
    ((resolve broker (registry_of (exact ∷ wild ∷ [])) topic ≡ none)
      × ((e : RegistryEntry ℕ) → In e (exact ∷ wild ∷ []) → broker topic e.filter.raw ≡ false))
    ⊎ ((e : RegistryEntry ℕ) × (resolve broker (registry_of (exact ∷ wild ∷ [])) topic
          ≡ some e.decoder)
        × IsBest broker topic (exact ∷ wild ∷ []) e)
resolve-IsBest_example = resolve-IsBest broker topic (registry_of (exact ∷ wild ∷ []))

swapped : (e : RegistryEntry ℕ) → In e (exact ∷ wild ∷ []) ↔ In e (wild ∷ exact ∷ [])
swapped e = (swap, swap)
  where
    swap : {x y : RegistryEntry ℕ} → In e (x ∷ y ∷ []) → In e (y ∷ x ∷ [])
    swap here = there here
    swap (there here) = here
    swap (there (there m)) = elim m [ ]

resolve_same_entries_example :
    resolve broker (registry_of (exact ∷ wild ∷ [])) topic
    ≡ resolve broker (registry_of (wild ∷ exact ∷ [])) topic
resolve_same_entries_example =
    resolve_same_entries broker broker-OnlyCovers (registry_of (exact ∷ wild ∷ []))
      (registry_of (wild ∷ exact ∷ [])) topic two-IsWellFormed swapped-IsWellFormed swapped

covers_itself : broker topic topic ≡ true
unfolding broker covers split text_eq
covers_itself = refl

covered_by_child : broker topic (topic ++ codes "/#") ≡ true
unfolding broker covers split text_eq
covered_by_child = refl

no_child : (f : RegistryEntry ℕ) → In f (exact ∷ wild ∷ []) → f.filter.raw ≢ topic ++ codes "/#"
no_child f here e = cc e
no_child f (there here) e = cc e
no_child f (there (there m)) e = elim m [ ]

resolve_exact_example : resolve broker (registry_of (exact ∷ wild ∷ [])) topic ≡ some 1
resolve_exact_example =
    resolve_exact broker broker-OnlyCovers (registry_of (exact ∷ wild ∷ [])) topic exact
      two-IsWellFormed a_b-IsName here refl covers_itself no_child

resolve_child_hash_example : resolve broker (registry_of (exact ∷ child ∷ [])) topic ≡ some 3
resolve_child_hash_example =
    resolve_child_hash broker broker-OnlyCovers (registry_of (exact ∷ child ∷ [])) topic exact child
      nested-IsWellFormed a_b-IsName here (there here) refl refl covers_itself covered_by_child
