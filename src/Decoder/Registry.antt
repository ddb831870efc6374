-- ===== src/Decoder/Registry.antt =====
-- src/decoder/registry.rs: the decoder of the most specific filter that matches a topic. The type
-- `D` of shared decoder handles and the broker library's `matches` are parameters.

pub mod Build
pub mod Resolve
pub mod Precedence
use mathlib.Core.Option
use rosetta_mq.Prelude.{
  Bool, Option, none, some, List, [], ◌∷◌, ◌++◌, Ordering, Result, ok, err, any, filter,
  if◌then◌else◌,
}
use rosetta_mq.Text.{Text, text_eq}
use rosetta_mq.Topic.{TopicFilter, cmp, filter_matches}

pub data RegistryError : Type 0 where
  duplicate_filter : Text → RegistryError

pub record RegistryEntry (D : Type 0) : Type 0 where
  pub filter : TopicFilter
  pub decoder : D

pub record DecoderRegistryBuilder (D : Type 0) : Type 0 where
  pub entries : List (RegistryEntry D)

pub record DecoderRegistry (D : Type 0) : Type 0 where
  pub entries : List (RegistryEntry D)

module _ {D : Type 0} where
  unfoldable pub new : DecoderRegistryBuilder D
  new = record { entries = [] }

  -- `|e| e.filter.as_str() == filter.as_str()`
  abbrev pub has_filter : TopicFilter → RegistryEntry D → Bool
  has_filter filter e = text_eq e.filter.raw filter.raw

  unfoldable pub register :
      DecoderRegistryBuilder D → TopicFilter → D → Result (DecoderRegistryBuilder D) RegistryError
  register builder filter decoder =
      if any (has_filter filter) builder.entries
      then err (duplicate_filter filter.raw)
      else ok (record {
        entries = builder.entries ++ (record { filter = filter; decoder = decoder }) ∷ [];
      })

  unfoldable pub build : DecoderRegistryBuilder D → DecoderRegistry D
  build builder = record { entries = builder.entries }

  -- One step of `Iterator::max_by_key`: of two entries that compare as equal the later one stays.
  abbrev pub later_max : RegistryEntry D → RegistryEntry D → RegistryEntry D
  later_max a b = elim (cmp a.filter b.filter) [ Ordering.gt ↦ a | _ ↦ b ]

  unfoldable pub max_from : RegistryEntry D → List (RegistryEntry D) → RegistryEntry D
  max_from best [] = best
  max_from best (e ∷ es) = max_from (later_max best e) es

  unfoldable pub max_by_filter : List (RegistryEntry D) → Option (RegistryEntry D)
  unfolding max_from
  max_by_filter [] = none
  max_by_filter (e ∷ es) = some (max_from e es)

  module _ (matches : Text → Text → Bool) where
    abbrev pub entry_matches : Text → RegistryEntry D → Bool
    entry_matches topic e = filter_matches matches e.filter topic

    unfoldable pub resolve : DecoderRegistry D → Text → Option D
    unfolding max_by_filter
    resolve registry topic =
        Option.map (λ (e : RegistryEntry D). e.decoder)
          (max_by_filter (filter (entry_matches topic) registry.entries))
