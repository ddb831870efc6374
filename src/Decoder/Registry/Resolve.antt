-- ===== src/Decoder/Registry/Resolve.antt =====
-- `DecoderRegistry::resolve` of src/decoder/registry.rs: the entry that it chooses.
use rosetta_mq.Prelude.{
  ◌≡◌, refl, ◌≢◌, sym, subst, ◌⊎◌, inl, inr, Bool, true, false, none, some, List, [], ◌∷◌, arith,
  Ordering, filter, Bool-cases, In, here, there, In-filter, filter-In, In-past_second,
}
use rosetta_mq.Text.{Text}
use rosetta_mq.Topic.{cmp}
use rosetta_mq.Topic.Order.{cmp-IsLinear}
use rosetta_mq.Decoder.Registry.{
  RegistryEntry, DecoderRegistry, later_max, max_from, max_by_filter, entry_matches, resolve,
}

module _ {D : Type 0} where
  -- The first entry does not come after the second.
  abbrev pub Below : RegistryEntry D → RegistryEntry D → Type 0
  Below e f = cmp e.filter f.filter ≢ Ordering.gt

  pub Below-refl : (e : RegistryEntry D) → Below e e
  Below-refl e h = ground (arith, cmp-IsLinear.total e.filter e.filter)

  later_max-left : (a b : RegistryEntry D) → Below a (later_max a b)
  later_max-left a b h = ground (arith, Below-refl a)

  later_max-right : (a b : RegistryEntry D) → Below b (later_max a b)
  later_max-right a b h = ground (arith, Below-refl b, cmp-IsLinear.total a.filter b.filter)

  In-later_max :
      {x : RegistryEntry D} (a b : RegistryEntry D) (es : List (RegistryEntry D))
      → In x (later_max a b ∷ es)
      → In x (a ∷ b ∷ es)
  In-later_max {x} a b es m = elim (cases (cmp a.filter b.filter)) [
    | inl e ↦ In-past_second b (subst (λ c. In x (c ∷ es)) (ground arith) m)
    | inr e ↦ there (subst (λ c. In x (c ∷ es)) (ground arith) m)
  ]
    where
      cases : (o : Ordering) → (o ≡ Ordering.gt) ⊎ (o ≢ Ordering.gt)
      cases Ordering.gt = inl refl
      cases Ordering.lt = inr (λ e. cc)
      cases Ordering.eq = inr (λ e. cc)

  max_from-In :
      (best : RegistryEntry D) (es : List (RegistryEntry D)) → In (max_from best es) (best ∷ es)
  unfolding max_from
  max_from-In best [] = here
  max_from-In best (e ∷ es) = In-later_max best e es (max_from-In (later_max best e) es)

  max_from-Below :
      (best : RegistryEntry D) (es : List (RegistryEntry D)) → Below best (max_from best es)
  unfolding max_from
  max_from-Below best [] = Below-refl best
  max_from-Below best (e ∷ es) =
      cmp-IsLinear.trans best.filter (later_max best e).filter _ (later_max-left best e)
        (max_from-Below (later_max best e) es)

  max_from-top :
      (best : RegistryEntry D) (es : List (RegistryEntry D)) {e : RegistryEntry D}
      → In e es
      → Below e (max_from best es)
  unfolding max_from
  max_from-top best [] m = elim m [ ]
  max_from-top best (e ∷ es) here =
      cmp-IsLinear.trans e.filter (later_max best e).filter _ (later_max-right best e)
        (max_from-Below (later_max best e) es)
  max_from-top best (x ∷ es) (there m) = max_from-top (later_max best x) es m

-- The entry matches the topic, and none that matches has a greater specificity.
pub record IsBest {D : Type 0} (matches : Text → Text → Bool) (topic : Text)
    (es : List (RegistryEntry D)) (e : RegistryEntry D) : Type 0 where
  pub member : In e es
  pub hit : matches topic e.filter.raw ≡ true
  pub top : (f : RegistryEntry D) → In f es → matches topic f.filter.raw ≡ true → Below f e

module _ {D : Type 0} (matches : Text → Text → Bool) (topic : Text) where
  hits : List (RegistryEntry D) → List (RegistryEntry D)
  hits es = filter (entry_matches matches topic) es

  Below-first :
      (best : RegistryEntry D) (es : List (RegistryEntry D)) {e : RegistryEntry D}
      → In e (best ∷ es)
      → Below e (max_from best es)
  Below-first best es here = max_from-Below best es
  Below-first best es (there m) = max_from-top best es m

  max_by_filter-IsBest :
      (es hs : List (RegistryEntry D))
      → hs ≡ hits es
      → ((max_by_filter hs ≡ none) × (hs ≡ []))
        ⊎ ((e : RegistryEntry D) × (max_by_filter hs ≡ some e) × IsBest matches topic es e)
  unfolding max_by_filter hits
  max_by_filter-IsBest es [] q = inl (refl, refl)
  max_by_filter-IsBest es (h ∷ hs) q = inr (max_from h hs, refl, best)
    where
      kept : In (max_from h hs) es × (matches topic (max_from h hs).filter.raw ≡ true)
      kept = filter-In _ es (subst (In _) q (max_from-In h hs))

      best : IsBest matches topic es (max_from h hs)
      best = record {
        member = kept.0;
        hit = kept.1;
        top = λ f m t. Below-first h hs (subst (In f) (sym q) (In-filter _ es m t));
      }

  no_hit :
      (es : List (RegistryEntry D))
      → [] ≡ hits es
      → (e : RegistryEntry D) → In e es
      → matches topic e.filter.raw ≡ false
  unfolding hits
  no_hit es q e m = elim (Bool-cases (matches topic e.filter.raw)) [
    | inl t ↦ elim (subst (In e) (sym q) (In-filter (entry_matches matches topic) es m t)) [ ]
    | inr t ↦ t
  ]

  -- Either no entry matches the topic and there is no decoder, or the result is the decoder of an
  -- entry that matches, and no entry that matches has a greater specificity.
  pub resolve-IsBest :
      (registry : DecoderRegistry D)
      → ((resolve matches registry topic ≡ none)
          × ((e : RegistryEntry D) → In e registry.entries → matches topic e.filter.raw ≡ false))
        ⊎ ((e : RegistryEntry D) × (resolve matches registry topic ≡ some e.decoder)
            × IsBest matches topic registry.entries e)
  resolve-IsBest registry =
      elim (max_by_filter-IsBest registry.entries (hits registry.entries) refl) [
        | inl h ↦ inl (unfold resolve hits in rw h.0, no_hit registry.entries (sym h.1))
        | inr (e, h, b) ↦ inr (e, unfold resolve hits in rw h, b)
      ]
