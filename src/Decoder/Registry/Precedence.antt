-- ===== src/Decoder/Registry/Precedence.antt =====
-- `DecoderRegistry::resolve` of src/decoder/registry.rs over a well-formed registry: which entry wins,
-- if the broker library matches only what a filter covers.
use rosetta_mq.Prelude.{
  ◌≡◌, refl, ◌≢◌, sym, ap, ◌∙◌, subst, ◌↔◌, ◌⊎◌, inl, inr, Bool, true, false, none, some, List, [],
  ◌∷◌, ◌++◌, arith, Ordering, In, All, All-at,
}
use rosetta_mq.Text.{Text, codes, split}
use rosetta_mq.Text.Split.{split_injective, split-append}
use rosetta_mq.Topic.{slash, hash, cmp, lex_cmp}
use rosetta_mq.Topic.Segments.{IsLiteral, Ranked}
use rosetta_mq.Topic.Parse.{parse-ok_iff}
use rosetta_mq.Topic.Order.{flip, cmp-IsLinear}
use rosetta_mq.Topic.Covers.{
  OnlyCovers, covers_unique, covers_exact, Ranked-twos, Ranked-hash, twos, lex_cmp-hash,
}
use rosetta_mq.Decoder.Registry.{RegistryEntry, DecoderRegistry, resolve}
use rosetta_mq.Decoder.Registry.Build.{IsWellFormed, IsParsed, Distinct-unique}
use rosetta_mq.Decoder.Registry.Resolve.{IsBest, Below, Below-refl, resolve-IsBest}

-- A topic with no wildcard in any segment.
abbrev pub IsName : Text → Type 0
IsName topic = All IsLiteral (split slash topic)

split_child :
    (topic : Text) → split slash (topic ++ codes "/#") ≡ split slash topic ++ (hash ∷ []) ∷ []
split_child topic =
    split-append slash topic (hash ∷ []) ∙ ap (λ x. split slash topic ++ x) (unfold split in refl)

module _ {D : Type 0} (matches : Text → Text → Bool) (only : OnlyCovers matches) where
  module _ (es : List (RegistryEntry D)) (w : IsWellFormed es) where
    ranked :
        {e : RegistryEntry D} → In e es → Ranked (split slash e.filter.raw) e.filter.specificity
    ranked {e} m = ((parse-ok_iff e.filter.raw e.filter).0 (All-at IsParsed es w.parsed m)).2

    -- Two entries that match one topic and are equally specific are one entry.
    tie-eq :
        (topic : Text) {e f : RegistryEntry D}
        → In e es
        → In f es
        → matches topic e.filter.raw ≡ true
        → matches topic f.filter.raw ≡ true
        → cmp e.filter f.filter ≡ Ordering.eq
        → e ≡ f
    tie-eq topic {e} {f} m n h k c = Distinct-unique es w.distinct m n (
        split_injective slash _ _ (
          covers_unique (split slash topic) (ranked m) (ranked n) (only topic _ h) (only topic _ k)
            (cmp-IsLinear.same e.filter f.filter c)))

    IsBest-unique :
        (topic : Text) (e f : RegistryEntry D)
        → IsBest matches topic es e
        → IsBest matches topic es f
        → e ≡ f
    IsBest-unique topic e f a b = tie-eq topic a.member b.member a.hit b.hit (
        not_gt (cmp e.filter f.filter) (b.top e a.member a.hit)
          (λ h. a.top f b.member b.hit (cmp-IsLinear.total e.filter f.filter ∙ h)))
      where
        not_gt : (o : Ordering) → o ≢ Ordering.gt → flip o ≢ Ordering.gt → o ≡ Ordering.eq
        not_gt Ordering.lt h k = absurd (k refl)
        not_gt Ordering.eq h k = refl
        not_gt Ordering.gt h k = absurd (h refl)

  -- The order of registration does not matter: two well-formed registries with the same entries
  -- give every topic the same decoder.
  pub resolve_same_entries :
      (r s : DecoderRegistry D) (topic : Text)
      → IsWellFormed r.entries
      → IsWellFormed s.entries
      → ((e : RegistryEntry D) → In e r.entries ↔ In e s.entries)
      → resolve matches r topic ≡ resolve matches s topic
  resolve_same_entries r s topic w v same =
      by_cases (resolve-IsBest matches topic r) (resolve-IsBest matches topic s)
    where
      carried :
          {e : RegistryEntry D}
          → IsBest matches topic s.entries e
          → IsBest matches topic r.entries e
      carried {e} b = record {
        member = (same e).1 b.member;
        hit = b.hit;
        top = λ f m. b.top f ((same f).0 m);
      }

      by_cases :
          ((resolve matches r topic ≡ none)
              × ((e : RegistryEntry D) → In e r.entries → matches topic e.filter.raw ≡ false))
            ⊎ ((e : RegistryEntry D) × (resolve matches r topic ≡ some e.decoder)
                × IsBest matches topic r.entries e)
          → ((resolve matches s topic ≡ none)
              × ((e : RegistryEntry D) → In e s.entries → matches topic e.filter.raw ≡ false))
            ⊎ ((e : RegistryEntry D) × (resolve matches s topic ≡ some e.decoder)
                × IsBest matches topic s.entries e)
          → resolve matches r topic ≡ resolve matches s topic
      by_cases (inl (h, n)) (inl (k, m)) = cc
      by_cases (inl (h, n)) (inr (f, k, b)) = cc (n f ((same f).1 b.member), b.hit)
      by_cases (inr (e, h, a)) (inl (k, m)) = cc (m e ((same e).0 a.member), a.hit)
      by_cases (inr (e, h, a)) (inr (f, k, b)) =
          h ∙ ap (λ x. some x.decoder) (IsBest-unique r.entries w topic e f a (carried b)) ∙ sym k

  -- What `resolve` returns where a best entry is known.
  resolve_best :
      (r : DecoderRegistry D) (topic : Text) (e : RegistryEntry D)
      → IsWellFormed r.entries
      → IsBest matches topic r.entries e
      → resolve matches r topic ≡ some e.decoder
  resolve_best r topic e w b = by_cases (resolve-IsBest matches topic r)
    where
      by_cases :
          ((resolve matches r topic ≡ none)
              × ((f : RegistryEntry D) → In f r.entries → matches topic f.filter.raw ≡ false))
            ⊎ ((f : RegistryEntry D) × (resolve matches r topic ≡ some f.decoder)
                × IsBest matches topic r.entries f)
          → resolve matches r topic ≡ some e.decoder
      by_cases (inl (h, n)) = cc (n e b.member, b.hit)
      by_cases (inr (f, h, a)) =
          h ∙ ap (λ x. some x.decoder) (IsBest-unique r.entries w topic f e a b)

  -- Where an entry that matches a topic stands, compared with the topic's own filter.
  place :
      (es : List (RegistryEntry D)) (topic : Text) (f : RegistryEntry D)
      → IsWellFormed es
      → In f es
      → matches topic f.filter.raw ≡ true
      → (f.filter.raw ≡ topic)
        ⊎ (f.filter.raw ≡ topic ++ codes "/#")
        ⊎ (lex_cmp f.filter.specificity (twos (split slash topic)) ≡ Ordering.lt)
  place es topic f w m h =
      elim (covers_exact (split slash topic) (ranked es w m) (only topic _ h)) [
        | inl e ↦ inl (split_injective slash _ _ e)
        | inr (inl e) ↦ inr (inl (split_injective slash _ _ (e ∙ sym (split_child topic))))
        | inr (inr e) ↦ inr (inr e)
      ]

  own_twos :
      (es : List (RegistryEntry D)) (topic : Text) (e : RegistryEntry D)
      → IsWellFormed es
      → IsName topic
      → In e es
      → e.filter.raw ≡ topic
      → e.filter.specificity ≡ twos (split slash topic)
  own_twos es topic e w l m p =
      Ranked-twos (subst (λ t. Ranked (split slash t) e.filter.specificity) p (ranked es w m)) l

  child_twos :
      (es : List (RegistryEntry D)) (topic : Text) (f : RegistryEntry D)
      → IsWellFormed es
      → IsName topic
      → In f es
      → f.filter.raw ≡ topic ++ codes "/#"
      → f.filter.specificity ≡ twos (split slash topic) ++ 0 ∷ []
  child_twos es topic f w l m p =
      Ranked-hash (split slash topic) (ranked es w m) (ap (split slash) p ∙ split_child topic) l

  -- A topic's own filter wins over every other that matches, unless the registry also holds the
  -- filter that is the topic with `/#` behind it.
  pub resolve_exact :
      (r : DecoderRegistry D) (topic : Text) (e : RegistryEntry D)
      → IsWellFormed r.entries
      → IsName topic
      → In e r.entries
      → e.filter.raw ≡ topic
      → matches topic topic ≡ true
      → ((f : RegistryEntry D) → In f r.entries → f.filter.raw ≢ topic ++ codes "/#")
      → resolve matches r topic ≡ some e.decoder
  resolve_exact r topic e w l m p h no_child = resolve_best r topic e w (record {
    member = m;
    hit = rw p h;
    top = λ f n k. below f n (place r.entries topic f w n k);
  })
    where
      below :
          (f : RegistryEntry D)
          → In f r.entries
          → (f.filter.raw ≡ topic)
            ⊎ (f.filter.raw ≡ topic ++ codes "/#")
            ⊎ (lex_cmp f.filter.specificity (twos (split slash topic)) ≡ Ordering.lt)
          → Below f e
      below f n (inl a) = rw (Distinct-unique r.entries w.distinct n m (a ∙ sym p)) (Below-refl e)
      below f n (inr (inl a)) = absurd (no_child f n a)
      below f n (inr (inr a)) =
          unfold cmp in
          λ g. cc (ap (lex_cmp f.filter.specificity) (own_twos r.entries topic e w l m p))

  -- The filter that is the topic with `/#` behind it, where it matches the topic itself, wins over
  -- the topic's own filter.
  pub resolve_child_hash :
      (r : DecoderRegistry D) (topic : Text) (e f : RegistryEntry D)
      → IsWellFormed r.entries
      → IsName topic
      → In e r.entries
      → In f r.entries
      → e.filter.raw ≡ topic
      → f.filter.raw ≡ topic ++ codes "/#"
      → matches topic topic ≡ true
      → matches topic (topic ++ codes "/#") ≡ true
      → resolve matches r topic ≡ some f.decoder
  resolve_child_hash r topic e f w l m n p q h k = resolve_best r topic f w (record {
    member = n;
    hit = rw q k;
    top = λ g o j. below g o (place r.entries topic g w o j);
  })
    where
      child_above : lex_cmp f.filter.specificity (twos (split slash topic)) ≡ Ordering.gt
      child_above = rw (child_twos r.entries topic f w l n q) (lex_cmp-hash (split slash topic))

      above_own : cmp f.filter e.filter ≡ Ordering.gt
      above_own = unfold cmp in rw (own_twos r.entries topic e w l m p) child_above

      below :
          (g : RegistryEntry D)
          → In g r.entries
          → (g.filter.raw ≡ topic)
            ⊎ (g.filter.raw ≡ topic ++ codes "/#")
            ⊎ (lex_cmp g.filter.specificity (twos (split slash topic)) ≡ Ordering.lt)
          → Below g f
      below g o (inl a) =
          rw (Distinct-unique r.entries w.distinct o m (a ∙ sym p))
            (λ c. ground (arith, cmp-IsLinear.total e.filter f.filter, above_own))
      below g o (inr (inl a)) =
          rw (Distinct-unique r.entries w.distinct o n (a ∙ sym q)) (Below-refl f)
      below g o (inr (inr a)) =
          cmp-IsLinear.trans g.filter e.filter f.filter
            (unfold cmp in
              λ c. cc (ap (lex_cmp g.filter.specificity) (own_twos r.entries topic e w l m p)))
            (λ c. ground (arith, cmp-IsLinear.total e.filter f.filter, above_own))
