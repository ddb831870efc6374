-- ===== src/Config/Validate.antt =====
-- `Config::validate` of src/config.rs: which configurations pass, and which error the others get.
use rosetta_mq.Prelude.{
  ℕ, zero, suc, ◌<◌, ◌≡◌, refl, sym, ap, subst, ◌⊎◌, inl, inr, Option, none, some, List, [], ◌∷◌,
  Result, ok, err, ◌>>◌, ◌==◌, if◌then◌else◌, Result-cases, Option-cases, arith, All,
}
use rosetta_mq.Text.{Text}
use rosetta_mq.Topic
use rosetta_mq.Topic.{TopicFilter, TopicError}
use rosetta_mq.Decoder.Config.{DecoderConfig}
use rosetta_mq.Auth.{Host}
use rosetta_mq.Config.{
  Config, ConfigError, invalid_topic_filter, invalid_engine_config, unknown_decoder_ref, RefOr, ref,
  literal, TopicMapping, Toml, lookup, resolve, check_mapping, check_topics, validate,
}

abbrev pub Decoders : Type 0
Decoders = List (Text × DecoderConfig)

-- A reference that resolves, or no reference.
abbrev pub Resolves : Decoders → Option (RefOr DecoderConfig) → Type 0
Resolves ds none = Unit
Resolves ds (some r) = (c : DecoderConfig) × (resolve r ds ≡ some c)

pub record IsUsable (ds : Decoders) (m : TopicMapping) : Type 0 where
  pub filter : TopicFilter
  pub parses : Topic.parse m.topic_filter ≡ ok filter
  pub resolves : Resolves ds m.decoder

module _ (h : Host) (t : Toml) where
  -- What is wrong with a mapping, and its error. The filter is looked at before the reference.
  pub data Bad (ds : Decoders) (m : TopicMapping) : ConfigError h t → Type 0 where
    bad_filter :
        {x : TopicError}
        → Topic.parse m.topic_filter ≡ err x
        → Bad ds m (invalid_topic_filter m.topic_filter x)
    bad_ref :
        {f : TopicFilter} {name : Text}
        → Topic.parse m.topic_filter ≡ ok f
        → m.decoder ≡ some (ref name)
        → lookup name ds ≡ none
        → Bad ds m (unknown_decoder_ref m.topic_filter name)

  -- The verdict of the loop: the first bad mapping decides.
  pub data Checked (ds : Decoders)
      : List TopicMapping → Result (Unit {0}) (ConfigError h t) → Type 0 where
    none_bad : Checked ds [] (ok tt)
    pass :
        {m : TopicMapping} {ms : List TopicMapping} {r : Result (Unit {0}) (ConfigError h t)}
        → IsUsable ds m
        → Checked ds ms r
        → Checked ds (m ∷ ms) r
    stop_at :
        {m : TopicMapping} {ms : List TopicMapping} {e : ConfigError h t}
        → Bad ds m e
        → Checked ds (m ∷ ms) (err e)

  data One (ds : Decoders) (m : TopicMapping) : Result (Unit {0}) (ConfigError h t) → Type 0 where
    usable : IsUsable ds m → One ds m (ok tt)
    bad : {e : ConfigError h t} → Bad ds m e → One ds m (err e)

  module _ (ds : Decoders) (m : TopicMapping) where
    as_usable : check_mapping h t ds m ≡ ok tt → IsUsable ds m → One ds m (check_mapping h t ds m)
    as_usable e u = subst (One ds m) (sym e) (usable u)

    as-Bad :
        (e : ConfigError h t)
        → check_mapping h t ds m ≡ err e
        → Bad ds m e
        → One ds m (check_mapping h t ds m)
    as-Bad e q b = subst (One ds m) (sym q) (bad b)

    some_decoder :
        (f : TopicFilter)
        → Topic.parse m.topic_filter ≡ ok f
        → (r : RefOr DecoderConfig) → m.decoder ≡ some r
        → One ds m (check_mapping h t ds m)
    some_decoder f e (literal c) d = as_usable (unfold check_mapping in ground arith) (record {
      filter = f;
      parses = e;
      resolves = subst (Resolves ds) (sym d) (c, unfold resolve in refl);
    })
    some_decoder f e (ref name) d = elim (Option-cases (lookup name ds)) [
      | inl missing ↦
          as-Bad (unknown_decoder_ref m.topic_filter name) (unfold check_mapping in ground arith)
            (bad_ref e d missing)
      | inr (c, found) ↦ as_usable (unfold check_mapping in ground arith) (record {
        filter = f;
        parses = e;
        resolves = subst (Resolves ds) (sym d) (c, unfold resolve in found);
      })
    ]

    one : One ds m (check_mapping h t ds m)
    one = by_filter (Result-cases (Topic.parse m.topic_filter)) (Option-cases m.decoder)
      where
        by_filter :
            ((f : TopicFilter) × (Topic.parse m.topic_filter ≡ ok f))
              ⊎ ((x : TopicError) × (Topic.parse m.topic_filter ≡ err x))
            → (m.decoder ≡ none) ⊎ ((r : RefOr DecoderConfig) × (m.decoder ≡ some r))
            → One ds m (check_mapping h t ds m)
        by_filter (inr (x, e)) d =
            as-Bad (invalid_topic_filter m.topic_filter x) (unfold check_mapping in ground arith)
              (bad_filter e)
        by_filter (inl (f, e)) (inl d) =
            as_usable (unfold check_mapping in ground arith)
              (record { filter = f; parses = e; resolves = subst (Resolves ds) (sym d) tt })
        by_filter (inl (f, e)) (inr (r, d)) = some_decoder f e r d

  check_topics-cons :
      (ds : Decoders) (m : TopicMapping) (ms : List TopicMapping)
      → check_topics h t ds (m ∷ ms) ≡ (check_mapping h t ds m >> check_topics h t ds ms)
  unfolding check_topics
  check_topics-cons ds m ms = refl

  after :
      {ds : Decoders} {m : TopicMapping} {ms : List TopicMapping}
      {r q : Result (Unit {0}) (ConfigError h t)}
      → One ds m r
      → Checked ds ms q
      → Checked ds (m ∷ ms) (r >> q)
  after (usable u) c = pass u c
  after (bad b) c = stop_at b

  check_topics-Checked :
      (ds : Decoders) (ms : List TopicMapping) → Checked ds ms (check_topics h t ds ms)
  check_topics-Checked ds [] = unfold check_topics in none_bad
  check_topics-Checked ds (m ∷ ms) =
      subst (Checked ds (m ∷ ms)) (sym (check_topics-cons ds m ms))
        (after (one ds m) (check_topics-Checked ds ms))

  pub data Verdict (c : Config) : Result (Unit {0}) (ConfigError h t) → Type 0 where
    valid :
        Checked c.decoders c.topics (ok tt)
        → 0 < c.engine.max_concurrent_decodes
        → Verdict c (ok tt)
    no_decodes :
        Checked c.decoders c.topics (ok tt)
        → c.engine.max_concurrent_decodes ≡ 0
        → Verdict c (err invalid_engine_config)
    bad_topic : {e : ConfigError h t} → Checked c.decoders c.topics (err e) → Verdict c (err e)

  limit : ℕ → Result (Unit {0}) (ConfigError h t)
  limit n = if n == 0 then err invalid_engine_config else ok tt

  limit_zero : limit 0 ≡ err invalid_engine_config
  unfolding limit
  limit_zero = refl

  limit_suc : (n : ℕ) → limit (suc n) ≡ ok tt
  unfolding limit
  limit_suc n = ground arith

  judge :
      (c : Config) {r : Result (Unit {0}) (ConfigError h t)}
      → Checked c.decoders c.topics r
      → r ≡ ok tt ⊎ ((e : ConfigError h t) × (r ≡ err e))
      → Verdict c (r >> limit c.engine.max_concurrent_decodes)
  judge c k (inr (e, q)) = rw q (bad_topic (subst (Checked c.decoders c.topics) q k))
  judge c k (inl q) = rw q (by_limit c.engine.max_concurrent_decodes refl)
    where
      by_limit :
          (n : ℕ)
          → c.engine.max_concurrent_decodes ≡ n
          → Verdict c (limit c.engine.max_concurrent_decodes)
      by_limit zero z =
          rw (ap limit z, limit_zero) (no_decodes (subst (Checked c.decoders c.topics) q k) z)
      by_limit (suc n) z =
          rw (ap limit z, limit_suc n)
            (valid (subst (Checked c.decoders c.topics) q k) (omega arith))

  validate-split :
      (c : Config)
      → validate h t c
        ≡ (check_topics h t c.decoders c.topics >> limit c.engine.max_concurrent_decodes)
  unfolding validate limit
  validate-split c = refl

  -- The validation passes exactly when each topic filter parses, each named decoder is defined and
  -- `max_concurrent_decodes` is not zero; otherwise its error is that of the first mapping that is
  -- at fault, the filter being looked at before the reference, and only after all mappings that
  -- of the limit.
  pub validate-Verdict : (c : Config) → Verdict c (validate h t c)
  validate-Verdict c = subst (Verdict c) (sym (validate-split c)) (
      judge c (check_topics-Checked c.decoders c.topics)
        (Unit-cases (check_topics h t c.decoders c.topics)))
    where
      Unit-cases :
          (r : Result (Unit {0}) (ConfigError h t))
          → r ≡ ok tt ⊎ ((e : ConfigError h t) × (r ≡ err e))
      Unit-cases (ok _) = inl refl
      Unit-cases (err e) = inr (e, refl)

  Checked-All :
      {ds : Decoders} {ms : List TopicMapping} {r : Result (Unit {0}) (ConfigError h t)}
      → Checked ds ms r
      → r ≡ ok tt
      → All (IsUsable ds) ms
  Checked-All none_bad q = tt
  Checked-All (pass u c) q = (u, Checked-All c q)
  Checked-All (stop_at b) q = cc

  Verdict-ok :
      {c : Config} {r : Result (Unit {0}) (ConfigError h t)}
      → Verdict c r
      → r ≡ ok tt
      → All (IsUsable c.decoders) c.topics × (0 < c.engine.max_concurrent_decodes)
  Verdict-ok (valid k p) q = (Checked-All k refl, p)
  Verdict-ok (no_decodes k p) q = cc
  Verdict-ok (bad_topic k) q = cc

  pub validate-ok :
      (c : Config)
      → validate h t c ≡ ok tt
      → All (IsUsable c.decoders) c.topics × (0 < c.engine.max_concurrent_decodes)
  validate-ok c q = Verdict-ok (validate-Verdict c) q
