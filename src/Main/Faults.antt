-- ===== src/Main/Faults.antt =====
-- The loop over the mappings in src/main.rs: how it fails.
use rosetta_mq.Prelude.{
  ◌≡◌, subst, inl, inr, some, List, [], ◌∷◌, Result, ok, err, ◌>>=◌, map_err, Option-cases, All,
}
use rosetta_mq.Text.{Text}
use rosetta_mq.Util.{FilePath}
use rosetta_mq.Topic
use rosetta_mq.Topic.{TopicFilter, TopicError}
use rosetta_mq.Decoder.Config
use rosetta_mq.Decoder.Config.{DecoderConfig, BuildDecoderError}
use rosetta_mq.Decoder.Registry.{RegistryError, register}
use rosetta_mq.Config.{RefOr, TopicMapping, resolve}
use rosetta_mq.Config.Validate.{IsUsable, Resolves}
use rosetta_mq.Main.{
  Platform, StartError, building, registering, add_decoder, add_mapping, add_mappings,
}
use rosetta_mq.Main.Startup.{Builder, add_mapping-none, add_mapping-some}

-- An error that a validated configuration leaves possible: the decoder cannot be built, or its
-- filter is registered already.
pub data IsLate {s : Platform} : StartError s → Type 0 where
  not_built : {f : Text} {x : BuildDecoderError s.libraries} → IsLate (building f x)
  not_registered : {f : Text} {x : RegistryError} → IsLate (registering f x)

module _ (s : Platform) (base_dir : FilePath) (ds : List (Text × DecoderConfig)) where
  -- Success, or a late error.
  abbrev pub IsFine : {A : Type 0} → Result A (StartError s) → Type 0
  IsFine (ok a) = Unit
  IsFine (err e) = IsLate e

  bind-IsFine :
      {A B : Type 0} (r : Result A (StartError s)) (f : A → Result B (StartError s))
      → IsFine r
      → ((a : A) → IsFine (f a))
      → IsFine (r >>= f)
  bind-IsFine (ok a) f h k = k a
  bind-IsFine (err e) f h k = h

  building-IsFine :
      {A : Type 0} (f : Text) (r : Result A (BuildDecoderError s.libraries))
      → IsFine (map_err (building f) r)
  building-IsFine f (ok a) = tt
  building-IsFine f (err x) = not_built

  registering-IsFine :
      {A : Type 0} (f : Text) (r : Result A RegistryError) → IsFine (map_err (registering f) r)
  registering-IsFine f (ok a) = tt
  registering-IsFine f (err x) = not_registered

  add_decoder-IsFine :
      (b : Builder) (topic_filter : Text) (r : RefOr DecoderConfig) (c : DecoderConfig)
      (f : TopicFilter)
      → resolve r ds ≡ some c
      → Topic.parse topic_filter ≡ ok f
      → IsFine (add_decoder s base_dir ds b topic_filter r)
  unfolding add_decoder
  add_decoder-IsFine b topic_filter r c f p q =
      rw (p, q)
        (bind-IsFine (map_err (building topic_filter) (Config.build s.libraries c base_dir)) _
          (building-IsFine topic_filter (Config.build s.libraries c base_dir))
          (λ d. registering-IsFine topic_filter (register b f d)))

  add_mapping-IsFine :
      (b : Builder) (m : TopicMapping) → IsUsable ds m → IsFine (add_mapping s base_dir ds b m)
  add_mapping-IsFine b m u = elim (Option-cases m.decoder) [
    | inl h ↦ rw (add_mapping-none s base_dir ds b m h) tt
    | inr (r, h) ↦
        let (c, found) : (c : DecoderConfig) × (resolve r ds ≡ some c) =
          subst (Resolves ds) h u.resolves in
        rw (add_mapping-some s base_dir ds b m r h)
          (add_decoder-IsFine b m.topic_filter r c u.filter found u.parses)
  ]

  add_mappings-IsFine :
      (b : Builder) (ms : List TopicMapping)
      → All (IsUsable ds) ms
      → IsFine (add_mappings s base_dir ds b ms)
  unfolding add_mappings
  add_mappings-IsFine b [] h = tt
  add_mappings-IsFine b (m ∷ ms) h =
      bind-IsFine (add_mapping s base_dir ds b m) (λ b'. add_mappings s base_dir ds b' ms)
        (add_mapping-IsFine b m h.0) (λ b'. add_mappings-IsFine b' ms h.1)

  -- On mappings that the validation lets through, the loop neither panics nor rejects a filter as
  -- malformed: if it fails, a decoder could not be built or a filter was registered twice.
  pub add_mappings-IsLate :
      (b : Builder) (ms : List TopicMapping) (e : StartError s)
      → All (IsUsable ds) ms
      → add_mappings s base_dir ds b ms ≡ err e
      → IsLate e
  add_mappings-IsLate b ms e h q = subst IsFine q (add_mappings-IsFine b ms h)
