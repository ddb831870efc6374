-- ===== src/Main/Startup.antt =====
-- The loop over the mappings in src/main.rs: what it registers.
use mathlib.Core.List.{map-append}
use rosetta_mq.Prelude.{
  ◌≡◌, refl, sym, ap, ◌∙◌, subst, inl, inr, none, some, List, [], ◌∷◌, ◌++◌, map, append-nil,
  append_assoc, ok, map_err, ok_or, >>=-eq-ok, map_err-eq-ok, ok_inj, Option-cases, arith, All,
  All-append,
}
use rosetta_mq.Text.{Text}
use rosetta_mq.Util.{FilePath}
use rosetta_mq.Topic
use rosetta_mq.Topic.{TopicFilter}
use rosetta_mq.Topic.Parse.{parse-raw}
use rosetta_mq.Decoder.{ErasedDecoder}
use rosetta_mq.Decoder.Config
use rosetta_mq.Decoder.Config.{DecoderConfig}
use rosetta_mq.Decoder.Behaviour.{AlwaysSingle, KeepsTemplates, build-AlwaysSingle}
use rosetta_mq.Decoder.Registry.{RegistryEntry, DecoderRegistryBuilder, register, new}
use rosetta_mq.Decoder.Registry.Build.{IsWellFormed, register-IsWellFormed}
use rosetta_mq.Config.{RefOr, TopicMapping, resolve}
use rosetta_mq.Main.{Platform, add_decoder, add_mapping, add_mappings}

-- The filters of the mappings that have a decoder.
unfoldable pub decoded_filters : List TopicMapping → List Text
decoded_filters [] = []
decoded_filters (m ∷ ms) = elim m.decoder [
  | none ↦ decoded_filters ms
  | some _ ↦ m.topic_filter ∷ decoded_filters ms
]

abbrev pub Builder : Type 0
Builder = DecoderRegistryBuilder ErasedDecoder

abbrev pub HasSingleDecoder : RegistryEntry ErasedDecoder → Type 0
HasSingleDecoder e = AlwaysSingle e.decoder

-- The texts of the registered filters.
abbrev pub filters : Builder → List Text
filters b = map (λ (e : RegistryEntry ErasedDecoder). e.filter.raw) b.entries

-- The invariant of the loop over the mappings.
pub record IsSound (b : Builder) : Type 0 where
  pub well_formed : IsWellFormed b.entries
  pub single : All HasSingleDecoder b.entries

pub new-IsSound : IsSound new
unfolding new
new-IsSound = record { well_formed = record { parsed = tt; distinct = tt }; single = tt }

-- What was registered from the start.
pub filters-new : (b : Builder) (xs : List Text) → filters b ≡ filters new ++ xs → filters b ≡ xs
unfolding new
filters-new b xs e = e

module _ (s : Platform) (base_dir : FilePath) (ds : List (Text × DecoderConfig)) where
  -- The parts of one successful round.
  add_decoder_inv :
      (b b' : Builder) (topic_filter : Text) (r : RefOr DecoderConfig)
      → add_decoder s base_dir ds b topic_filter r ≡ ok b'
      → (c : DecoderConfig) × (d : ErasedDecoder) × (f : TopicFilter) × (Config.build s.libraries c
            base_dir
          ≡ ok d)
        × (Topic.parse topic_filter ≡ ok f)
        × (register b f d ≡ ok b')
  unfolding add_decoder
  add_decoder_inv b b' topic_filter r e =
      let (c, _, e1) = >>=-eq-ok (ok_or _ (resolve r ds)) _ e in
      let (d, p, e2) = >>=-eq-ok (map_err _ (Config.build s.libraries c base_dir)) _ e1 in
      let (f, q, e3) = >>=-eq-ok (map_err _ (Topic.parse topic_filter)) _ e2 in
      (c, d, f, map_err-eq-ok _ _ p, map_err-eq-ok _ _ q, map_err-eq-ok _ _ e3)

  add_decoder-IsSound :
      (b b' : Builder) (topic_filter : Text) (r : RefOr DecoderConfig)
      → KeepsTemplates s.libraries.engine
      → IsSound b
      → add_decoder s base_dir ds b topic_filter r ≡ ok b'
      → IsSound b' × (filters b' ≡ filters b ++ topic_filter ∷ [])
  add_decoder-IsSound b b' topic_filter r keeps w e =
      let (c, d, f, p, q, x) = add_decoder_inv b b' topic_filter r e in
      let (wf, added) = register-IsWellFormed b b' topic_filter f d w.well_formed q x in
      (
        record {
          well_formed = wf;
          single = rw added (
              All-append HasSingleDecoder b.entries _ w.single
                (build-AlwaysSingle s.libraries c base_dir d keeps p, tt));
        },
        ap (map _) added
            ∙ map-append _ b.entries _
            ∙ ap (λ t. filters b ++ t ∷ []) (parse-raw topic_filter f q),
      )

  pub add_mapping-none :
      (b : Builder) (m : TopicMapping) → m.decoder ≡ none → add_mapping s base_dir ds b m ≡ ok b
  unfolding add_mapping
  add_mapping-none b m h = rw h

  pub add_mapping-some :
      (b : Builder) (m : TopicMapping) (r : RefOr DecoderConfig)
      → m.decoder ≡ some r
      → add_mapping s base_dir ds b m ≡ add_decoder s base_dir ds b m.topic_filter r
  unfolding add_mapping
  add_mapping-some b m r h = rw h

  add_mapping-IsSound :
      (b b' : Builder) (m : TopicMapping)
      → KeepsTemplates s.libraries.engine
      → IsSound b
      → add_mapping s base_dir ds b m ≡ ok b'
      → IsSound b' × (filters b' ≡ filters b ++ decoded_filters (m ∷ []))
  add_mapping-IsSound b b' m keeps w e = elim (Option-cases m.decoder) [
    | inl h ↦
        let same : b ≡ b' = ok_inj (sym (add_mapping-none b m h) ∙ e) in
        (
          subst IsSound same w,
          unfold decoded_filters in rw (h, sym same) (sym (append-nil (filters b))),
        )
    | inr (r, h) ↦
        let (sound, added) =
          add_decoder-IsSound b b' m.topic_filter r keeps w (sym (add_mapping-some b m r h) ∙ e) in
        (sound, unfold decoded_filters in rw h added)
  ]

  decoded_filters-cons :
      (m : TopicMapping) (ms : List TopicMapping)
      → decoded_filters (m ∷ ms) ≡ decoded_filters (m ∷ []) ++ decoded_filters ms
  unfolding decoded_filters
  decoded_filters-cons m ms = ground (arith, Option-cases m.decoder)

  add_mappings_inv :
      (b b' : Builder) (m : TopicMapping) (ms : List TopicMapping)
      → add_mappings s base_dir ds b (m ∷ ms) ≡ ok b'
      → (b1 : Builder) × (add_mapping s base_dir ds b m ≡ ok b1)
        × (add_mappings s base_dir ds b1 ms ≡ ok b')
  unfolding add_mappings
  add_mappings_inv b b' m ms e = >>=-eq-ok (add_mapping s base_dir ds b m) _ e

  add_mappings-nil : (b : Builder) → add_mappings s base_dir ds b [] ≡ ok b
  unfolding add_mappings
  add_mappings-nil b = refl

  -- The loop registers exactly the filters of the mappings that have a decoder, in their order,
  -- keeps them distinct and parsed, and gives each a decoder that always emits one message or fails.
  pub add_mappings-IsSound :
      (b b' : Builder) (ms : List TopicMapping)
      → KeepsTemplates s.libraries.engine
      → IsSound b
      → add_mappings s base_dir ds b ms ≡ ok b'
      → IsSound b' × (filters b' ≡ filters b ++ decoded_filters ms)
  add_mappings-IsSound b b' [] keeps w e =
      let same : b ≡ b' = ok_inj (sym (add_mappings-nil b) ∙ e) in
      (subst IsSound same w, unfold decoded_filters in rw (sym same) (sym (append-nil (filters b))))
  add_mappings-IsSound b b' (m ∷ ms) keeps w e =
      let (b1, e1, e2) = add_mappings_inv b b' m ms e in
      let (w1, f1) = add_mapping-IsSound b b1 m keeps w e1 in
      let (w2, f2) = add_mappings-IsSound b1 b' ms keeps w1 e2 in
      (w2, rw (f2, f1, decoded_filters-cons m ms, append_assoc))
