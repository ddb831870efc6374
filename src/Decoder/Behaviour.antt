-- ===== src/Decoder/Behaviour.antt =====
-- The decoders that `DecoderConfig::build` of src/decoder/mod.rs constructs: how each of them ends and
-- what it emits.
use rosetta_mq.Prelude.{
  ◌≡◌, refl, sym, subst, inl, inr, List, true, Result, ok, err, ℕ, map_err, >>=-eq-ok, Result-cases,
  map_err-eq-ok, arith,
}
use rosetta_mq.Text.{Text}
use rosetta_mq.Mqtt.{Publish}
use rosetta_mq.Util.{FilePath}
use rosetta_mq.Decoder.{Act, send_last, fail, with_payload, ErasedDecoder, erased, Decoder}
use rosetta_mq.Decoder.Emits.{IsSingle, IsSingle-send_last, IsSingle-fail, IsSingle-erase_act}
use rosetta_mq.Decoder.Hexdump.{hexdump, hexdump_decoder}
use rosetta_mq.Decoder.Utf8.{Utf8Error, from_utf8, utf8, utf8_decoder}
use rosetta_mq.Decoder.Template
use rosetta_mq.Decoder.Template.{
  Engine, TemplateDecoder, TemplateConfig, template_name, template_run, template_decoder,
}
use rosetta_mq.Decoder.Protobuf
use rosetta_mq.Decoder.Protobuf.{Schemas, ProtobufDecoder, protobuf_run, protobuf_decoder}
use rosetta_mq.Decoder.Config.{DecoderConfig, Libraries, BuildDecoderError, build}

-- A template that was added is found again: what is assumed of the template engine.
abbrev pub KeepsTemplates : Engine → Type 0
KeepsTemplates g =
    (env env' : g.Environment) (source : Text)
    → g.add_template_owned env template_name source ≡ ok env'
    → (t : g.Template) × (g.get_template env' template_name ≡ ok t)

abbrev pub AlwaysSingle : ErasedDecoder → Type 0
AlwaysSingle d = (incoming : Publish) → IsSingle (d.run incoming)

erased-AlwaysSingle :
    (d : Decoder) → ((incoming : Publish) → IsSingle (d.run incoming)) → AlwaysSingle (erased d)
unfolding erased
erased-AlwaysSingle d h incoming = IsSingle-erase_act d.display (d.run incoming) (h incoming)

module _ {E : Type 0} {a : Act E} where
  by_send : (payload : List ℕ) → a ≡ send_last (with_payload payload) → IsSingle a
  by_send payload e = subst IsSingle (sym e) (IsSingle-send_last payload)

  by_fail : (x : E) → a ≡ fail x → IsSingle a
  by_fail x e = subst IsSingle (sym e) (IsSingle-fail x)

utf8-IsSingle : (display : Utf8Error → Text) (incoming : Publish) → IsSingle (utf8 display incoming)
unfolding utf8
utf8-IsSingle display incoming = elim (Result-cases (from_utf8 incoming.payload)) [
  | inl (text, e) ↦ by_send text (ground arith)
  | inr (x, e) ↦ by_fail x (ground arith)
]

protobuf-IsSingle :
    (p : Schemas) (d : ProtobufDecoder p) (incoming : Publish)
    → IsSingle (protobuf_run p d incoming)
unfolding protobuf_run
protobuf-IsSingle p d incoming =
    elim (Result-cases (p.decode_message d.descriptor incoming.payload)) [
      | inl (message, e) ↦ elim (Result-cases (p.serialize true message)) [
        | inl (buf, f) ↦ by_send buf (ground arith)
        | inr (x, f) ↦ by_fail (Protobuf.ProtobufDecoderError.json x) (ground arith)
      ]
      | inr (x, e) ↦ by_fail (Protobuf.ProtobufDecoderError.decode x) (ground arith)
    ]

module _ (g : Engine) where
  -- The environment holds the template.
  abbrev HasTemplate : TemplateDecoder g → Type 0
  HasTemplate d = (t : g.Template) × (g.get_template d.env template_name ≡ ok t)

  template-IsSingle :
      (d : TemplateDecoder g) (incoming : Publish)
      → HasTemplate d
      → IsSingle (template_run g d incoming)
  unfolding template_run
  template-IsSingle d incoming (t, e) =
      elim (Result-cases (g.render t (Template.packet_context g incoming))) [
        | inl (rendered, f) ↦ by_send rendered (ground arith)
        | inr (x, f) ↦ by_fail (Template.TemplateDecoderError.render x) (ground arith)
      ]

  from_config-HasTemplate :
      (cfg : TemplateConfig) (d : TemplateDecoder g)
      → KeepsTemplates g
      → Template.from_config g cfg ≡ ok d
      → HasTemplate d
  from_config-HasTemplate cfg d keeps h = go _ refl
    where
      env : g.Environment
      env = g.set_undefined_behavior g.new (Template.to_engine_undefined cfg.undefined_behavior)

      same :
          (env' : g.Environment)
          → g.add_template_owned env template_name cfg.template ≡ ok env'
          → d.env ≡ env'
      same env' e = unfold Template.from_config in ground arith

      go :
          (r : Result g.Environment g.Error)
          → g.add_template_owned env template_name cfg.template ≡ r
          → HasTemplate d
      go (ok env') e =
          let (t, f) = keeps env env' cfg.template e in
          (t, subst (λ x. g.get_template x template_name ≡ ok t) (sym (same env' e)) f)
      go (err x) e = absurd (unfold Template.from_config in ground arith)

module _ (l : Libraries) where
  as_built :
      (e d : ErasedDecoder)
      → AlwaysSingle e
      → ◌≡◌ {A = Result ErasedDecoder (BuildDecoderError l)} (ok e) (ok d)
      → AlwaysSingle d
  as_built e d h p = subst AlwaysSingle {x = e} {y = d} (ground arith) h

  build-protobuf_inv :
      (cfg : Protobuf.ProtobufConfig) (base_dir : FilePath) (d : ErasedDecoder)
      → build l (DecoderConfig.protobuf cfg) base_dir ≡ ok d
      → (x : ProtobufDecoder l.schemas) × (◌≡◌ {A = Result ErasedDecoder (BuildDecoderError l)}
          (ok (erased (protobuf_decoder l.schemas x)))
          (ok d))
  unfolding build
  build-protobuf_inv cfg base_dir d h =
      let (x, _, f) =
        >>=-eq-ok (map_err BuildDecoderError.protobuf (Protobuf.from_config l.schemas cfg base_dir))
          (λ x. ok (erased (protobuf_decoder l.schemas x))) h in
      (x, f)

  build-template_inv :
      (cfg : TemplateConfig) (base_dir : FilePath) (d : ErasedDecoder)
      → build l (DecoderConfig.template cfg) base_dir ≡ ok d
      → (x : TemplateDecoder l.engine) × (Template.from_config l.engine cfg ≡ ok x)
        × (◌≡◌ {A = Result ErasedDecoder (BuildDecoderError l)}
            (ok (erased (template_decoder l.engine x)))
            (ok d))
  unfolding build
  build-template_inv cfg base_dir d h =
      let (x, e, f) =
        >>=-eq-ok (map_err BuildDecoderError.template (Template.from_config l.engine cfg))
          (λ x. ok (erased (template_decoder l.engine x))) h in
      (x, map_err-eq-ok _ _ e, f)

  -- A decoder that a configuration builds always either emits exactly one message, which leaves
  -- topic, quality of service and retain flag open, and succeeds, or emits none and fails with an
  -- error of its own; it never panics. The template engine must find the template that it was given.
  pub build-AlwaysSingle :
      (cfg : DecoderConfig) (base_dir : FilePath) (d : ErasedDecoder)
      → KeepsTemplates l.engine
      → build l cfg base_dir ≡ ok d
      → AlwaysSingle d
  build-AlwaysSingle DecoderConfig.hexdump base_dir d keeps h =
      as_built (erased (hexdump_decoder l.hex_encode)) d
        (erased-AlwaysSingle (hexdump_decoder l.hex_encode)
          (λ incoming. unfold hexdump_decoder hexdump in IsSingle-send_last _))
        (unfold build in h)
  build-AlwaysSingle DecoderConfig.utf8 base_dir d keeps h =
      as_built (erased (utf8_decoder l.show_utf8_error)) d
        (erased-AlwaysSingle (utf8_decoder l.show_utf8_error)
          (λ incoming. unfold utf8_decoder in utf8-IsSingle l.show_utf8_error incoming))
        (unfold build in h)
  build-AlwaysSingle (DecoderConfig.protobuf cfg) base_dir d keeps h =
      let (x, f) = build-protobuf_inv cfg base_dir d h in
      as_built (erased (protobuf_decoder l.schemas x)) d
        (erased-AlwaysSingle (protobuf_decoder l.schemas x)
          (λ incoming. unfold protobuf_decoder in protobuf-IsSingle l.schemas x incoming))
        f
  build-AlwaysSingle (DecoderConfig.template cfg) base_dir d keeps h =
      let (x, e, f) = build-template_inv cfg base_dir d h in
      as_built (erased (template_decoder l.engine x)) d
        (erased-AlwaysSingle (template_decoder l.engine x) (λ incoming.
          unfold template_decoder in
          template-IsSingle l.engine x incoming (from_config-HasTemplate l.engine cfg x keeps e)))
        f
