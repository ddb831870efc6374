-- ===== src/Decoder/Utf8/Decoded.antt =====
-- src/decoder/utf8.rs: which payloads the decoder of text emits, and that it emits them as they are.
use rosetta_mq.Prelude.{
  ◌≡◌, refl, sym, ap, ◌∙◌, subst, ◌⊎◌, inl, inr, some, [], ◌∷◌, List, ℕ, Result, ok, err, ok_inj,
  arith, Result-cases,
}
use rosetta_mq.Text.{Text}
use rosetta_mq.Mqtt.{Publish}
use rosetta_mq.Util.{FilePath}
use rosetta_mq.Decoder.{ErasedDecoder, erased, erase_act, with_payload, decode, send_last, fail}
use rosetta_mq.Decoder.Emits.{sent, outcome}
use rosetta_mq.Decoder.Config.{DecoderConfig, Libraries, BuildDecoderError, build}
use rosetta_mq.Decoder.Utf8.{Utf8Error, from_utf8, utf8, utf8_decoder}
use rosetta_mq.Decoder.Utf8.Encode.{from_utf8-encode_all}
use rosetta_mq.Decoder.Utf8.Sound.{IsText, from_utf8-IsText}

-- The decoder emits the payload as it is, with the rest left to the engine, and succeeds.
abbrev pub IsPassed : ErasedDecoder → Publish → Type 0
IsPassed d m = (sent (d.run m) ≡ with_payload m.payload ∷ []) × (outcome (d.run m) ≡ some (ok tt))

-- The decoder emits nothing and fails with the text of an error of the check.
abbrev pub IsRefused : Libraries → ErasedDecoder → Publish → Type 0
IsRefused l d m =
    (sent (d.run m) ≡ [])
    × ((e : Utf8Error) × (outcome (d.run m)
          ≡ some (err (decode (record { message = l.show_utf8_error e })))))

IsText-accepted : (bytes : List ℕ) → IsText bytes → from_utf8 bytes ≡ ok bytes
IsText-accepted bytes t =
    subst (λ b. from_utf8 b ≡ ok b) t.encoded (from_utf8-encode_all t.code_points t.scalars)

module _ (l : Libraries) (m : Publish) where
  abbrev display : Utf8Error → Text
  display = l.show_utf8_error

  run_text :
      from_utf8 m.payload ≡ ok m.payload → utf8 display m ≡ send_last (with_payload m.payload)
  unfolding utf8
  run_text h = ground arith

  run_other : (e : Utf8Error) → from_utf8 m.payload ≡ err e → utf8 display m ≡ fail e
  unfolding utf8
  run_other e h = ground arith

  passes_text : from_utf8 m.payload ≡ ok m.payload → IsPassed (erased (utf8_decoder display)) m
  unfolding erased erase_act utf8_decoder sent outcome
  passes_text h =
      subst
        (λ a.
          (sent (erase_act display a) ≡ with_payload m.payload ∷ [])
          × (outcome (erase_act display a) ≡ some (ok tt)))
        (sym (run_text h)) (refl, refl)

  refuses_other :
      (e : Utf8Error) → from_utf8 m.payload ≡ err e → IsRefused l (erased (utf8_decoder display)) m
  unfolding erased erase_act utf8_decoder sent outcome
  refuses_other e h =
      subst
        (λ a.
          (sent (erase_act display a) ≡ [])
          × ((x : Utf8Error) × (outcome (erase_act display a)
                ≡ some (err (decode (record { message = display x }))))))
        (sym (run_other e h)) (refl, (e, refl))

  run-IsDecoded :
      (IsText m.payload × IsPassed (erased (utf8_decoder display)) m)
      ⊎ ((¬ IsText m.payload) × IsRefused l (erased (utf8_decoder display)) m)
  run-IsDecoded = elim (Result-cases (from_utf8 m.payload)) [
    | inl (text, h) ↦
        let (same, is) = from_utf8-IsText m.payload text h in
        inl (is, passes_text (h ∙ ap (ok) same))
    | inr (e, h) ↦ inr ((λ is. cc (IsText-accepted m.payload is, h)), refuses_other e h)
  ]

  built :
      (base_dir : FilePath) (d : ErasedDecoder)
      → build l DecoderConfig.utf8 base_dir ≡ ok d
      → ◌≡◌ {A = Result ErasedDecoder (BuildDecoderError l)}
          (ok (erased (utf8_decoder display)))
          (ok d)
  unfolding build
  built base_dir d h = h

  -- The decoder of text that a configuration builds emits a payload unchanged, and succeeds, if the
  -- payload is the UTF-8 encoding of a sequence of code points that has no surrogate and ends at
  -- 0x10ffff; and it emits nothing and fails with an error of the check if the payload is not.
  pub utf8-IsDecoded :
      (base_dir : FilePath) (d : ErasedDecoder)
      → build l DecoderConfig.utf8 base_dir ≡ ok d
      → (IsText m.payload × IsPassed d m) ⊎ ((¬ IsText m.payload) × IsRefused l d m)
  utf8-IsDecoded base_dir d h =
      let same : erased (utf8_decoder display) ≡ d = ok_inj (built base_dir d h) in
      subst (λ x. (IsText m.payload × IsPassed x m) ⊎ ((¬ IsText m.payload) × IsRefused l x m)) same
        run-IsDecoded
