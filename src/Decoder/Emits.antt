-- ===== src/Decoder/Emits.antt =====
-- What a decoder emits and how it ends, if every send succeeds.
use mathlib.Core.Option
use rosetta_mq.Prelude.{
  ap, ◌∙◌, ◌≡◌, refl, ◌⊎◌, inl, inr, Option, none, some, List, [], ◌∷◌, Result, ok, err, ℕ, map_err,
}
use rosetta_mq.Text.{Text}
use rosetta_mq.Decoder.{
  DecodePublish, with_payload, DecodeError, decode, Act, done, panic, send, send_last, fail, erase,
  erase_act,
}

-- The result is `none` where the decoder panics.
unfoldable pub sent : {E : Type 0} → Act E → List DecodePublish
sent (done r) = []
sent (panic why) = []
sent (send m k) = m ∷ sent (k (ok tt))

unfoldable pub outcome : {E : Type 0} → Act E → Option (Result (Unit {0}) (DecodeError E))
outcome (done r) = some r
outcome (panic why) = none
outcome (send m k) = outcome (k (ok tt))

-- One message, which leaves topic, quality of service and retain flag to the engine, and success; or
-- no message and an error of the decoding.
abbrev pub IsSingle : {E : Type 0} → Act E → Type 0
IsSingle {E} a =
    ((outcome a ≡ some (ok tt)) × ((payload : List ℕ) × (sent a ≡ with_payload payload ∷ [])))
    ⊎ ((e : E) × (outcome a ≡ some (err (decode e))) × (sent a ≡ []))

module _ {E : Type 0} where
  pub IsSingle-send_last : (payload : List ℕ) → IsSingle {E = E} (send_last (with_payload payload))
  unfolding sent outcome
  IsSingle-send_last payload = inl (refl, (payload, refl))

  pub IsSingle-fail : (e : E) → IsSingle (fail e)
  unfolding sent outcome
  IsSingle-fail e = inr (e, refl, refl)

  sent-erase_act : (display : E → Text) (a : Act E) → sent (erase_act display a) ≡ sent a
  unfolding sent erase_act
  sent-erase_act display (done r) = refl
  sent-erase_act display (panic why) = refl
  sent-erase_act display (send m k) = ap (λ ms. m ∷ ms) (sent-erase_act display (k (ok tt)))

  outcome-erase_act :
      (display : E → Text) (a : Act E)
      → outcome (erase_act display a) ≡ Option.map (map_err (erase display)) (outcome a)
  unfolding outcome erase_act
  outcome-erase_act display (done r) = refl
  outcome-erase_act display (panic why) = refl
  outcome-erase_act display (send m k) = outcome-erase_act display (k (ok tt))

  pub IsSingle-erase_act :
      (display : E → Text) (a : Act E) → IsSingle a → IsSingle (erase_act display a)
  IsSingle-erase_act display a (inl (o, (payload, e))) = inl (
    outcome-erase_act display a ∙ ap (Option.map (map_err (erase display))) o,
    (payload, sent-erase_act display a ∙ e),
  )
  IsSingle-erase_act display a (inr (x, o, e)) = inr (
    record { message = display x },
    outcome-erase_act display a ∙ ap (Option.map (map_err (erase display))) o,
    sent-erase_act display a ∙ e,
  )
