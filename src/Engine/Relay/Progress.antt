-- ===== src/Engine/Relay/Progress.antt =====
-- `decode_and_publish` of src/engine.rs: the steps that are possible, and how many there are.
use rosetta_mq.Prelude.{
  ℕ, zero, suc, ◌+◌, ◌*◌, ◌≤◌, ◌≡◌, ◌≢◌, ap, none, List, [], ◌∷◌, ◌++◌, ok, length, length-append,
  arith, Option-cases, inl, inr,
}
use rosetta_mq.Mqtt.{Publish}
use rosetta_mq.Decoder.{
  DecodePublish, BoxedDecodeError, Act, done, panic, send, Client, ErasedDecoder,
}
use rosetta_mq.Engine.{decode_channel_capacity, Effect, calls, publish_decoded, Printing}
use rosetta_mq.Runtime.{Channel}
use rosetta_mq.Engine.Relay.{
  Relay, joining, finished, panicked, after_join, start, Step, push, pull, finish, crash, Steps,
  stay, step,
}
use rosetta_mq.Decoder.Emits.{sent, outcome}
use rosetta_mq.Engine.Relay.Outcome.{Returns, Step-due, relay_calls, relay_refines}

module _ (p : Printing) (message : Publish) (ch : Channel DecodePublish decode_channel_capacity)
    (ClientError : Type 0) where
  -- Each message takes a step into the channel and one out of it, and the end takes one.
  abbrev pub steps_left : Relay ch ClientError → ℕ
  steps_left (joining a q out) = 1 + length (ch.held q) + 2 * length (sent a)
  steps_left (finished out) = 0
  steps_left (panicked out) = 0

  pub Step-steps_left :
      {r s : Relay ch ClientError}
      → Step ch ClientError p message r s
      → suc (steps_left s) ≤ steps_left r
  Step-steps_left (push {m = m} {k = k} {q = q} {q' = q'} e) =
      unfold sent in
      omega (arith, ap (length) (ch.offer_some q q' m e), length-append {0} (ch.held q) (m ∷ []))
  Step-steps_left (pull {m = m} {q = q} {q' = q'} client e) =
      omega (arith, ap (length) (ch.poll_some q q' m e))
  Step-steps_left (finish client e) = omega arith
  Step-steps_left crash = omega arith

  -- No schedule is longer than one step and two for each message that the decoder emits.
  pub Steps-bound :
      (d : ErasedDecoder) (n : ℕ) (r : Relay ch ClientError)
      → Steps ch ClientError p message n (start ch ClientError d message) r
      → n ≤ 1 + 2 * length (sent (d.run message))
  Steps-bound d n r xs = omega (arith, bound xs, start_left)
    where
      bound :
          {m : ℕ} {s t : Relay ch ClientError}
          → Steps ch ClientError p message m s t
          → m + steps_left t ≤ steps_left s
      bound stay = omega arith
      bound (step x xs) = omega (arith, Step-steps_left x, bound xs)

      start_left :
          steps_left (start ch ClientError d message) ≡ 1 + 2 * length (sent (d.run message))
      start_left = unfold start in omega (arith, ap (length) ch.held_empty)

  -- The relay is never stuck: while it is under way, whatever the decoder does next and whatever
  -- the channel holds, a step is possible.
  pub relay_progress :
      Client ClientError
      → (a : Act BoxedDecodeError) (q : ch.Queue) (out : List (Effect ClientError))
      → (s : Relay ch ClientError) × Step ch ClientError p message (joining a q out) s
  relay_progress client a q out = elim (Option-cases (ch.poll q)) [
    | inr ((m, q'), e) ↦ (joining a q' (out ++ publish_decoded client m message), pull client e)
    | inl e ↦ when_empty a e
  ]
    where
      when_empty :
          (b : Act BoxedDecodeError)
          → ch.poll q ≡ none
          → (s : Relay ch ClientError) × Step ch ClientError p message (joining b q out) s
      when_empty (done r) e =
          (finished (out ++ after_join ch ClientError p client message r), finish client e)
      when_empty (panic why) e = (panicked out, crash)
      when_empty (send m k) e = elim (Option-cases (ch.offer q m)) [
        | inr (q', f) ↦ (joining (k (ok tt)) q' out, push f)
        | inl f ↦ absurd (omega (arith, ap (length) (ch.poll_none q e), ch.offer_none q m f))
      ]

  pub complete :
      Client ClientError
      → (fuel : ℕ) (r : Relay ch ClientError) → steps_left r ≤ fuel
      → Returns p message ch ClientError r
      → (n : ℕ) × (out : List (Effect ClientError)) × Steps ch ClientError p message n r
          (finished out)
  complete client fuel (finished out) h g = (0, out, stay)
  complete client fuel (panicked out) h g = absurd g
  complete client zero (joining a q out) h g = absurd (omega arith)
  complete client (suc fuel) (joining a q out) h g =
      let (s, x) = relay_progress client a q out in
      let (n, end, xs) =
        complete client fuel s (omega (arith, Step-steps_left x))
          (Step-due p message ch ClientError x g).0 in
      (suc n, end, step x xs)

  -- A decoder that does not panic has a schedule that ends, with exactly the calls that are due.
  pub relay_completes :
      Client ClientError
      → (d : ErasedDecoder) → outcome (d.run message) ≢ none
      → (n : ℕ) × (out : List (Effect ClientError)) × Steps ch ClientError p message n
          (start ch ClientError d message)
          (finished out)
        × (calls out ≡ relay_calls p message (d.run message))
  relay_completes client d h =
      let (n, out, xs) =
        complete client (steps_left (start ch ClientError d message))
          (start ch ClientError d message) (omega arith) (unfold start in h) in
      (n, out, xs, relay_refines p message ch ClientError d n out h xs)
