-- ===== src/Main/Output.antt =====
-- src/main.rs with src/engine.rs: from a message to its output, by the decoders that `main` registers.
use rosetta_mq.Prelude.{
  ℕ, Bool, ◌≤◌, length, In, some_inj, subst, ◌≡◌, refl, ◌≢◌, sym, ap, ◌∙◌, inl, inr, none, some,
  List, [], ◌∷◌, ◌++◌, All, All-at, arith, ok, err,
}
use rosetta_mq.Text.{Text, codes}
use rosetta_mq.Mqtt.{Publish}
use rosetta_mq.Decoder.{
  DecodePublish, Client, ErasedDecoder, BoxedDecodeError, Act, ResolvedDecodePublish, resolve,
  with_payload, decode,
}
use rosetta_mq.Decoder.Emits.{IsSingle, sent, outcome}
use rosetta_mq.Decoder.Behaviour.{AlwaysSingle}
use rosetta_mq.Decoder.Registry
use rosetta_mq.Decoder.Registry.{DecoderRegistry, RegistryEntry}
use rosetta_mq.Decoder.Registry.Resolve.{resolve-IsBest}
use rosetta_mq.Engine.{
  JoinSet, proceed, handle_incoming, decode_channel_capacity, Effect, calls, Printing,
  error_publish, show_decode_error,
}
use rosetta_mq.Engine.Loop.Feedback.{LeavesTopic, published, no_feedback}
use rosetta_mq.Engine.Relay.Progress.{relay_completes, Steps-bound}
use rosetta_mq.Runtime.{Channel}
use rosetta_mq.Engine.Relay.{Relay, start, finished, Steps}
use rosetta_mq.Engine.Relay.Outcome.{relay_calls, relay_refines}
use rosetta_mq.Main.Startup.{HasSingleDecoder}

-- The output for one message by its decoder: the payload that the decoder emits, where it succeeds
-- with that one message, or the text of the error with which it fails, where it emits none.
pub data IsOutput (p : Printing) (d : ErasedDecoder) (m : Publish)
    : ResolvedDecodePublish → Type 0 where
  decoded :
      (payload : List ℕ)
      → outcome (d.run m) ≡ some (ok tt)
      → sent (d.run m) ≡ with_payload payload ∷ []
      → IsOutput p d m (record {
        topic = m.topic ++ codes "/decoded";
        qos = m.qos;
        retain = m.retain;
        payload = payload;
      })
  failed :
      (e : BoxedDecodeError)
      → outcome (d.run m) ≡ some (err (decode e))
      → sent (d.run m) ≡ []
      → IsOutput p d m (record {
        topic = m.topic ++ codes "/decode_error";
        qos = m.qos;
        retain = m.retain;
        payload = codes "error: " ++ e.message ++ codes "\nraw_hex: " ++ p.hex_encode m.payload;
      })

module _ (p : Printing) (m : Publish) where
  relay_calls-single :
      (d : ErasedDecoder)
      → IsSingle (d.run m)
      → (r : ResolvedDecodePublish) × (relay_calls p m (d.run m) ≡ r ∷ []) × IsOutput p d m r
  unfolding relay_calls
  relay_calls-single d (inl (o, (payload, e))) =
      (resolve (with_payload payload) m, rw (o, e), unfold resolve in decoded payload o e)
  relay_calls-single d (inr (x, o, e)) = (
    resolve (error_publish p (decode x) m) m,
    rw (o, e),
    unfold resolve error_publish show_decode_error in failed x o e,
  )

  single-LeavesTopic : (a : Act BoxedDecodeError) → IsSingle a → All LeavesTopic (sent a)
  single-LeavesTopic a (inl (_, (payload, e))) = rw e (refl, tt)
  single-LeavesTopic a (inr (_, _, e)) = rw e tt

  single-returns : (a : Act BoxedDecodeError) → IsSingle a → outcome a ≢ none
  single-returns a (inl (o, _)) h = cc
  single-returns a (inr (_, o, _)) h = cc

length-single : (a : Act BoxedDecodeError) → IsSingle a → length (sent a) ≤ 1
length-single a (inl (_, (payload, e))) = omega (arith, ap (length) e)
length-single a (inr (_, _, e)) = omega (arith, ap (length) e)

resolved-AlwaysSingle :
    (matches : Text → Text → Bool) (registry : DecoderRegistry ErasedDecoder) (topic : Text)
    (d : ErasedDecoder)
    → All HasSingleDecoder registry.entries
    → Registry.resolve matches registry topic ≡ some d
    → AlwaysSingle d
resolved-AlwaysSingle matches registry topic d h e = elim (resolve-IsBest matches topic registry) [
  | inl (nothing, _) ↦ cc
  | inr (x, found, best) ↦
      subst AlwaysSingle {x = x.decoder} {y = d} (some_inj (sym found ∙ e))
        (All-at HasSingleDecoder registry.entries h best.member)
]

module _ (p : Printing) (ch : Channel DecodePublish decode_channel_capacity) (ClientError : Type 0)
    (matches : Text → Text → Bool) where
  module _ (registry : DecoderRegistry ErasedDecoder) (m : Publish) (d : ErasedDecoder)
      (single : All HasSingleDecoder registry.entries)
      (found : Registry.resolve matches registry m.topic ≡ some d) where
    found-IsSingle : IsSingle (d.run m)
    found-IsSingle = resolved-AlwaysSingle matches registry m.topic d single found m

    pub resolved-returns : outcome (d.run m) ≢ none
    resolved-returns = single-returns p m (d.run m) found-IsSingle

    -- With a registry of decoders that always emit one message or fail, a decode task that comes to
    -- its end, after any interleaving and whatever the client answers, has published exactly one
    -- message: either the payload that its decoder emits, where the decoder succeeds, on
    -- the message's topic with `/decoded` behind it, or the text of the error with which its decoder
    -- fails and the payload in hexadecimal, on the topic with `/decode_error` behind it; both with
    -- the message's quality of service and retain flag.
    pub publishes_once :
        (n : ℕ) (out : List (Effect ClientError))
        → Steps ch ClientError p m n (start ch ClientError d m) (finished out)
        → (r : ResolvedDecodePublish) × (calls out ≡ r ∷ []) × IsOutput p d m r
    publishes_once n out xs =
        let (r, q, o) = relay_calls-single p m d found-IsSingle in
        (
          r,
          relay_refines p m ch ClientError d n out (single-returns p m (d.run m) found-IsSingle) xs
              ∙ q,
          o,
        )

    -- With such a registry, the task of a message that has a decoder has a schedule that ends with
    -- its one output published.
    pub publishes_eventually :
        Client ClientError
        → (n : ℕ) × (out : List (Effect ClientError)) × Steps ch ClientError p m n
            (start ch ClientError d m)
            (finished out)
          × ((r : ResolvedDecodePublish) × (calls out ≡ r ∷ []) × IsOutput p d m r)
    publishes_eventually client =
        let (n, out, xs, _) =
          relay_completes p m ch ClientError client d
            (single-returns p m (d.run m) found-IsSingle) in
        (n, out, xs, publishes_once n out xs)

    -- With such a registry, no schedule of a message's task is longer than three steps.
    three-Steps :
        (n : ℕ) (r : Relay ch ClientError)
        → Steps ch ClientError p m n (start ch ClientError d m) r
        → n ≤ 3
    three-Steps n r xs =
        omega
          (arith, Steps-bound p m ch ClientError d n r xs, length-single (d.run m) found-IsSingle)

    -- With such a registry, no message that a decode task has published at any point starts a task
    -- when it comes back from the broker.
    pub no_loop :
        (j : JoinSet) (n : ℕ) (t : Relay ch ClientError) (back : Publish)
        (r : ResolvedDecodePublish) (tasks : j.Tasks)
        → Steps ch ClientError p m n (start ch ClientError d m) t
        → In r (published p ch ClientError t)
        → back.topic ≡ r.topic
        → handle_incoming j matches (some back) registry tasks ≡ (proceed, tasks)
    no_loop j n t back r tasks =
        no_feedback p ch ClientError m d j matches registry n t back r tasks resolved-returns
          (single-LeavesTopic p m (d.run m) found-IsSingle)
