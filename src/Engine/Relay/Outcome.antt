-- ===== src/Engine/Relay/Outcome.antt =====
-- `decode_and_publish` of src/engine.rs: the calls that are due, whatever the interleaving.
use rosetta_mq.Prelude.{
  list_laws, ℕ, ◌≡◌, refl, ◌≢◌, ap, ◌∙◌, Option, none, some, List, [], ◌∷◌, ◌++◌, map, Result, ok,
  err, arith,
}
use rosetta_mq.Mqtt.{Publish}
use rosetta_mq.Decoder.{
  DecodePublish, DecodeError, BoxedDecodeError, Act, ResolvedDecodePublish, resolve, Client,
  ErasedDecoder,
}
use rosetta_mq.Decoder.Emits.{sent, outcome}
use rosetta_mq.Engine.{
  decode_channel_capacity, Effect, called, publish_failed, calls, publish_decoded, Printing,
  error_publish,
}
use rosetta_mq.Runtime.{Channel}
use rosetta_mq.Engine.Relay.{
  Relay, joining, finished, panicked, after_join, start, Step, push, pull, finish, crash, Steps,
  stay, step,
}

module _ {ClientError : Type 0} where
  pub calls-append : (xs ys : List (Effect ClientError)) → calls (xs ++ ys) ≡ calls xs ++ calls ys
  calls-append [] ys = refl
  calls-append (called r ∷ xs) ys = ap (λ c. r ∷ c) (calls-append xs ys)
  calls-append (publish_failed t e ∷ xs) ys = calls-append xs ys

  -- Whatever the client answers, one call was made.
  pub calls-publish_decoded :
      (client : Client ClientError) (m : DecodePublish) (incoming : Publish)
      → calls (publish_decoded client m incoming) ≡ resolve m incoming ∷ []
  unfolding publish_decoded
  calls-publish_decoded client m incoming = ground arith

module _ (p : Printing) (message : Publish) where
  abbrev pub all_resolved : List DecodePublish → List ResolvedDecodePublish
  all_resolved = map (λ m. resolve m message)

  abbrev pub error_calls :
      Option (Result (Unit {0}) (DecodeError BoxedDecodeError)) → List ResolvedDecodePublish
  error_calls none = []
  error_calls (some (ok _)) = []
  error_calls (some (err e)) = resolve (error_publish p e message) message ∷ []

  -- The calls of the client for one message: all that the decoder emits, in order, and then the
  -- error message if it fails.
  unfoldable pub relay_calls : Act BoxedDecodeError → List ResolvedDecodePublish
  unfolding sent outcome
  relay_calls a = all_resolved (sent a) ++ error_calls (outcome a)

  module _ (ch : Channel DecodePublish decode_channel_capacity) (ClientError : Type 0) where
    abbrev pub Returns : Relay ch ClientError → Type 0
    Returns (joining a q out) = outcome a ≢ none
    Returns (finished out) = Unit
    Returns (panicked out) = ⊥

    -- The calls made and those still due.
    abbrev pub due : Relay ch ClientError → List ResolvedDecodePublish
    due (joining a q out) = calls out ++ all_resolved (ch.held q) ++ relay_calls a
    due (finished out) = calls out
    due (panicked out) = calls out

    calls-after_join :
        (client : Client ClientError) (r : Result (Unit {0}) (DecodeError BoxedDecodeError))
        → calls (after_join ch ClientError p client message r) ≡ error_calls (some r)
    unfolding after_join
    calls-after_join client (ok _) = refl
    calls-after_join client (err e) =
        calls-publish_decoded client (error_publish p e message) message

    pub Step-due :
        {r s : Relay ch ClientError}
        → Step ch ClientError p message r s
        → Returns r
        → Returns s × (due s ≡ due r)
    Step-due (push {m = m} {k = k} {q = q} {q' = q'} {out = out} e) h =
        (unfold outcome in h, unfold relay_calls in simp (ch.offer_some q q' m e, list_laws))
    Step-due (pull {a = a} {m = m} {q = q} {q' = q'} {out = out} client e) h =
        (h, simp (calls-append, calls-publish_decoded, ch.poll_some q q' m e, list_laws))
    Step-due (finish {r = r} {q = q} {out = out} client e) h = (
      tt,
      unfold relay_calls in
          simp (calls-append, calls-after_join client r, ch.poll_none q e, list_laws),
    )
    Step-due crash h = absurd (unfold outcome in h refl)

    pub Steps-due :
        {n : ℕ} {r s : Relay ch ClientError}
        → Steps ch ClientError p message n r s
        → Returns r
        → due s ≡ due r
    Steps-due stay h = refl
    Steps-due (step x xs) h = let (k, e) = Step-due x h in Steps-due xs k ∙ e

    pub due-start :
        (d : ErasedDecoder) → due (start ch ClientError d message) ≡ relay_calls (d.run message)
    unfolding start
    due-start d = rw ch.held_empty

    -- However the two sides are interleaved and whatever the client answers, a decode task that
    -- comes to its end has made exactly these calls: the messages that its decoder emits, in order,
    -- each with what it leaves out taken from the incoming packet, and then the error message if
    -- the decoder failed. The decoder must not panic.
    pub relay_refines :
        (d : ErasedDecoder) (n : ℕ) (out : List (Effect ClientError))
        → outcome (d.run message) ≢ none
        → Steps ch ClientError p message n (start ch ClientError d message) (finished out)
        → calls out ≡ relay_calls (d.run message)
    relay_refines d n out h xs = Steps-due xs (unfold start in h) ∙ due-start d
