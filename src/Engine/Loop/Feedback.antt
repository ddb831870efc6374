-- ===== src/Engine/Loop/Feedback.antt =====
-- The skip of own topics in `handle_incoming` of src/engine.rs, and what the engine publishes.
use rosetta_mq.Prelude.{
  Bool, true, ◌||◌, ◌≡◌, ap, ◌∙◌, Option, none, some, List, [], ◌∷◌, ◌++◌, Result, ok, err, arith,
  All, All-append, All-at, In, ℕ, ◌≢◌, subst, sym,
}
use rosetta_mq.Text.{Text}
use rosetta_mq.Text.Affix.{ends_with-append}
use rosetta_mq.Mqtt.{Publish}
use rosetta_mq.Decoder.{
  ErasedDecoder, BoxedDecodeError, DecodeError, DecodePublish, Act, ResolvedDecodePublish, resolve,
  decoded_suffix,
}
use rosetta_mq.Decoder.Registry.{DecoderRegistry}
use rosetta_mq.Engine.{
  JoinSet, Printing, proceed, handle_incoming, error_publish, is_own_output, decode_error_suffix,
  decode_channel_capacity, calls,
}
use rosetta_mq.Decoder.Emits.{sent, outcome}
use rosetta_mq.Runtime.{Channel}
use rosetta_mq.Engine.Relay.{Relay, joining, finished, panicked, start, Steps}
use rosetta_mq.Engine.Relay.Outcome.{
  all_resolved, error_calls, relay_calls, due, due-start, Steps-due,
}

own_decoded : (topic : Text) → is_own_output (topic ++ decoded_suffix) ≡ true
unfolding is_own_output
own_decoded topic = rw (ends_with-append topic decoded_suffix)

or_true : (b c : Bool) → c ≡ true → b || c ≡ true
or_true b c h = ground arith

own_error : (topic : Text) → is_own_output (topic ++ decode_error_suffix) ≡ true
unfolding is_own_output
own_error topic = or_true _ _ (ends_with-append topic decode_error_suffix)

abbrev pub IsOwnOutput : ResolvedDecodePublish → Type 0
IsOwnOutput r = is_own_output r.topic ≡ true

-- The message leaves its topic to the engine.
abbrev pub LeavesTopic : DecodePublish → Type 0
LeavesTopic m = m.topic ≡ none

module _ (p : Printing) (incoming : Publish) where
  resolve-IsOwnOutput : (m : DecodePublish) → LeavesTopic m → IsOwnOutput (resolve m incoming)
  unfolding resolve
  resolve-IsOwnOutput m h = rw h (own_decoded incoming.topic)

  all_resolved-IsOwnOutput :
      (ms : List DecodePublish) → All LeavesTopic ms → All IsOwnOutput (all_resolved p incoming ms)
  all_resolved-IsOwnOutput [] h = tt
  all_resolved-IsOwnOutput (m ∷ ms) h = (resolve-IsOwnOutput m h.0, all_resolved-IsOwnOutput ms h.1)

  error_calls-IsOwnOutput :
      (o : Option (Result (Unit {0}) (DecodeError BoxedDecodeError)))
      → All IsOwnOutput (error_calls p incoming o)
  error_calls-IsOwnOutput none = tt
  error_calls-IsOwnOutput (some (ok _)) = tt
  error_calls-IsOwnOutput (some (err e)) =
      (unfold resolve error_publish in own_error incoming.topic, tt)

  relay_calls-IsOwnOutput :
      (a : Act BoxedDecodeError)
      → All LeavesTopic (sent a)
      → All IsOwnOutput (relay_calls p incoming a)
  relay_calls-IsOwnOutput a h =
      unfold relay_calls in
      All-append IsOwnOutput (all_resolved p incoming (sent a)) _
        (all_resolved-IsOwnOutput (sent a) h) (error_calls-IsOwnOutput (outcome a))

module _ {A : Type 0} (P : A → Type 0) where
  All-left : (xs ys : List A) → All P (xs ++ ys) → All P xs
  All-left [] ys h = tt
  All-left (x ∷ xs) ys h = (h.0, All-left xs ys h.1)

module _ (p : Printing) (ch : Channel DecodePublish decode_channel_capacity)
    (ClientError : Type 0) where
  -- What a task has published so far.
  abbrev pub published : Relay ch ClientError → List ResolvedDecodePublish
  published (joining a q out) = calls out
  published (finished out) = calls out
  published (panicked out) = calls out

  module _ (m : Publish) (d : ErasedDecoder) where
    due-IsOwnOutput :
        (r : Relay ch ClientError)
        → All IsOwnOutput (due p m ch ClientError r)
        → All IsOwnOutput (published r)
    due-IsOwnOutput (joining a q out) h =
        All-left IsOwnOutput (calls out) (all_resolved p m (ch.held q))
          (All-left IsOwnOutput (calls out ++ all_resolved p m (ch.held q)) (relay_calls p m a) h)
    due-IsOwnOutput (finished out) h = h
    due-IsOwnOutput (panicked out) h = h

    published-IsOwnOutput :
        (n : ℕ) (r : Relay ch ClientError)
        → outcome (d.run m) ≢ none
        → All LeavesTopic (sent (d.run m))
        → Steps ch ClientError p m n (start ch ClientError d m) r
        → All IsOwnOutput (published r)
    published-IsOwnOutput n r returns h xs = due-IsOwnOutput r (
        subst (All IsOwnOutput)
          (sym (
            Steps-due p m ch ClientError xs (unfold start in returns)
            ∙ due-start p m ch ClientError d))
          (relay_calls-IsOwnOutput p m (d.run m) h))

    -- If a decoder leaves the topic of each message that it emits to the engine and does not panic,
    -- then no message that its task has published at any point, the error message included, starts
    -- a task when it comes back from the broker.
    pub no_feedback :
        (j : JoinSet) (matches : Text → Text → Bool) (registry : DecoderRegistry ErasedDecoder)
        (n : ℕ) (r : Relay ch ClientError) (back : Publish) (x : ResolvedDecodePublish)
        (tasks : j.Tasks)
        → outcome (d.run m) ≢ none
        → All LeavesTopic (sent (d.run m))
        → Steps ch ClientError p m n (start ch ClientError d m) r
        → In x (published r)
        → back.topic ≡ x.topic
        → handle_incoming j matches (some back) registry tasks ≡ (proceed, tasks)
    unfolding handle_incoming
    no_feedback j matches registry n r back x tasks returns h xs i e =
        rw (ap is_own_output e ∙ All-at IsOwnOutput _ (published-IsOwnOutput n r returns h xs) i)
