-- ===== src/Main/Requests/Published.antt =====
-- The messages that the decode tasks publish with success, read off the effects of the tasks.
use rosetta_mq.Prelude.{
  list_laws, ◌≡◌, refl, ap, ◌∙◌, Option, none, some, List, [], ◌∷◌, ◌++◌, append-nil, map, Result,
  ok, err,
}
use rosetta_mq.Decoder.{ResolvedDecodePublish, DecodePublish, Client, resolve, publish}
use rosetta_mq.Mqtt.{Publish}
use rosetta_mq.Engine.{
  Effect, called, publish_failed, log_failed, publish_decoded, Task, error_publish,
}
use rosetta_mq.Engine.Relay
use rosetta_mq.Engine.Relay.{Relay, joining, finished, panicked}
use rosetta_mq.Main.System.{World, Running, begun}
use rosetta_mq.Main.Requests.{Request, publication, Requests, Call, call_of}

module _ {E : Type 0} where
  -- The calls that succeeded: a failed one is followed by its entry in the log.
  abbrev pub succeeded : List (Effect E) → List Request
  succeeded [] = []
  succeeded (publish_failed _ _ ∷ es) = succeeded es
  succeeded (called p ∷ []) = publication p ∷ []
  succeeded (called p ∷ publish_failed _ _ ∷ es) = succeeded es
  succeeded (called p ∷ called p' ∷ es) = publication p ∷ succeeded (called p' ∷ es)

  succeeded-called :
      (out : List (Effect E)) (p : ResolvedDecodePublish) (es : List (Effect E))
      → succeeded (out ++ called p ∷ es) ≡ succeeded out ++ succeeded (called p ∷ es)
  succeeded-called [] p es = refl
  succeeded-called (publish_failed _ _ ∷ out) p es = succeeded-called out p es
  succeeded-called (called q ∷ []) p es = refl
  succeeded-called (called q ∷ publish_failed _ _ ∷ out) p es = succeeded-called out p es
  succeeded-called (called q ∷ called q' ∷ out) p es =
      ap (λ l. publication q ∷ l) (succeeded-called (called q' ∷ out) p es)

  -- The request of a call that succeeded.
  abbrev request : Request × Result (Unit {0}) E → List Request
  request (p, ok _) = p ∷ []
  request (p, err _) = []

  succeeded-publish :
      (out : List (Effect E)) (client : Client E) (m : DecodePublish) (message : Publish)
      → succeeded (out ++ publish_decoded client m message)
        ≡ succeeded out ++ request (publication (resolve m message), publish client m message)
  succeeded-publish out client m message =
      unfold publish_decoded in
      succeeded-called out (resolve m message) _
      ∙ ap (λ l. succeeded out ++ l) (by_answer (publish client m message))
    where
      by_answer :
          (r : Result (Unit {0}) E)
          → succeeded (called (resolve m message) ∷ log_failed message.topic r)
            ≡ request (publication (resolve m message), r)
      by_answer (ok _) = refl
      by_answer (err _) = refl

module _ (w : World) (c : Requests) where
  effects : Relay w.outbox w.ClientError → List (Effect w.ClientError)
  effects (joining _ _ out) = out
  effects (finished out) = out
  effects (panicked out) = out

  -- The messages that a decode task has published with success.
  unfoldable pub published : Running w → List Request
  unfolding effects
  published run = succeeded (effects run.1)

  unfoldable pub all_published : List (Running w) → List Request
  unfolding published
  all_published [] = []
  all_published (run ∷ runs) = published run ++ all_published runs

  pub all_published-append :
      (xs ys : List (Running w)) → all_published (xs ++ ys) ≡ all_published xs ++ all_published ys
  unfolding all_published
  all_published-append [] ys = refl
  all_published-append (x ∷ xs) ys = simp (all_published-append xs ys, list_laws)

  pub all_published-at :
      (before : List (Running w)) (run : Running w) (after : List (Running w))
      → all_published (before ++ run ∷ after)
        ≡ all_published before ++ (published run ++ all_published after)
  unfolding all_published
  all_published-at before run after = all_published-append before (run ∷ after)

  pub all_published-begun : (ts : List Task) → all_published (map (begun w) ts) ≡ []
  unfolding all_published published effects Relay.start
  all_published-begun [] = refl
  all_published-begun (t ∷ ts) = all_published-begun ts

  unfoldable pub requested : Option (Call w c) → List Request
  requested none = []
  requested (some call) = request call

  pub step-published :
      (t : Task) (r r' : Relay w.outbox w.ClientError)
      (x : Relay.Step w.outbox w.ClientError w.printing t.message r r')
      → published (t, r') ≡ published (t, r) ++ requested (call_of w c x)
  unfolding published effects requested
  step-published t _ _ (Relay.push _) = rw append-nil refl
  step-published t _ _ (Relay.pull {m = m} {out = out} client _) =
      succeeded-publish out client m t.message
  step-published t _ _ (Relay.finish {r = ok _} {out = out} client _) =
      unfold Relay.after_join in simp append-nil
  step-published t _ _ (Relay.finish {r = err e} {out = out} client _) =
      unfold Relay.after_join in
      succeeded-publish out client (error_publish w.printing e t.message) t.message
  step-published t _ _ Relay.crash = rw append-nil refl
