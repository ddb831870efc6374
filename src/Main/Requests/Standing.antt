-- ===== src/Main/Requests/Standing.antt =====
-- One decode task of the running program with the client's queue of requests: at its end, free to make
-- a step, or blocked.
use rosetta_mq.Prelude.{
  ◌≡◌, refl, sym, ap, ◌∙◌, subst, ◌⊎◌, inl, inr, false, none, some, List, Result, ok, err, length,
  Option-cases, Bool-cases, some_inj, arith,
}
use rosetta_mq.Mqtt.{Publish}
use rosetta_mq.Decoder.{
  DecodePublish, Act, done, panic, send, resolve, publish, Client, DecodeError, BoxedDecodeError,
  SendError,
}
use rosetta_mq.Engine.{Effect, Task, error_publish}
use rosetta_mq.Engine.Relay
use rosetta_mq.Engine.Relay.{Relay, joining, finished, panicked}
use rosetta_mq.Main.System.{World, System, Running, AtEnd}
use rosetta_mq.Main.Requests.{Request, publication, Requests, call_of, IsGone, Answers}
use rosetta_mq.Main.Requests.Gridlock.{IsBlocked}

module _ (w : World) (c : Requests) (an_error : w.ClientError) where
  abbrev RelayStep : Publish → Relay w.outbox w.ClientError → Relay w.outbox w.ClientError → Type 0
  RelayStep = Relay.Step w.outbox w.ClientError w.printing

  -- A step of a task whose call, if it makes one, is answered now.
  pub record IsFree (s : System w) (q : c.queue.Queue) (run : Running w) : Type 0 where
    pub after : Relay w.outbox w.ClientError
    pub move : RelayStep run.0.message run.1 after
    pub left : c.queue.Queue
    pub answered : Answers w c s (call_of w c move) q left

  granting : Client w.ClientError
  granting topic qos retain payload = ok tt

  refusing : Client w.ClientError
  refusing topic qos retain payload = err an_error

  -- An answer of the client to each call that is about this request.
  record IsAnswered (s : System w) (q : c.queue.Queue) (p : Request) : Type 0 where
    client : Client w.ClientError
    result : Result (Unit {0}) w.ClientError
    always : (m : DecodePublish) (message : Publish) → publish client m message ≡ result
    rest : c.queue.Queue
    answer : Answers w c s (some (p, result)) q rest

  -- The client takes the request, and has no room for it.
  abbrev HasToWait : c.queue.Queue → Request → Type 0
  HasToWait q p = (c.queue.offer q p ≡ none) × (c.refuses p ≡ false)

  answer_or_wait :
      (s : System w) (q : c.queue.Queue) (p : Request)
      → ¬ IsGone w c s
      → IsAnswered s q p ⊎ HasToWait q p
  unfolding publish granting refusing
  answer_or_wait s q p up = elim (Bool-cases (c.refuses p)) [
    | inl bad ↦ inl (record {
      client = refusing;
      result = err an_error;
      always = λ m message. refl;
      rest = q;
      answer = Answers.failed (inl bad);
    })
    | inr fine ↦ elim (Option-cases (c.queue.offer q p)) [
      | inl full ↦ inr (full, fine)
      | inr (q', room) ↦ inl (record {
        client = granting;
        result = ok tt;
        always = λ m message. refl;
        rest = q';
        answer = Answers.queued up room;
      })
    ]
  ]

  module _ (s : System w) (q : c.queue.Queue) (up : ¬ IsGone w c s) (t : Task) where
    pulling :
        (a : Act BoxedDecodeError) (held : w.outbox.Queue) (out : List (Effect w.ClientError))
        (m : DecodePublish) (held' : w.outbox.Queue)
        → w.outbox.poll held ≡ some (m, held')
        → IsFree s q (t, joining a held out) ⊎ HasToWait q (publication (resolve m t.message))
    pulling a held out m held' e =
        elim (answer_or_wait s q (publication (resolve m t.message)) up) [
          | inl x ↦ inl (record {
            after = _;
            move = Relay.pull x.client e;
            left = x.rest;
            answered =
                subst (λ r. Answers w c s (some (publication (resolve m t.message), r)) q x.rest)
                  (sym (x.always m t.message)) x.answer;
          })
          | inr wait ↦ inr wait
        ]

    -- What a blocked task asks of each of its steps.
    abbrev CallsFine : {r r' : Relay w.outbox w.ClientError} → RelayStep t.message r r' → Type 0
    CallsFine x =
        (p : Request) × (a : Result (Unit {0}) w.ClientError) × (call_of w c x ≡ some (p, a))
        × (c.refuses p ≡ false)

    module _ (held : w.outbox.Queue) (out : List (Effect w.ClientError)) where
      still_fine :
          {m m' : DecodePublish} {rest rest' : w.outbox.Queue}
          → w.outbox.poll held ≡ some (m, rest)
          → w.outbox.poll held ≡ some (m', rest')
          → c.refuses (publication (resolve m t.message)) ≡ false
          → c.refuses (publication (resolve m' t.message)) ≡ false
      still_fine e e' fine =
          let same = ap (λ (x : DecodePublish × w.outbox.Queue). x.0) (some_inj (sym e ∙ e')) in
          subst (λ m. c.refuses (publication (resolve m t.message)) ≡ false) same fine

      done_pulls :
          (r : Result (Unit {0}) (DecodeError BoxedDecodeError)) {m : DecodePublish}
          {rest : w.outbox.Queue}
          → w.outbox.poll held ≡ some (m, rest)
          → c.refuses (publication (resolve m t.message)) ≡ false
          → (r' : Relay w.outbox w.ClientError)
            (x : RelayStep t.message (joining (done r) held out) r')
          → CallsFine x
      done_pulls r e fine r' (Relay.pull client e') = (_, _, refl, still_fine e e' fine)
      done_pulls r e fine r' (Relay.finish client e') = absurd (cc (e, e'))

      done_fails :
          (why : DecodeError BoxedDecodeError)
          → w.outbox.poll held ≡ none
          → c.refuses (publication (resolve (error_publish w.printing why t.message) t.message))
            ≡ false
          → (r' : Relay w.outbox w.ClientError)
            (x : RelayStep t.message (joining (done (err why)) held out) r')
          → CallsFine x
      done_fails why e fine r' (Relay.pull client e') = absurd (cc (e, e'))
      done_fails why e fine r' (Relay.finish client e') = (_, _, refl, fine)

      send_pulls :
          (m : DecodePublish) (k : Result (Unit {0}) SendError → Act BoxedDecodeError)
          {m' : DecodePublish} {rest : w.outbox.Queue}
          → w.outbox.offer held m ≡ none
          → w.outbox.poll held ≡ some (m', rest)
          → c.refuses (publication (resolve m' t.message)) ≡ false
          → (r' : Relay w.outbox w.ClientError)
            (x : RelayStep t.message (joining (send m k) held out) r')
          → CallsFine x
      send_pulls m k full e fine r' (Relay.push room) = absurd (cc (full, room))
      send_pulls m k full e fine r' (Relay.pull client e') = (_, _, refl, still_fine e e' fine)

    -- A task is at its end, or it is free to make a step, or it is blocked while there is no room.
    pub data Standing : Relay w.outbox w.ClientError → Type 0 where
      at_end : {r : Relay w.outbox w.ClientError} → AtEnd w r → Standing r
      free : {r : Relay w.outbox w.ClientError} → IsFree s q (t, r) → Standing r
      stuck :
          {r : Relay w.outbox w.ClientError} (p : Request)
          → c.queue.offer q p ≡ none
          → IsBlocked w c (t, r)
          → Standing r

    finishing :
        (r : Result (Unit {0}) (DecodeError BoxedDecodeError)) (held : w.outbox.Queue)
        (out : List (Effect w.ClientError))
        → w.outbox.poll held ≡ none
        → Standing (joining (done r) held out)
    finishing (ok _) held out e =
        free (record {
          after = _;
          move = Relay.finish granting e;
          left = q;
          answered = Answers.no_call;
        })
    finishing (err why) held out e =
        let text = error_publish w.printing why t.message in
        elim (answer_or_wait s q (publication (resolve text t.message)) up) [
          | inl x ↦ free (record {
            after = _;
            move = Relay.finish x.client e;
            left = x.rest;
            answered =
                subst (λ r. Answers w c s (some (publication (resolve text t.message), r)) q x.rest)
                  (sym (x.always text t.message)) x.answer;
          })
          | inr (full, fine) ↦
              stuck (publication (resolve text t.message)) full
                (record { under_way = λ over. over; calls = done_fails held out why e fine })
        ]

    pub standing : (r : Relay w.outbox w.ClientError) → Standing r
    standing (finished out) = at_end tt
    standing (panicked out) = at_end tt
    standing (joining (panic why) held out) =
        free (record { after = _; move = Relay.crash; left = q; answered = Answers.no_call })
    standing (joining (done r) held out) = elim (Option-cases (w.outbox.poll held)) [
      | inl empty ↦ finishing r held out empty
      | inr ((m, rest), e) ↦ elim (pulling (done r) held out m rest e) [
        | inl x ↦ free x
        | inr (full, fine) ↦
            stuck (publication (resolve m t.message)) full
              (record { under_way = λ over. over; calls = done_pulls held out r e fine })
      ]
    ]
    standing (joining (send m k) held out) = elim (Option-cases (w.outbox.offer held m)) [
      | inr (held', room) ↦
          free (record { after = _; move = Relay.push room; left = q; answered = Answers.no_call })
      | inl no_room ↦ elim (Option-cases (w.outbox.poll held)) [
        | inl empty ↦ absurd (
            omega (
              arith,
              w.outbox.offer_none held m no_room,
              ap (length) (w.outbox.poll_none held empty),
            ))
        | inr ((m', rest), e) ↦ elim (pulling (send m k) held out m' rest e) [
          | inl x ↦ free x
          | inr (full, fine) ↦
              stuck (publication (resolve m' t.message)) full (record {
                under_way = λ over. over;
                calls = send_pulls held out m k no_room e fine;
              })
        ]
      ]
    ]
