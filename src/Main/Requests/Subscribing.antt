-- ===== src/Main/Requests/Subscribing.antt =====
-- `Client::subscribe_all` of src/client.rs against the driver: what was requested, and when the start
-- of the program waits for ever.
use mathlib.Core.List.{map-append}
use rosetta_mq.Prelude.{
  ◌≤◌, ◌<◌, ◌≡◌, refl, sym, ap, ◌∙◌, ◌⊎◌, inl, inr, List, [], ◌∷◌, ◌++◌, append_assoc, map, length,
  length-append, Option-cases, Bool-cases, arith,
}
use rosetta_mq.Text.{Text}
use rosetta_mq.Mqtt.{Publish}
use rosetta_mq.Runtime.{Channel}
use rosetta_mq.Main.System.{incoming_capacity, Driver, polling, sending}
use rosetta_mq.Main.Requests.{subscription, Requests, request_capacity}
use rosetta_mq.Main.Requests.Start.{
  Phase, subscribing, failed, Start, connected, Step, accepted, refused, poll_publish, poll_other,
  poll_failed, forwarded, take_request, Reach, begin, next, IsStuck, stuck_forever,
}

module _ (inbox : Channel Publish incoming_capacity) (c : Requests) (PollError : Type 0) where
  -- The filters up to where the start is were asked for, in order and each once, and the queue holds a
  -- hundred requests at most.
  pub record IsOrdered (filters : List Text) (x : Start inbox c PollError) : Type 0 where
    pub so_far : List Text
    pub left : List Text
    pub split : filters ≡ so_far ++ left
    pub phase_is : (x.phase ≡ subscribing left) ⊎ (x.phase ≡ failed)
    pub asked_for : x.sent ++ c.queue.held x.requests ≡ map (λ f. subscription f) so_far
    pub fits : length (c.queue.held x.requests) ≤ request_capacity

  remaining : List Text → Phase inbox c PollError → List Text
  remaining d (subscribing fs) = fs
  remaining d failed = d

  same_left :
      (p : Phase inbox c PollError) (l l' : List Text)
      → (p ≡ subscribing l) ⊎ (p ≡ failed)
      → p ≡ subscribing l'
      → l ≡ l'
  unfolding remaining
  same_left p l l' (inl e) e' = ap (remaining l) (sym e ∙ e')
  same_left p l l' (inr e) e' = absurd (cc (e, e'))

  kept :
      {filters : List Text} {x : Start inbox c PollError} {d : Driver PollError} {q : inbox.Queue}
      → IsOrdered filters x
      → IsOrdered filters (record x { driver = d; queue = q })
  kept h = record {
    so_far = h.so_far;
    left = h.left;
    split = h.split;
    phase_is = h.phase_is;
    asked_for = h.asked_for;
    fits = h.fits;
  }

  step-IsOrdered :
      (filters : List Text) {x y : Start inbox c PollError}
      → Step inbox c PollError x y
      → IsOrdered filters x
      → IsOrdered filters y
  step-IsOrdered filters {x = x} (accepted f fs q left up room) h =
      let same = same_left x.phase h.left (f ∷ fs) h.phase_is left in
      record {
        so_far = h.so_far ++ f ∷ [];
        left = fs;
        split = h.split ∙ ap (λ l. h.so_far ++ l) same ∙ sym (append_assoc h.so_far (f ∷ []) fs);
        phase_is = inl refl;
        asked_for =
            ap (λ l. x.sent ++ l) (c.queue.offer_some x.requests q (subscription f) room)
            ∙ sym (append_assoc x.sent (c.queue.held x.requests) (subscription f ∷ []))
            ∙ ap (λ l. l ++ subscription f ∷ []) h.asked_for
            ∙ sym (map-append (λ (f : Text). subscription f) h.so_far (f ∷ []));
        fits = c.queue.offer_fits x.requests q (subscription f) room;
      }
  step-IsOrdered filters (refused f fs left why) h = record {
    so_far = h.so_far;
    left = h.left;
    split = h.split;
    phase_is = inr refl;
    asked_for = h.asked_for;
    fits = h.fits;
  }
  step-IsOrdered filters (poll_publish p d) h = kept h
  step-IsOrdered filters (poll_other d) h = h
  step-IsOrdered filters (poll_failed e d) h = kept h
  step-IsOrdered filters (forwarded p q d room) h = kept h
  step-IsOrdered filters {x = x} (take_request r q d e) h =
      let first = c.queue.poll_some x.requests q r e in
      record {
        so_far = h.so_far;
        left = h.left;
        split = h.split;
        phase_is = h.phase_is;
        asked_for =
            append_assoc x.sent (r ∷ []) (c.queue.held q)
            ∙ sym (ap (λ l. x.sent ++ l) first)
            ∙ h.asked_for;
        fits = omega (arith, ap (length) first, h.fits);
      }

  -- At every moment of the start, the requests that were sent and those in the client's queue are the
  -- subscriptions of the first filters, in order and each once; the filters that are left follow; and
  -- the queue holds a hundred at most.
  pub Reach-IsOrdered :
      (filters : List Text) {x : Start inbox c PollError}
      → Reach inbox c PollError filters x
      → IsOrdered filters x
  Reach-IsOrdered filters begin =
      unfold connected in
      record {
        so_far = [];
        left = filters;
        split = refl;
        phase_is = inl refl;
        asked_for = c.queue.held_empty;
        fits = omega (arith, ap (length) c.queue.held_empty);
      }
  Reach-IsOrdered filters (next h s) = step-IsOrdered filters s (Reach-IsOrdered filters h)

  length-asked : (fs : List Text) → length (map (λ f. subscription f) fs) ≡ length fs
  length-asked [] = refl
  length-asked (f ∷ fs) = omega (arith, length-asked fs)

  many_filters :
      (filters : List Text) (x : Start inbox c PollError)
      → Reach inbox c PollError filters x
      → IsStuck inbox c PollError x
      → request_capacity < length filters
  many_filters filters x h s =
      let o = Reach-IsOrdered filters h in
      omega (
        arith,
        c.queue.offer_none x.requests (subscription s.filter) s.requests_full,
        ap (length) o.split,
        length-append o.so_far o.left,
        ap (length) (same_left x.phase o.left (s.filter ∷ s.rest) o.phase_is s.left),
        ap (length) o.asked_for,
        length-append x.sent (c.queue.held x.requests),
        length-asked o.so_far,
      )

  -- A step of the start.
  abbrev pub CanStep : Start inbox c PollError → Type 0
  CanStep x = (y : Start inbox c PollError) × Step inbox c PollError x y

  -- The start waits for ever, and there were more filters than the queue has room for.
  pub record IsDeadlocked (filters : List Text) (x : Start inbox c PollError) : Type 0 where
    pub stuck : IsStuck inbox c PollError x
    pub for_ever : (y : Start inbox c PollError) → ¬ Step inbox c PollError x y
    pub many : request_capacity < length filters

  -- While `main` subscribes to its filters, the driver polls the connection, or a step is possible, or
  -- the start is deadlocked: the driver waits for room in the channel of packets, the next
  -- subscription for room in the queue of requests, and no step is possible ever after. The last
  -- needs more than a hundred filters.
  pub subscribing_moves :
      (filters : List Text) (x : Start inbox c PollError)
      → Reach inbox c PollError filters x
      → (f : Text) (fs : List Text) → x.phase ≡ subscribing (f ∷ fs)
      → (x.driver ≡ polling) ⊎ CanStep x ⊎ IsDeadlocked filters x
  subscribing_moves filters x h f fs left = by_driver x.driver refl
    where
      waiting : (p : Publish) → x.driver ≡ sending p → CanStep x ⊎ IsDeadlocked filters x
      waiting p d = elim (Option-cases (inbox.offer x.queue p)) [
        | inr (q, room) ↦ inl (_, forwarded p q d room)
        | inl inbox_full ↦ elim (Bool-cases (c.refuses (subscription f))) [
          | inl bad ↦ inl (_, refused f fs left (inl bad))
          | inr taken ↦ elim (Option-cases (c.queue.offer x.requests (subscription f))) [
            | inr (q, room) ↦ inl (_, accepted f fs q left (λ (r, gone). cc (d, gone)) room)
            | inl requests_full ↦
                let stuck : IsStuck inbox c PollError x = record {
                  packet = p;
                  holds = d;
                  inbox_full = inbox_full;
                  filter = f;
                  rest = fs;
                  left = left;
                  taken = taken;
                  requests_full = requests_full;
                } in
                inr (record {
                  stuck = stuck;
                  for_ever = λ y. stuck_forever inbox c PollError x y stuck;
                  many = many_filters filters x h stuck;
                })
          ]
        ]
      ]

      by_driver :
          (d : Driver PollError)
          → x.driver ≡ d
          → (x.driver ≡ polling) ⊎ CanStep x ⊎ IsDeadlocked filters x
      by_driver Driver.polling e = inl e
      by_driver (Driver.sending p) e = inr (waiting p e)
      by_driver (Driver.ended r) e = inr (inl (_, refused f fs left (inr (r, e))))
