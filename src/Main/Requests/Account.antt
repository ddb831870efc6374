-- ===== src/Main/Requests/Account.antt =====
-- What becomes of the messages that the decode tasks publish, in the running program with the client's
-- queue of requests.
use mathlib.Core.List.{Perm, perm_append_comm}
use mathlib.Core.List.Perm
use rosetta_mq.Prelude.{
  list_laws, ◌≤◌, ◌≡◌, sym, ap, ◌∙◌, subst, Option, List, [], ◌∷◌, ◌++◌, map, append-nil,
  append_assoc, length, arith,
}
use rosetta_mq.Engine.{Task}
use rosetta_mq.Engine.Relay
use rosetta_mq.Engine.Relay.{Relay, joining, finished, panicked}
use rosetta_mq.Main.System
use rosetta_mq.Main.System.{World, System, Running, begun, Action}
use rosetta_mq.Main.System.Exit.{none_aborted}
use rosetta_mq.Text.{Text}
use rosetta_mq.Main.Requests.{
  Request, subscription, Requests, Program, Call, call_of, call_in, request_capacity, Answers, act,
  take_request, Reach, begin, next, init, system-Reach,
}
use rosetta_mq.Main.Requests.Published.{
  published, all_published, all_published-append, all_published-at, all_published-begun, requested,
  step-published,
}

module _ {A : Type 0} where
  -- A block moves behind the next two.
  move_back :
      (b r a j x : List A) → Perm (((b ++ a) ++ (j ++ r)) ++ x) (((b ++ (r ++ a)) ++ j) ++ x)
  move_back b r a j x =
      simp list_laws
        (Perm.append_left b (simp list_laws at (Perm.append_right x (perm_append_comm (a ++ j) r))))

  -- A block moves to the end.
  move_last :
      (b p q a j x : List A)
      → Perm (((b ++ ((p ++ q) ++ a)) ++ j) ++ x) ((((b ++ (p ++ a)) ++ j) ++ x) ++ q)
  move_last b p q a j x = simp list_laws (
      Perm.append_left b
        (Perm.append_left p (simp list_laws at (perm_append_comm q ((a ++ j) ++ x)))))

module _ (w : World) (c : Requests) where
  -- Over all decode tasks: those under way, those whose end was reported, and those stopped.
  pub total : System w → List Request
  total s = all_published w c s.running ++ all_published w c s.joined ++ all_published w c s.aborted

  work-total :
      (s : System w) (before after : List (Running w)) (t : Task)
      (r r' : Relay w.outbox w.ClientError)
      (x : Relay.Step w.outbox w.ClientError w.printing t.message r r')
      → s.running ≡ before ++ (t, r) ∷ after
      → Perm
          (total (record s { running = before ++ (t, r') ∷ after }))
          (total s ++ requested w c (call_of w c x))
  work-total s before after t r r' x e =
      unfold total in
      rw
        (
          e,
          all_published-at w c before (t, r) after,
          all_published-at w c before (t, r') after,
          step-published w c t r r' x,
        )
        (move_last (all_published w c before) (published w c (t, r)) (requested w c (call_of w c x))
          (all_published w c after) (all_published w c s.joined) (all_published w c s.aborted))

  join-total :
      (s : System w) (before after : List (Running w)) (run : Running w)
      → s.running ≡ before ++ run ∷ after
      → Perm
          (all_published w c (before ++ after)
            ++ all_published w c (s.joined ++ run ∷ [])
            ++ all_published w c s.aborted)
          (total s)
  unfolding all_published
  join-total s before after run e =
      unfold total in
      rw
        (
          e,
          all_published-at w c before run after,
          all_published-append w c before after,
          all_published-at w c s.joined run [],
          append-nil,
        )
        (move_back (all_published w c before) (published w c run) (all_published w c after)
          (all_published w c s.joined) (all_published w c s.aborted))

  same_total : {xs : List Request} → Perm xs (xs ++ [])
  same_total {xs} = rw append-nil (Perm.refl xs)

  Action-total :
      {s t : System w}
      → System.Reach w s
      → (a : Action w s t) → Perm (total t) (total s ++ requested w c (call_in w c a))
  unfolding total requested
  Action-total h (Action.poll_publish p d) = same_total
  Action-total h (Action.poll_other d) = same_total
  Action-total h (Action.poll_failed e d) = same_total
  Action-total h (Action.sent p q d up o) = same_total
  Action-total h (Action.refused p d gone) = same_total
  Action-total {s = s} h (Action.receive m q looks room e) =
      simp (all_published-append w c, all_published-begun w c, append-nil) (Perm.refl (total s))
  Action-total h (Action.closed r looks room d e) = same_total
  Action-total h (Action.cancelled looks m) = same_total
  Action-total {s = s} h (Action.work before after t r r' e x) =
      work-total s before after t r r' x e
  Action-total {s = s} h (Action.join before after t r tasks up e done x) =
      rw append-nil (join-total s before after (t, r) e)
  Action-total h (Action.drained waits left) = same_total
  Action-total {s = s} h (Action.timed_out waits) =
      rw (none_aborted w s h (λ over. cc (waits, over)), append-nil)
        (unfold all_published in
          rw append-nil
            (perm_append_comm (all_published w c s.joined) (all_published w c s.running)))
  Action-total h (Action.driver_ended r m d) = same_total
  Action-total h (Action.ctrl_c m) = same_total
  Action-total h (Action.exit m over) = same_total

  -- The requests are those of the subscriptions that still waited when the engine was spawned, and of
  -- the calls that succeeded: each was sent, or is in the queue, which holds a hundred at most.
  pub record IsBalanced (x : Program w c) : Type 0 where
    pub filters : List Text
    pub balance :
        Perm
          (map (λ f. subscription f) filters ++ total x.system)
          (x.sent ++ c.queue.held x.requests)
    pub fits : length (c.queue.held x.requests) ≤ request_capacity

  Answers-held :
      {s : System w} {call : Option (Call w c)} {q q' : c.queue.Queue}
      → Answers w c s call q q'
      → length (c.queue.held q) ≤ request_capacity
      → (c.queue.held q' ≡ c.queue.held q ++ requested w c call)
        × (length (c.queue.held q') ≤ request_capacity)
  unfolding requested
  Answers-held Answers.no_call h = (sym (append-nil _), h)
  Answers-held (Answers.queued {p = p} {q = q} {q' = q'} up o) h =
      (c.queue.offer_some q q' p o, c.queue.offer_fits q q' p o)
  Answers-held (Answers.failed why) h = (sym (append-nil _), h)

  -- In every state of the program, the requests that the driver has sent since the engine was spawned
  -- and those that wait in the client's queue are exactly, each as often, some subscriptions of the
  -- start and the messages that the decode tasks have published with success, in flight, reported or
  -- stopped; and the queue holds a hundred at most.
  pub Reach-IsBalanced : {x : Program w c} → Reach w c x → IsBalanced x
  Reach-IsBalanced (begin q filters held fits) =
      unfold init System.init total all_published in
      record {
        filters = filters;
        balance = simp (held, append-nil) (Perm.refl (map (λ f. subscription f) filters));
        fits = fits;
      }
  Reach-IsBalanced (next {x = x} h (act {s = t} alive a answered)) =
      let before = Reach-IsBalanced h in
      let (held, fits) = Answers-held answered before.fits in
      let more = requested w c (call_in w c a) in
      record {
        filters = before.filters;
        balance = Perm.trans (Perm.append_left _ (Action-total (system-Reach w c h) a)) (
            rw
              (
                held,
                ← append_assoc x.sent (c.queue.held x.requests) more,
                ← append_assoc _ (total x.system) more,
              )
              (Perm.append_right more before.balance));
        fits = fits;
      }
  Reach-IsBalanced (next {x = x} h (take_request p q alive d e)) =
      let before = Reach-IsBalanced h in
      let first = c.queue.poll_some x.requests q p e in
      record {
        filters = before.filters;
        balance =
            subst (Perm (map (λ f. subscription f) before.filters ++ total x.system))
              (ap (λ l. x.sent ++ l) first ∙ sym (append_assoc x.sent (p ∷ []) (c.queue.held q)))
              before.balance;
        fits = omega (arith, ap (length) first, before.fits);
      }
