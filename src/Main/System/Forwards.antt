-- ===== src/Main/System/Forwards.antt =====
-- The driver inside the running program, by the loop of `Client::connect` in src/client.rs alone.
use rosetta_mq.Prelude.{
  true, false, ◌≡◌, refl, ap, ◌∙◌, subst, List, [], ◌∷◌, ◌++◌, append-nil, ok, err,
}
use rosetta_mq.Mqtt.{Publish}
use rosetta_mq.Client.Driver.{Poll, DriverState, drive, publish, other, failed}
use rosetta_mq.Main.System.{
  World, System, Driver, polling, sending, Action, step, Reach, begin, next, init,
}

module _ {E : Type 0} where
  -- Rounds that go on, with what they forward.
  drive-append :
      (polls more : List (Poll E))
      → (drive polls).1 ≡ DriverState.running
      → drive (polls ++ more) ≡ ((drive polls).0 ++ (drive more).0, (drive more).1)
  unfolding drive
  drive-append [] more h = refl
  drive-append (publish p true ∷ polls) more h =
      ap (λ (r : List Publish × DriverState E). (p ∷ r.0, r.1)) (drive-append polls more h)
  drive-append (publish p false ∷ polls) more h = cc
  drive-append (other ∷ polls) more h = drive-append polls more h
  drive-append (failed e ∷ polls) more h = cc

module _ (w : World) where
  -- The state of the loop, by the state of the driver; a packet that waits for the channel belongs to
  -- a round that is not over.
  abbrev loop_state : Driver w.PollError → DriverState w.PollError
  loop_state polling = DriverState.running
  loop_state (sending p) = DriverState.running
  loop_state (Driver.ended r) = DriverState.ended r

  -- Rounds of the loop that forward these packets and end in this state.
  abbrev IsDriven : List Publish → Driver w.PollError → Type 0
  IsDriven forwarded d =
      (polls : List (Poll w.PollError)) × (drive polls ≡ (forwarded, loop_state d))

  one_round :
      (forwarded : List Publish) (d : Driver w.PollError) (more : List (Poll w.PollError))
      (ps : List Publish) (d' : Driver w.PollError)
      → loop_state d ≡ DriverState.running
      → drive more ≡ (ps, loop_state d')
      → IsDriven forwarded d
      → IsDriven (forwarded ++ ps) d'
  one_round forwarded d more ps d' goes h (polls, e) =
      (polls ++ more, drive-append polls more (ap (λ r. r.1) e ∙ goes) ∙ rw (e, h) refl)

  Action-IsDriven :
      {s t : System w}
      → Action w s t
      → IsDriven s.forwarded s.driver
      → IsDriven t.forwarded t.driver
  Action-IsDriven {s = s} (Action.poll_publish p d) (polls, e) =
      (polls, e ∙ ap (λ x. (s.forwarded, loop_state x)) d)
  Action-IsDriven (Action.poll_other d) h = h
  Action-IsDriven {s = s} (Action.poll_failed e d) h =
      subst (λ ps. IsDriven ps (Driver.ended (err e))) (append-nil s.forwarded)
        (one_round s.forwarded s.driver (failed e ∷ []) [] (Driver.ended (err e))
          (ap (loop_state) d) (unfold drive in refl) h)
  Action-IsDriven {s = s} (Action.sent p q d here o) h =
      one_round s.forwarded s.driver (publish p true ∷ []) (p ∷ []) polling (ap (loop_state) d)
        (unfold drive in refl) h
  Action-IsDriven {s = s} (Action.refused p d gone) h =
      subst (λ ps. IsDriven ps (Driver.ended (ok tt))) (append-nil s.forwarded)
        (one_round s.forwarded s.driver (publish p false ∷ []) [] (Driver.ended (ok tt))
          (ap (loop_state) d) (unfold drive in refl) h)
  Action-IsDriven (Action.receive m q looks room e) h = h
  Action-IsDriven (Action.closed r looks room d e) h = h
  Action-IsDriven (Action.cancelled looks m) h = h
  Action-IsDriven (Action.work before after t r r' e x) h = h
  Action-IsDriven (Action.join before after t r tasks here e done x) h = h
  Action-IsDriven (Action.drained waits left) h = h
  Action-IsDriven (Action.timed_out waits) h = h
  Action-IsDriven (Action.driver_ended r m d) h = h
  Action-IsDriven (Action.ctrl_c m) h = h
  Action-IsDriven (Action.exit m over) h = h

  -- Whatever the engine, the decode tasks and `main` do, the driver inside the program forwards what
  -- its loop forwards by itself in some rounds, and is where the loop then is.
  driver-IsDriven : {s : System w} → Reach w s → IsDriven s.forwarded s.driver
  driver-IsDriven begin = unfold init in ([], unfold drive in refl)
  driver-IsDriven (next r (step alive x)) = Action-IsDriven x (driver-IsDriven r)
