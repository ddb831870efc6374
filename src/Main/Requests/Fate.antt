-- ===== src/Main/Requests/Fate.antt =====
-- What becomes of the running program once its driver, its engine and its decode tasks wait for each
-- other.
use rosetta_mq.Prelude.{◌≡◌, refl, ◌∙◌, subst, ◌⊎◌, inl, inr, List}
use rosetta_mq.Main.System.{World, Running, MainPhase, Action}
use rosetta_mq.Main.System.Exit.{not_idle}
use rosetta_mq.Main.Requests.{Requests, Program, Step, act, take_request}
use rosetta_mq.Main.Requests.Gridlock.{IsGridlocked, IsOver, IsFate, lasting, step-IsFate}

module _ (w : World) (c : Requests) where
  -- A number of steps from one state to another.
  pub data Later (x : Program w c) : Program w c → Type 0 where
    here : Later x x
    onward : {y z : Program w c} → Later x y → Step w c y z → Later x z

  carried :
      {runs : List (Running w)} {y : Program w c} {m : MainPhase} {q : c.queue.Queue}
      → IsOver w c runs y
      → IsOver w c runs (record y { system = record y.system { main = m }; requests = q })
  carried h = record {
    gone = h.gone;
    none_left = h.none_left;
    stopped = h.stopped;
    not_polling = h.not_polling;
  }

  step-IsOver :
      {runs : List (Running w)} {y z : Program w c}
      → Step w c y z
      → IsOver w c runs y
      → IsOver w c runs z
        × (z.sent ≡ y.sent)
        × (z.system.engine.received ≡ y.system.engine.received)
  step-IsOver (take_request p q alive d e) h = absurd (h.not_polling d)
  step-IsOver (act alive (Action.poll_publish p d) a) h = absurd (h.not_polling d)
  step-IsOver (act alive (Action.poll_other d) a) h = absurd (h.not_polling d)
  step-IsOver (act alive (Action.poll_failed e d) a) h = absurd (h.not_polling d)
  step-IsOver (act alive (Action.sent p q d up o) a) h = absurd (up h.gone)
  step-IsOver (act alive (Action.refused p d gone) a) h = (
    record { gone = h.gone; none_left = h.none_left; stopped = h.stopped; not_polling = λ e. cc e },
    refl,
    refl,
  )
  step-IsOver (act alive (Action.receive m q looks room e) a) h = absurd (cc (looks, h.gone))
  step-IsOver (act alive (Action.closed r looks room d e) a) h = absurd (cc (looks, h.gone))
  step-IsOver (act alive (Action.cancelled looks m) a) h = absurd (cc (looks, h.gone))
  step-IsOver {y = y} (act alive (Action.work before rest t r r' e x) a) h =
      absurd (not_idle w y.system.running before rest (t, r) h.none_left e)
  step-IsOver (act alive (Action.join before rest t r tasks up e done x) a) h = absurd (up h.gone)
  step-IsOver (act alive (Action.drained waits left) a) h = absurd (cc (waits, h.gone))
  step-IsOver (act alive (Action.timed_out waits) a) h = absurd (cc (waits, h.gone))
  step-IsOver (act alive (Action.driver_ended r m d) a) h = (carried h, refl, refl)
  step-IsOver (act alive (Action.ctrl_c m) a) h = (carried h, refl, refl)
  step-IsOver (act alive (Action.exit m gone) a) h = (carried h, refl, refl)

  going_on :
      {z : Program w c} {runs runs' : List (Running w)}
      → (IsGridlocked w c z × (z.system.running ≡ runs)) ⊎ IsOver w c runs z
      → runs ≡ runs'
      → (IsGridlocked w c z × (z.system.running ≡ runs')) ⊎ IsOver w c runs' z
  going_on (inl (g, e)) same = inl (g, e ∙ same)
  going_on {z = z} (inr h) same = inr (subst (λ runs. IsOver w c runs z) same h)

  -- From a gridlock on, whatever happens, no packet is taken in and no request is sent: the program
  -- stays in the gridlock, or its engine has returned, and then every decode task that was under way
  -- was stopped by the timeout of the shutdown.
  pub Later-IsFate : {x y : Program w c} → IsGridlocked w c x → Later x y → IsFate w c x y
  Later-IsFate {x = x} g here = lasting w c x x g refl refl refl
  Later-IsFate {x = x} g (onward later s) =
      let fate = Later-IsFate g later in
      elim fate.end [
        | inl (g', same) ↦
            let next = step-IsFate w c s g' in
            record {
              none_sent = next.none_sent ∙ fate.none_sent;
              none_received = next.none_received ∙ fate.none_received;
              end = going_on next.end same;
            }
        | inr h ↦
            let (h', e, f) = step-IsOver s h in
            record {
              none_sent = e ∙ fate.none_sent;
              none_received = f ∙ fate.none_received;
              end = inr h';
            }
      ]
