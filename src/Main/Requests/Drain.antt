-- ===== src/Main/Requests/Drain.antt =====
-- A decode task of the running program brought to its end, with the client's queue of requests, while
-- the driver polls and so makes room in the queue.
use rosetta_mq.Prelude.{
  ℕ, zero, suc, ◌≤◌, ◌≡◌, refl, ap, ◌∙◌, List, [], ◌∷◌, ◌++◌, inl, inr, arith, length, Option-cases,
}
use rosetta_mq.Engine.{Task}
use rosetta_mq.Engine.Relay.{Relay}
use rosetta_mq.Engine.Relay.Progress.{steps_left, Step-steps_left}
use rosetta_mq.Main.System.{World, System, Running, AtEnd, polling, stopping, exited, Action}
use rosetta_mq.Main.System.Stop.{stopping_alive}
use rosetta_mq.Main.Requests.{Request, Requests, Program, Step, act, take_request, Reach, next}
use rosetta_mq.Main.Requests.Exit.{Steps, rest, go_on}
use rosetta_mq.Main.Requests.Standing.{standing, at_end, free, stuck}

module _ (w : World) (c : Requests) where
  -- A run to the return of `main` that takes no more packets in and stops no task.
  pub record Drains (x : Program w c) : Type 0 where
    pub count : ℕ
    pub end_state : Program w c
    pub steps : Steps w c count x end_state
    pub over : end_state.system.main ≡ exited
    pub taken : end_state.system.engine.received ≡ x.system.engine.received
    pub spared : end_state.system.aborted ≡ x.system.aborted

  pub first :
      (x y : Program w c)
      → Step w c x y
      → y.system.engine.received ≡ x.system.engine.received
      → y.system.aborted ≡ x.system.aborted
      → Drains y
      → Drains x
  first x y s same none_stopped h = record {
    count = suc h.count;
    end_state = h.end_state;
    steps = go_on s h.steps;
    over = h.over;
    taken = h.taken ∙ same;
    spared = h.spared ∙ none_stopped;
  }

  pub done : (x : Program w c) → x.system.main ≡ exited → Drains x
  done x e = record {
    count = 0;
    end_state = x;
    steps = rest;
    over = e;
    taken = refl;
    spared = refl;
  }

  -- The state with these tasks under way and these requests.
  abbrev pub under_way : System w → List (Running w) → c.queue.Queue → List Request → Program w c
  under_way s runs q out = record { system = record s { running = runs }; requests = q; sent = out }

  -- The first task has come to its end, after some requests.
  pub record IsWorked (s : System w) (t : Task) (runs : List (Running w))
      (r : Relay w.outbox w.ClientError) (q : c.queue.Queue) (out : List Request) : Type 0 where
    pub last : Relay w.outbox w.ClientError
    pub at_end : AtEnd w last
    pub queue : c.queue.Queue
    pub sent : List Request
    pub reach : Reach w c (under_way s ((t, last) ∷ runs) queue sent)
    pub back :
        Drains (under_way s ((t, last) ∷ runs) queue sent)
        → Drains (under_way s ((t, r) ∷ runs) q out)

  module _ (an_error : w.ClientError) where
    module _ (s : System w) (t : Task) (runs : List (Running w)) (m : s.main ≡ stopping)
        (d : s.driver ≡ polling) where
      -- The task in front.
      abbrev with_first : Relay w.outbox w.ClientError → c.queue.Queue → List Request → Program w c
      with_first r q out = under_way s ((t, r) ∷ runs) q out

      abbrev pub left : Relay w.outbox w.ClientError → ℕ
      left = steps_left w.printing t.message w.outbox w.ClientError

      -- A step of the program before the rest of the task.
      after_step :
          (r r' : Relay w.outbox w.ClientError) (q q' : c.queue.Queue) (out out' : List Request)
          → Step w c (with_first r q out) (with_first r' q' out')
          → Reach w c (with_first r q out)
          → (Reach w c (with_first r' q' out') → IsWorked s t runs r' q' out')
          → IsWorked s t runs r q out
      after_step r r' q q' out out' move h go =
          let y = go (next h move) in
          record {
            last = y.last;
            at_end = y.at_end;
            queue = y.queue;
            sent = y.sent;
            reach = y.reach;
            back = λ z. first _ _ move refl refl (y.back z);
          }

      -- While the task has to wait, the driver takes requests, and the queue gets shorter.
      until_free :
          (r : Relay w.outbox w.ClientError)
          → ((r' : Relay w.outbox w.ClientError) (q' : c.queue.Queue) (out' : List Request)
              → suc (left r') ≤ left r
              → Reach w c (with_first r' q' out')
              → IsWorked s t runs r' q' out')
          → (k : ℕ) (q : c.queue.Queue) (out : List Request) → suc (length (c.queue.held q)) ≤ k
          → Reach w c (with_first r q out)
          → IsWorked s t runs r q out
      until_free r go zero q out fits h = absurd (omega arith)
      until_free r go (suc k) q out fits h =
          let here = record s { running = (t, r) ∷ runs } in
          elim (standing w c an_error here q (λ (_, e). cc (d, e)) t r) [
            | at_end over ↦ record {
              last = r;
              at_end = over;
              queue = q;
              sent = out;
              reach = h;
              back = λ z. z;
            }
            | free x ↦
                after_step r x.after q x.left out out
                  (act (stopping_alive w m) (Action.work [] runs t r x.after refl x.move)
                    x.answered)
                  h
                  (go x.after x.left out
                    (Step-steps_left w.printing t.message w.outbox w.ClientError x.move))
            | stuck p full blocked ↦ elim (Option-cases (c.queue.poll q)) [
              | inl empty ↦ absurd (
                  omega
                    (arith, c.queue.offer_none q p full, ap (length) (c.queue.poll_none q empty)))
              | inr ((p', q'), e) ↦
                  after_step r r q q' out (out ++ p' ∷ [])
                    (take_request p' q' (stopping_alive w m) d e) h
                    (until_free r go k q' (out ++ p' ∷ [])
                      (omega (arith, fits, ap (length) (c.queue.poll_some q q' p' e))))
            ]
          ]

      pub worked :
          (n : ℕ) (r : Relay w.outbox w.ClientError) (q : c.queue.Queue) (out : List Request)
          → left r ≤ n
          → Reach w c (with_first r q out)
          → IsWorked s t runs r q out
      worked zero r q out short h =
          until_free r (λ r' q' out' less. absurd (omega arith)) (suc (length (c.queue.held q))) q
            out (omega arith) h
      worked (suc n) r q out short h =
          until_free r (λ r' q' out' less. worked n r' q' out' (omega arith))
            (suc (length (c.queue.held q))) q out (omega arith) h
