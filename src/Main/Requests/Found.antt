-- ===== src/Main/Requests/Found.antt =====
-- The decode tasks of the running program with the client's queue of requests: one of them can go on, or
-- all are blocked.
use rosetta_mq.Prelude.{
  ◌≡◌, refl, ap, ◌⊎◌, inl, inr, none, List, [], ◌∷◌, ◌++◌, All, length, length-append, Option-cases,
  arith,
}
use rosetta_mq.Engine.{Task}
use rosetta_mq.Engine.Relay.{Relay}
use rosetta_mq.Main.System.{World, System, Running, AtEnd}
use rosetta_mq.Main.Requests.{Request, Requests, IsGone}
use rosetta_mq.Main.Requests.Gridlock.{IsBlocked}
use rosetta_mq.Main.Requests.Standing.{IsFree, Standing, at_end, free, stuck, standing}

module _ (w : World) (c : Requests) where
  -- If the queue has no room for one request, it has none for any.
  pub full_for_all :
      (q : c.queue.Queue) (p p' : Request) → c.queue.offer q p ≡ none → c.queue.offer q p' ≡ none
  full_for_all q p p' full = elim (Option-cases (c.queue.offer q p')) [
    | inl e ↦ e
    | inr (q', room) ↦ absurd (
        omega (
          arith,
          c.queue.offer_none q p full,
          c.queue.offer_fits q q' p' room,
          ap (length) (c.queue.offer_some q q' p' room),
          length-append (c.queue.held q) (p' ∷ []),
        ))
  ]

module _ (w : World) (c : Requests) (an_error : w.ClientError) where
  -- Among these tasks one can go on, or all are blocked.
  pub data Found (s : System w) (q : c.queue.Queue) (runs : List (Running w)) : Type 0 where
    mover :
        (before after : List (Running w)) (t : Task) (r : Relay w.outbox w.ClientError)
        → runs ≡ before ++ (t, r) ∷ after
        → AtEnd w r ⊎ IsFree w c an_error s q (t, r)
        → Found s q runs
    all_stuck :
        All (IsBlocked w c) runs
        → (runs ≡ []) ⊎ ((p : Request) × (c.queue.offer q p ≡ none))
        → Found s q runs

  pub find :
      (s : System w) (q : c.queue.Queue)
      → ¬ IsGone w c s
      → (runs : List (Running w)) → Found s q runs
  find s q up [] = all_stuck tt (inl refl)
  find s q up ((t, r) ∷ runs) = by_first (standing w c an_error s q up t r) (find s q up runs)
    where
      by_first : Standing w c an_error s q up t r → Found s q runs → Found s q ((t, r) ∷ runs)
      by_first (at_end over) rest = mover [] runs t r refl (inl over)
      by_first (free x) rest = mover [] runs t r refl (inr x)
      by_first (stuck p full b) (mover before after u o e x) =
          mover ((t, r) ∷ before) after u o (ap (λ l. (t, r) ∷ l) e) x
      by_first (stuck p full b) (all_stuck bs why) = all_stuck (b, bs) (inr (p, full))
