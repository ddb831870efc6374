-- ===== src/Runtime.antt =====
-- The bounded channel of the asynchronous runtime, which src/engine.rs and src/client.rs use.
use rosetta_mq.Prelude.{ℕ, ◌≡◌, ◌≤◌, Option, none, some, List, [], ◌∷◌, ◌++◌, length}

-- First in, first out, and a sender waits only if it is full.
-- `offer` is `none` where the sender has to wait, and `poll` where nothing is there to receive.
pub record Channel (M : Type 0) (capacity : ℕ) : Type 1 where
  pub Queue : Type 0
  pub held : Queue → List M
  pub empty : Queue
  pub held_empty : held empty ≡ []
  pub offer : Queue → M → Option Queue
  pub offer_some : (q q' : Queue) (m : M) → offer q m ≡ some q' → held q' ≡ held q ++ m ∷ []
  pub offer_none : (q : Queue) (m : M) → offer q m ≡ none → capacity ≤ length (held q)
  pub offer_fits : (q q' : Queue) (m : M) → offer q m ≡ some q' → length (held q') ≤ capacity
  pub poll : Queue → Option (M × Queue)
  pub poll_none : (q : Queue) → poll q ≡ none → held q ≡ []
  pub poll_some : (q q' : Queue) (m : M) → poll q ≡ some (m, q') → held q ≡ m ∷ held q'
