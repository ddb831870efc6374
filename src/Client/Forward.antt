-- ===== src/Client/Forward.antt =====
-- The driver task of `Client::connect` in src/client.rs: which packets it forwards, and when it ends.
use rosetta_mq.Prelude.{
  ◌≡◌, refl, ap, true, false, ◌⊎◌, inl, inr, List, [], ◌∷◌, ◌++◌, Result, ok, err,
}
use rosetta_mq.Mqtt.{Publish}
use rosetta_mq.Client.Driver.{Poll, publish, other, failed, running, ended, drive}

module _ {E : Type 0} where
  -- The publish packets of rounds that keep the driver running.
  pub data Forwards : List (Poll E) → List Publish → Type 0 where
    none_yet : Forwards [] []
    passed :
        {p : Publish} {polls : List (Poll E)} {ps : List Publish}
        → Forwards polls ps
        → Forwards (publish p true ∷ polls) (p ∷ ps)
    ignored :
        {polls : List (Poll E)} {ps : List Publish}
        → Forwards polls ps
        → Forwards (other ∷ polls) ps

  -- A round that ends the driver, and its result.
  pub data Ends : Poll E → Result (Unit {0}) E → Type 0 where
    receiver_gone : {p : Publish} → Ends (publish p false) (ok tt)
    lost : {e : E} → Ends (failed e) (err e)

  pub record IsEnded (polls : List (Poll E)) (result : Result (Unit {0}) E) : Type 0 where
    pub before : List (Poll E)
    pub last : Poll E
    pub rest : List (Poll E)
    pub split : polls ≡ before ++ last ∷ rest
    pub ends : Ends last result
    pub forwards : Forwards before (drive polls).0
    pub state : (drive polls).1 ≡ ended result

  forwarded :
      (p : Publish) (polls : List (Poll E)) {result : Result (Unit {0}) E}
      → IsEnded polls result
      → IsEnded (publish p true ∷ polls) result
  forwarded p polls r = record {
    before = publish p true ∷ r.before;
    last = r.last;
    rest = r.rest;
    split = ap (λ xs. publish p true ∷ xs) r.split;
    ends = r.ends;
    forwards = unfold drive in passed r.forwards;
    state = unfold drive in r.state;
  }

  skipped :
      (polls : List (Poll E)) {result : Result (Unit {0}) E}
      → IsEnded polls result
      → IsEnded (other ∷ polls) result
  skipped polls r = record {
    before = other ∷ r.before;
    last = r.last;
    rest = r.rest;
    split = ap (λ xs. other ∷ xs) r.split;
    ends = r.ends;
    forwards = unfold drive in ignored r.forwards;
    state = unfold drive in r.state;
  }

  -- Either no round ends the driver and it forwards every publish packet, in order; or there is a
  -- first round that ends it, by the receiver being gone or by a lost connection, it forwards
  -- exactly the packets before that round, and its result is that round's.
  pub drive_lem :
      (polls : List (Poll E))
      → (Forwards polls (drive polls).0 × ((drive polls).1 ≡ running))
        ⊎ ((result : Result (Unit {0}) E) × IsEnded polls result)
  drive_lem [] = inl (unfold drive in none_yet, unfold drive in refl)
  drive_lem (publish p true ∷ polls) = elim (drive_lem polls) [
    | inl (f, r) ↦ inl (unfold drive in passed f, unfold drive in r)
    | inr (result, r) ↦ inr (result, forwarded p polls r)
  ]
  drive_lem (publish p false ∷ polls) = inr (
    ok tt,
    record {
      before = [];
      last = publish p false;
      rest = polls;
      split = refl;
      ends = receiver_gone;
      forwards = unfold drive in none_yet;
      state = unfold drive in refl;
    },
  )
  drive_lem (other ∷ polls) = elim (drive_lem polls) [
    | inl (f, r) ↦ inl (unfold drive in ignored f, unfold drive in r)
    | inr (result, r) ↦ inr (result, skipped polls r)
  ]
  drive_lem (failed e ∷ polls) = inr (
    err e,
    record {
      before = [];
      last = failed e;
      rest = polls;
      split = refl;
      ends = lost;
      forwards = unfold drive in none_yet;
      state = unfold drive in refl;
    },
  )
