-- ===== src/Client/Driver.antt =====
-- The tasks of `Client` in src/client.rs: the loop that forwards incoming packets, and the
-- subscriptions.
use rosetta_mq.Prelude.{Bool, true, false, List, [], ◌∷◌, Result, ok, err}
use rosetta_mq.Text.{Text}
use rosetta_mq.Mqtt.{QoS, at_least_once, Publish}

-- One round of the loop: what `eventloop.poll()` returned and, for a publish packet, whether the
-- receiver of the channel was still there for it.
pub data Poll (E : Type 0) : Type 0 where
  publish : Publish → Bool → Poll E
  other : Poll E
  failed : E → Poll E

pub data DriverState (E : Type 0) : Type 0 where
  running : DriverState E
  ended : Result (Unit {0}) E → DriverState E

-- The packets that the driver forwards in a number of rounds, and its state after them.
unfoldable pub drive : {E : Type 0} → List (Poll E) → List Publish × DriverState E
drive [] = ([], running)
drive (publish p true ∷ polls) = let (ps, s) = drive polls in (p ∷ ps, s)
drive (publish p false ∷ polls) = ([], ended (ok tt))
drive (other ∷ polls) = drive polls
drive (failed e ∷ polls) = ([], ended (err e))

-- `Client::subscribe_all`: the calls made, and the result; the first failing call is the last.
unfoldable pub subscribe_all :
    {E : Type 0}
    → (Text → QoS → Result (Unit {0}) E)
    → List Text
    → List (Text × QoS) × Result (Unit {0}) E
subscribe_all subscribe [] = ([], ok tt)
subscribe_all subscribe (filter ∷ filters) =
    let rest = subscribe_all subscribe filters in
    elim (subscribe filter at_least_once) [
      | ok _ ↦ ((filter, at_least_once) ∷ rest.0, rest.1)
      | err e ↦ ((filter, at_least_once) ∷ [], err e)
    ]
