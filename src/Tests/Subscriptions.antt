-- ===== src/Tests/Subscriptions.antt =====
-- Tests of the subscriptions of the start: two filters, and a start with a hundred and one of them that
-- waits for ever, because a hundred and one packets come in before the driver sends a request.
use rosetta_mq.Prelude.{ℕ, zero, suc, ◌+◌, ◌≡◌, refl, ◌≤◌, ◌⊎◌, subst, List, [], ◌∷◌, arith}
use rosetta_mq.Text.{Text, codes}
use rosetta_mq.Mqtt.{Publish}
use rosetta_mq.Runtime.{Channel}
use rosetta_mq.Main.System.{Driver, polling, sending, incoming_capacity}
use rosetta_mq.Main.Requests.{subscription}
use rosetta_mq.Main.Requests.Start.{
  Start, subscribing, connected, accepted, poll_publish, forwarded, Reach, begin, next,
}
use rosetta_mq.Main.Requests.Subscribing.{
  IsOrdered, Reach-IsOrdered, CanStep, IsDeadlocked, subscribing_moves,
}
use rosetta_mq.Tests.Fixtures.{ListChannel}
use rosetta_mq.Tests.Tasks.{message}
use rosetta_mq.Tests.Requests.{client, copies, offer_room}

abbrev filter : Text
filter = codes "a/+"

-- `n` filters.
ahead : ℕ → List Text
ahead zero = []
ahead (suc n) = filter ∷ ahead n

abbrev inbox : Channel Publish incoming_capacity
inbox = ListChannel Publish incoming_capacity

-- `k` filters were subscribed to, `n` are left, and `j` packets wait.
abbrev state : (k n j : ℕ) → Driver Text → Start inbox client Text
state k n j driver = record {
  driver = driver;
  queue = copies j message;
  requests = copies k (subscription filter);
  phase = subscribing (ahead n);
  sent = [];
}

asked-Reach :
    (k n : ℕ) → k + n ≡ 101 → k ≤ 100 → Reach inbox client Text (ahead 101) (state k n 0 polling)
unfolding copies connected
asked-Reach zero n e le =
    let same : 101 ≡ n = omega (arith, e) in
    subst (λ m. Reach inbox client Text (ahead 101) (state 0 m 0 polling)) same begin
asked-Reach (suc k) n e le = next (asked-Reach k (suc n) (omega (arith, e)) (omega (arith, le))) (
    accepted filter (ahead n) (copies (suc k) (subscription filter)) (unfold ahead in refl)
      (λ (r, gone). cc gone) (offer_room 100 k (subscription filter) (omega (arith, le))))

waiting-Reach : (j : ℕ) → j ≤ 100 → Reach inbox client Text (ahead 101) (state 100 1 j polling)
unfolding copies
waiting-Reach zero le = asked-Reach 100 1 refl (omega arith)
waiting-Reach (suc j) le =
    next (next (waiting-Reach j (omega (arith, le))) (poll_publish message refl)) (
      forwarded message (copies (suc j) message) refl
        (offer_room 100 j message (omega (arith, le))))

deadlocked-Reach : Reach inbox client Text (ahead 101) (state 100 1 100 (sending message))
deadlocked-Reach = next (waiting-Reach 100 (omega arith)) (poll_publish message refl)

Reach-IsOrdered_example :
    IsOrdered inbox client Text (ahead 101) (state 100 1 100 (sending message))
Reach-IsOrdered_example = Reach-IsOrdered inbox client Text (ahead 101) deadlocked-Reach

subscribing_moves_example :
    ((state 100 1 100 (sending message)).driver ≡ polling)
    ⊎ CanStep inbox client Text (state 100 1 100 (sending message))
    ⊎ IsDeadlocked inbox client Text (ahead 101) (state 100 1 100 (sending message))
unfolding ahead
subscribing_moves_example =
    subscribing_moves inbox client Text (ahead 101) (state 100 1 100 (sending message))
      deadlocked-Reach filter [] refl
