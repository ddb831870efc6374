-- ===== src/Tests/Fixtures.antt =====
-- Inputs and instances for the tests.
use rosetta_mq.Prelude.{
  ℕ, ◌≡◌, refl, ◌≤◌, Bool, false, Option, none, some, List, [], ◌∷◌, ◌++◌, ok, length,
  length-append, ltb, if◌then◌else◌, arith,
}
use rosetta_mq.Text.{Text, codes, split}
use rosetta_mq.Mqtt.{at_least_once, Publish}
use rosetta_mq.Topic.{slash}
use rosetta_mq.Topic.Covers.{covers, OnlyCovers}
use rosetta_mq.Decoder.{DecodePublish, Client}
use rosetta_mq.Engine.{decode_channel_capacity, Task, JoinSet, Printing}
use rosetta_mq.Runtime.{Channel}

-- A broker that matches exactly what the filter covers.
unfoldable pub broker : Text → Text → Bool
broker topic filter = covers (split slash filter) (split slash topic)

pub broker-OnlyCovers : OnlyCovers broker
unfolding broker
broker-OnlyCovers topic filter h = h

-- A set that is the list of its tasks.
abbrev pub TaskList : JoinSet
TaskList = record {
  Tasks = List Task;
  held = λ s. s;
  new = [];
  held_new = refl;
  spawn = λ s t. s ++ t ∷ [];
  held_spawn = λ s t. refl;
  len = length;
  len_held = λ s. refl;
  Joins = λ s t s'.
      (before : List Task) × (after : List Task) × (s ≡ before ++ t ∷ after)
      × (s' ≡ before ++ after);
  joins_removes = λ s s' t h. h;
  joins_held = λ s t before after e. (before ++ after, (before, after, e, refl));
}

module _ (M : Type 0) (capacity : ℕ) where
  abbrev pub fifo_offer : List M → M → Option (List M)
  fifo_offer q m = if ltb (length q) capacity then some (q ++ m ∷ []) else none

  abbrev pub fifo_poll : List M → Option (M × List M)
  fifo_poll [] = none
  fifo_poll (m ∷ q) = some (m, q)

  pub fifo_poll-none : (q : List M) → fifo_poll q ≡ none → q ≡ []
  fifo_poll-none [] h = refl
  fifo_poll-none (m ∷ q) h = cc

  pub fifo_poll-some : (q q' : List M) (m : M) → fifo_poll q ≡ some (m, q') → q ≡ m ∷ q'
  fifo_poll-some [] q' m h = cc
  fifo_poll-some (n ∷ q) q' m h = ground arith

  pub fifo_offer-some : (q q' : List M) (m : M) → fifo_offer q m ≡ some q' → q' ≡ q ++ m ∷ []
  fifo_offer-some q q' m h = ground arith

  pub fifo_offer-none : (q : List M) (m : M) → fifo_offer q m ≡ none → capacity ≤ length q
  fifo_offer-none q m h = ground arith

  pub fifo_offer-fits : (q q' : List M) (m : M) → fifo_offer q m ≡ some q' → length q' ≤ capacity
  fifo_offer-fits q q' m h = ground (arith, length-append {0} q (m ∷ []))

  -- A channel that is the list of its messages.
  abbrev pub ListChannel : Channel M capacity
  ListChannel = record {
    Queue = List M;
    held = λ q. q;
    empty = [];
    held_empty = refl;
    offer = fifo_offer;
    offer_some = fifo_offer-some;
    offer_none = fifo_offer-none;
    offer_fits = fifo_offer-fits;
    poll = fifo_poll;
    poll_none = fifo_poll-none;
    poll_some = fifo_poll-some;
  }

abbrev pub Fifo : Channel DecodePublish decode_channel_capacity
Fifo = ListChannel DecodePublish decode_channel_capacity

abbrev pub printing : Printing
printing = record { hex_encode = λ _. codes "00"; show_send_error = λ _. codes "channel closed" }

-- A client whose every call succeeds.
abbrev pub accepting : Client Text
accepting _ _ _ _ = ok tt

abbrev pub packet : Text → List ℕ → Publish
packet topic payload = record {
  dup = false;
  qos = at_least_once;
  retain = false;
  topic = topic;
  pkid = 1;
  payload = payload;
}
