-- ===== src/Main/Requests/Start.antt =====
-- The subscriptions of the start against the driver: `Client::subscribe_all` in src/client.rs waits for
-- room in the client's queue of requests, while the driver forwards the packets that already come in
-- and nobody receives them yet.
use rosetta_mq.Prelude.{
  ◌≡◌, sym, ap, ◌∙◌, ◌⊎◌, inl, inr, true, false, none, some, List, [], ◌∷◌, ◌++◌, Result, err,
}
use rosetta_mq.Text.{Text}
use rosetta_mq.Mqtt.{Publish}
use rosetta_mq.Runtime.{Channel}
use rosetta_mq.Main.System.{incoming_capacity, Driver, polling, sending, ended}
use rosetta_mq.Main.Requests.{Request, subscription, Requests}

module _ (inbox : Channel Publish incoming_capacity) (c : Requests) (PollError : Type 0) where
  -- `main` has these filters left to subscribe to, or a subscription failed and `main` returns.
  pub data Phase : Type 0 where
    subscribing : List Text → Phase
    failed : Phase

  -- `sent` is a record for the proofs: the requests that the driver has taken out of the queue.
  pub record Start : Type 0 where
    pub driver : Driver PollError
    pub queue : inbox.Queue
    pub requests : c.queue.Queue
    pub phase : Phase
    pub sent : List Request

  unfoldable pub connected : List Text → Start
  connected filters = record {
    driver = polling;
    queue = inbox.empty;
    requests = c.queue.empty;
    phase = subscribing filters;
    sent = [];
  }

  abbrev pub IsGone : Start → Type 0
  IsGone x = (r : Result (Unit {0}) PollError) × (x.driver ≡ Driver.ended r)

  pub data Step (x : Start) : Start → Type 0 where
    -- A round of the loop of `subscribe_all`.
    accepted :
        (f : Text) (fs : List Text) (q : c.queue.Queue)
        → x.phase ≡ subscribing (f ∷ fs)
        → ¬ IsGone x
        → c.queue.offer x.requests (subscription f) ≡ some q
        → Step x (record x { requests = q; phase = subscribing fs })
    refused :
        (f : Text) (fs : List Text)
        → x.phase ≡ subscribing (f ∷ fs)
        → (c.refuses (subscription f) ≡ true) ⊎ IsGone x
        → Step x (record x { phase = failed })
    -- The driver; the receiver of the channel is there, though nobody receives.
    poll_publish : (p : Publish) → x.driver ≡ polling → Step x (record x { driver = sending p })
    poll_other : x.driver ≡ polling → Step x x
    poll_failed :
        (e : PollError) → x.driver ≡ polling → Step x (record x { driver = ended (err e) })
    forwarded :
        (p : Publish) (q : inbox.Queue)
        → x.driver ≡ sending p
        → inbox.offer x.queue p ≡ some q
        → Step x (record x { driver = polling; queue = q })
    take_request :
        (r : Request) (q : c.queue.Queue)
        → x.driver ≡ polling
        → c.queue.poll x.requests ≡ some (r, q)
        → Step x (record x { requests = q; sent = x.sent ++ r ∷ [] })

  pub data Reach (filters : List Text) : Start → Type 0 where
    begin : Reach filters (connected filters)
    next : {x y : Start} → Reach filters x → Step x y → Reach filters y

  -- The driver waits for room in the channel, and the next subscription for room in the queue.
  pub record IsStuck (x : Start) : Type 0 where
    pub packet : Publish
    pub holds : x.driver ≡ sending packet
    pub inbox_full : inbox.offer x.queue packet ≡ none
    pub filter : Text
    pub rest : List Text
    pub left : x.phase ≡ subscribing (filter ∷ rest)
    pub taken : c.refuses (subscription filter) ≡ false
    pub requests_full : c.queue.offer x.requests (subscription filter) ≡ none

  held_packet : Publish → Driver PollError → Publish
  held_packet d (Driver.sending p) = p
  held_packet d _ = d

  next_filter : Text → Phase → Text
  next_filter d (subscribing (f ∷ fs)) = f
  next_filter d _ = d

  -- A stuck start makes no step at all.
  pub stuck_forever : (x y : Start) → IsStuck x → ¬ Step x y
  unfolding held_packet next_filter
  stuck_forever x y s (accepted f fs q left up room) =
      let same : f ≡ s.filter = ap (next_filter f) (sym left ∙ s.left) in
      cc (room, s.requests_full, same)
  stuck_forever x y s (refused f fs left (inl bad)) =
      let same : f ≡ s.filter = ap (next_filter f) (sym left ∙ s.left) in cc (bad, s.taken, same)
  stuck_forever x y s (refused f fs left (inr (r, gone))) = cc (gone, s.holds)
  stuck_forever x y s (poll_publish p d) = cc (d, s.holds)
  stuck_forever x _ s (poll_other d) = cc (d, s.holds)
  stuck_forever x y s (poll_failed e d) = cc (d, s.holds)
  stuck_forever x y s (forwarded p q d room) =
      let same : p ≡ s.packet = ap (held_packet p) (sym d ∙ s.holds) in
      cc (room, s.inbox_full, same)
  stuck_forever x y s (take_request r q d e) = cc (d, s.holds)
