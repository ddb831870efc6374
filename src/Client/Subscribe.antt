-- ===== src/Client/Subscribe.antt =====
-- `Client::subscribe_all` of src/client.rs: which calls are made, and where it stops.
use rosetta_mq.Prelude.{
  ◌≡◌, refl, ap, ◌⊎◌, inl, inr, List, [], ◌∷◌, ◌++◌, map, Result, ok, err, Result-cases, All, arith,
}
use rosetta_mq.Text.{Text}
use rosetta_mq.Mqtt.{QoS, at_least_once}
use rosetta_mq.Client.Driver.{subscribe_all}

abbrev pub subscription : Text → Text × QoS
subscription filter = (filter, at_least_once)

module _ {E : Type 0} (subscribe : Text → QoS → Result (Unit {0}) E) where
  abbrev pub IsAccepted : Text → Type 0
  IsAccepted filter = subscribe filter at_least_once ≡ ok tt

  -- The first filter that the broker client refuses.
  pub record Refused (filters : List Text) : Type 0 where
    pub before : List Text
    pub filter : Text
    pub after : List Text
    pub error : E
    pub split : filters ≡ before ++ filter ∷ after
    pub accepted : All IsAccepted before
    pub refused : subscribe filter at_least_once ≡ err error
    pub calls : (subscribe_all subscribe filters).0 ≡ map subscription (before ++ filter ∷ [])
    pub result : (subscribe_all subscribe filters).1 ≡ err error

  pub record Accepted (filters : List Text) : Type 0 where
    pub accepted : All IsAccepted filters
    pub calls : (subscribe_all subscribe filters).0 ≡ map subscription filters
    pub result : (subscribe_all subscribe filters).1 ≡ ok tt

  subscribe_all-ok :
      (filter : Text) (filters : List Text)
      → IsAccepted filter
      → subscribe_all subscribe (filter ∷ filters) ≡ (
        subscription filter ∷ (subscribe_all subscribe filters).0,
        (subscribe_all subscribe filters).1,
      )
  unfolding subscribe_all
  subscribe_all-ok filter filters h = ground arith

  subscribe_all-err :
      (filter : Text) (filters : List Text) (e : E)
      → subscribe filter at_least_once ≡ err e
      → subscribe_all subscribe (filter ∷ filters) ≡ (subscription filter ∷ [], err e)
  unfolding subscribe_all
  subscribe_all-err filter filters e h = ground arith

  -- Either the client accepts every filter, one call is made for each, in order and at the quality
  -- of service 1, and the result is a success; or there is a first filter that it refuses, the
  -- calls end with that filter's, and the result is its error.
  pub subscribe_all_lem : (filters : List Text) → Accepted filters ⊎ Refused filters
  subscribe_all_lem [] = inl (record {
    accepted = tt;
    calls = unfold subscribe_all in refl;
    result = unfold subscribe_all in refl;
  })
  subscribe_all_lem (f ∷ fs) = elim (Result-cases (subscribe f at_least_once)) [
    | inl (_, h) ↦ elim (subscribe_all_lem fs) [
      | inl a ↦ inl (record {
        accepted = (h, a.accepted);
        calls = rw (subscribe_all-ok f fs h, a.calls) refl;
        result = rw (subscribe_all-ok f fs h) a.result;
      })
      | inr r ↦ inr (record {
        before = f ∷ r.before;
        filter = r.filter;
        after = r.after;
        error = r.error;
        split = ap (λ xs. f ∷ xs) r.split;
        accepted = (h, r.accepted);
        refused = r.refused;
        calls = rw (subscribe_all-ok f fs h, r.calls) refl;
        result = rw (subscribe_all-ok f fs h) r.result;
      })
    ]
    | inr (e, h) ↦ inr (record {
      before = [];
      filter = f;
      after = fs;
      error = e;
      split = refl;
      accepted = tt;
      refused = h;
      calls = rw (subscribe_all-err f fs e h) refl;
      result = rw (subscribe_all-err f fs e h) refl;
    })
  ]

  -- A success means that each filter was subscribed to.
  pub subscribed-all :
      (filters : List Text)
      → (subscribe_all subscribe filters).1 ≡ ok tt
      → (subscribe_all subscribe filters).0 ≡ map subscription filters
  subscribed-all filters e = elim (subscribe_all_lem filters) [
    | inl a ↦ a.calls
    | inr r ↦ cc r.result
  ]
