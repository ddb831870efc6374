-- ===== src/Engine/Loop/Account.antt =====
-- `run` of src/engine.rs: what becomes of the messages that the loop takes in.
use mathlib.Core.List.{Perm, perm_middle}
use mathlib.Core.List.Perm
use rosetta_mq.Prelude.{
  list_laws, ℕ, Bool, ◌≡◌, refl, ◌≢◌, sym, ap, ◌∙◌, subst, none, some, List, [], ◌∷◌, ◌++◌,
  append-nil, append_assoc,
}
use rosetta_mq.Text.{Text}
use rosetta_mq.Mqtt.{Publish}
use rosetta_mq.Decoder.{ErasedDecoder}
use rosetta_mq.Decoder.Registry.{DecoderRegistry}
use rosetta_mq.Engine.{JoinSet, Task}
use rosetta_mq.Engine.Incoming.{accepted, accepted_all}
use rosetta_mq.Engine.Loop.{
  Phase, looping, draining, returned, Engine, start, take_in, Step, receive, reap, shutdown, drain,
  drained, timed_out, Reach, begin, next,
}
use rosetta_mq.Engine.Loop.Bounds.{held-take_in}

module _ {A : Type 0} where
  -- An element moves from the middle of the second list to the end of the first.
  move-perm :
      (done before after : List A) (t : A)
      → Perm (done ++ t ∷ [] ++ (before ++ after)) (done ++ (before ++ t ∷ after))
  move-perm done before after t =
      rw append_assoc (Perm.append_left done (Perm.symm (perm_middle before after)))

module _ (j : JoinSet) (matches : Text → Text → Bool)
    (registry : DecoderRegistry ErasedDecoder) where
  accepted_all-append :
      (ms : List Publish) (m : Publish)
      → accepted_all matches registry (ms ++ m ∷ [])
        ≡ accepted_all matches registry ms ++ accepted matches registry m
  unfolding accepted_all
  accepted_all-append [] m = simp list_laws
  accepted_all-append (n ∷ ms) m = simp (accepted_all-append ms m, list_laws)

  -- Where each accepted message is: its task was reaped, runs, or was abandoned at the return.
  pub record IsAccounted (e : Engine j) : Type 0 where
    pub tasks :
        Perm (e.reaped ++ j.held e.tasks ++ e.abandoned) (accepted_all matches registry e.received)
    pub none_abandoned : e.phase ≢ returned → e.abandoned ≡ []

  -- Before the return nothing is abandoned, so the third part can be left out.
  abbrev Running : Engine j → Type 0
  Running e = Perm (e.reaped ++ j.held e.tasks) (accepted_all matches registry e.received)

  running : (e : Engine j) → IsAccounted e → e.phase ≢ returned → Running e
  running e h n =
      subst (λ l. Perm l (accepted_all matches registry e.received))
        (ap (λ a. e.reaped ++ j.held e.tasks ++ a) (h.none_abandoned n) ∙ append-nil _) h.tasks

  accounted : (e : Engine j) → e.abandoned ≡ [] → Running e → IsAccounted e
  accounted e a r = record {
    tasks =
        subst (λ l. Perm l (accepted_all matches registry e.received))
          (sym (ap (λ b. e.reaped ++ j.held e.tasks ++ b) a ∙ append-nil _)) r;
    none_abandoned = λ _. a;
  }

  received-take_in :
      (e : Engine j) (m : Publish)
      → (take_in j matches registry e (some m)).received ≡ e.received ++ m ∷ []
  unfolding take_in
  received-take_in e m = refl

  Running-take_in :
      (e : Engine j) (m : Publish) → Running e → Running (take_in j matches registry e (some m))
  Running-take_in e m r =
      rw
        (
          held-take_in j matches registry e m,
          received-take_in e m,
          accepted_all-append,
          ← append_assoc,
        )
        (Perm.append_right (accepted matches registry m) (unfold take_in in r))

  Running-join :
      (e : Engine j) (t : Task) (s' : j.Tasks)
      → j.Joins e.tasks t s'
      → Running e
      → Running (record e { tasks = s'; reaped = e.reaped ++ t ∷ [] })
  Running-join e t s' x r =
      let (before, after, a, b) = j.joins_removes e.tasks s' t x in
      rw b (Perm.trans (move-perm e.reaped before after t) (rw (← a) r))

  looping≢returned : {p : Phase} → p ≡ looping → p ≢ returned
  looping≢returned e f = cc

  draining≢returned : {p : Phase} → p ≡ draining → p ≢ returned
  draining≢returned e f = cc

  Step-IsAccounted :
      {max : ℕ} {e f : Engine j} → Step j matches registry max e f → IsAccounted e → IsAccounted f
  Step-IsAccounted {e = e} (receive none looks room) h =
      accounted (take_in j matches registry e none)
        (unfold take_in in h.none_abandoned (looping≢returned looks))
        (unfold take_in in running e h (looping≢returned looks))
  Step-IsAccounted {e = e} (receive (some m) looks room) h =
      accounted (take_in j matches registry e (some m))
        (unfold take_in in h.none_abandoned (looping≢returned looks))
        (Running-take_in e m (running e h (looping≢returned looks)))
  Step-IsAccounted {e = e} (reap t s' looks x) h =
      accounted _ (h.none_abandoned (looping≢returned looks))
        (Running-join e t s' x (running e h (looping≢returned looks)))
  Step-IsAccounted {e = e} (shutdown looks) h = record {
    tasks = h.tasks;
    none_abandoned = λ _. h.none_abandoned (looping≢returned looks);
  }
  Step-IsAccounted {e = e} (drain t s' waits x) h =
      accounted _ (h.none_abandoned (draining≢returned waits))
        (Running-join e t s' x (running e h (draining≢returned waits)))
  Step-IsAccounted {e = e} (drained waits left) h = record {
    tasks = h.tasks;
    none_abandoned = λ n. absurd (n refl);
  }
  Step-IsAccounted {e = e} (timed_out waits) h = record {
    tasks = rw (j.held_new, append-nil) (running e h (draining≢returned waits));
    none_abandoned = λ n. absurd (n refl);
  }

  -- At every moment of every run, the tasks whose end was seen, those in flight and those abandoned
  -- at a timed-out shutdown are together exactly the tasks of the accepted messages, each once; and
  -- none is abandoned before the return.
  pub Reach-IsAccounted : (max : ℕ) {e : Engine j} → Reach j matches registry max e → IsAccounted e
  Reach-IsAccounted max begin =
      unfold start in
      accounted (start j) refl (unfold start accepted_all in rw j.held_new (Perm.refl []))
  Reach-IsAccounted max (next r x) = Step-IsAccounted x (Reach-IsAccounted max r)
