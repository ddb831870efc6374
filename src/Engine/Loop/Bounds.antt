-- ===== src/Engine/Loop/Bounds.antt =====
-- The number of tasks that `run` keeps at once, and how it ends.
use rosetta_mq.Prelude.{
  ℕ, Bool, suc, ◌≡◌, ap, ◌≤◌, Option, none, some, ◌∷◌, ◌++◌, arith, length, length-append,
}
use rosetta_mq.Text.{Text}
use rosetta_mq.Mqtt.{Publish}
use rosetta_mq.Decoder.{ErasedDecoder}
use rosetta_mq.Decoder.Registry.{DecoderRegistry}
use rosetta_mq.Engine.{JoinSet, Task}
use rosetta_mq.Engine.Incoming.{accepted, length-accepted, handle_incoming_lem}
use rosetta_mq.Engine.Loop.{
  Engine, start, take_in, Step, receive, reap, shutdown, drain, drained, timed_out, Reach, begin,
  next,
}

module _ (j : JoinSet) (matches : Text → Text → Bool)
    (registry : DecoderRegistry ErasedDecoder) where
  pub held-take_in :
      (e : Engine j) (m : Publish)
      → j.held (take_in j matches registry e (some m)).tasks
        ≡ j.held e.tasks ++ accepted matches registry m
  held-take_in e m = unfold take_in in (handle_incoming_lem matches registry j m e.tasks).1

  len-take_in :
      (e : Engine j) (message : Option Publish)
      → j.len (take_in j matches registry e message).tasks ≤ suc (j.len e.tasks)
  len-take_in e none = unfold take_in in omega arith
  len-take_in e (some m) = omega (
    arith,
    j.len_held e.tasks,
    j.len_held (take_in j matches registry e (some m)).tasks,
    ap (length) (held-take_in e m),
    length-append {0} (j.held e.tasks) (accepted matches registry m),
    length-accepted matches registry m,
  )

  pub len-join : (s s' : j.Tasks) (t : Task) → j.Joins s t s' → j.len s ≡ suc (j.len s')
  len-join s s' t h =
      let (before, after, a, b) = j.joins_removes s s' t h in
      omega (
        arith,
        j.len_held s,
        j.len_held s',
        ap (length) a,
        ap (length) b,
        length-append {0} before (t ∷ after),
        length-append {0} before after,
      )

  len_new : j.len j.new ≡ 0
  len_new = omega (arith, j.len_held j.new, ap (length) j.held_new)

  Step-len :
      {max : ℕ} {e f : Engine j}
      → Step j matches registry max e f
      → j.len e.tasks ≤ max
      → j.len f.tasks ≤ max
  Step-len {e = e} (receive message looks room) h = omega (arith, len-take_in e message)
  Step-len {e = e} (reap t s' looks x) h = omega (arith, len-join e.tasks s' t x)
  Step-len (shutdown looks) h = h
  Step-len {e = e} (drain t s' waits x) h = omega (arith, len-join e.tasks s' t x)
  Step-len (drained waits left) h = h
  Step-len (timed_out waits) h = omega (arith, len_new)

  -- At no time are more tasks in flight than `max_concurrent_decodes`.
  pub Reach-len : (max : ℕ) {e : Engine j} → Reach j matches registry max e → j.len e.tasks ≤ max
  Reach-len max begin = unfold start in omega (arith, len_new)
  Reach-len max (next r x) = Step-len x (Reach-len max r)
