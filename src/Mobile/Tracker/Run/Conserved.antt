-- ===== src/Mobile/Tracker/Run/Conserved.antt =====
-- No ping is lost, repeated or reordered while at most a hundred were collected.
use mansariya.Base.{
  ℕ, ◌≤◌, String, Bool, true, false, Option, none, some, List, [], ◌∷◌, ◌++◌, map, ◌≡◌, refl, sym,
  ap, ◌∙◌, subst, inl, inr, arith, length, length-append, take_last_all, append_assoc, append-nil,
}
use mansariya.Mobile.Api.{GpsPing, BatchBody}
use mansariya.Mobile.Tracker.{
  LocationObject, Tracker, Sending, TaskEvent, failure, no_data, locations, to_ping, push_pings,
  flush_begin, background_task, flush_end,
}
use mansariya.Mobile.Tracker.Buffer.{push_pings-take_last, requeue-take_last}
use mansariya.Mobile.Tracker.Run.{
  Event, task, force, answer, Running, started_sending, step, run, gathered, collected, delivered,
  on_the_way, IsOpen,
}
use mansariya.Mobile.Tracker.Run.Flush.{
  flush_begin-cases, force_flush-flush_begin, background_task-flush_begin,
}
use mansariya.Mobile.Tracker.Run.Delivery.{
  running, request_of, waiting-request, fill-IsOpen, step-IsOpen,
}

-- The delivered pings, those on their way and those in the buffer, oldest first.
abbrev pub all_pings : Running → List GpsPing
all_pings w = delivered w.confirmed ++ (on_the_way w.waiting ++ w.tracker.ping_buffer)

module _ (r first : ℕ) where
  flush-all_pings :
      (auth : Option String) (t : Tracker) (x : Option Sending) (bodies : List BatchBody)
      → IsOpen r first (running t x bodies)
      → all_pings (started_sending x bodies (flush_begin auth t)) ≡ all_pings (running t x bodies)
  flush-all_pings auth t none bodies o = elim (flush_begin-cases auth t r o.loaded) [
    | inl (_, e) ↦ rw e
    | inr (inl (_, e)) ↦ rw e
    | inr (inr (_, e)) ↦ rw e (ap (delivered bodies ++◌) (append-nil _))
  ]
  flush-all_pings auth t (some s) bodies o = elim (flush_begin-cases auth t r o.loaded) [
    | inl (_, e) ↦ rw e
    | inr (inl (_, e)) ↦ rw e
    | inr (inr (idle, e)) ↦ absurd (cc (o.waits.1))
  ]

  fill-all_pings :
      (locs : List LocationObject) (t : Tracker) (x : Option Sending) (bodies : List BatchBody)
      → IsOpen r first (running t x bodies)
      → length (all_pings (running t x bodies) ++ map to_ping locs) ≤ 100
      → all_pings (running (record t { ping_buffer = push_pings t.ping_buffer locs }) x bodies)
        ≡ all_pings (running t x bodies) ++ map to_ping locs
  fill-all_pings locs t x bodies o h =
      let b = t.ping_buffer in
      let new = map to_ping locs in
      let way = on_the_way x in
      let fits : length (b ++ new) ≤ 100 = omega (
        arith,
        length-append b new,
        length-append way b,
        length-append (delivered bodies) (way ++ b),
        length-append (delivered bodies ++ (way ++ b)) new,
      ) in
      rw (push_pings-take_last b locs o.short, take_last_all 100 (b ++ new) fits)
        (simp append_assoc)

  answered-all_pings :
      (ok : Bool) (now : ℕ) (t : Tracker) (b : BatchBody) (pings : List GpsPing)
      (bodies : List BatchBody)
      → b.pings ≡ pings
      → length (all_pings (running t (some (request_of r b pings)) bodies)) ≤ 100
      → all_pings (step (running t (some (request_of r b pings)) bodies) (answer ok now))
        ≡ all_pings (running t (some (request_of r b pings)) bodies)
  unfolding step flush_end
  answered-all_pings true now t b pings bodies e h =
      rw e (append_assoc (delivered bodies) pings t.ping_buffer)
  answered-all_pings false now t b pings bodies e h =
      let buffer = t.ping_buffer in
      let fits : length (pings ++ buffer) ≤ 100 =
        omega (arith, length-append (delivered bodies) (pings ++ buffer)) in
      ap (delivered bodies ++◌)
        (requeue-take_last pings buffer ∙ take_last_all 100 (pings ++ buffer) fits)

  answer-all_pings :
      (ok : Bool) (now : ℕ) (t : Tracker) (x : Option Sending) (bodies : List BatchBody)
      → IsOpen r first (running t x bodies)
      → length (all_pings (running t x bodies)) ≤ 100
      → all_pings (step (running t x bodies) (answer ok now)) ≡ all_pings (running t x bodies)
  answer-all_pings ok now t none bodies o h = unfold step in refl
  answer-all_pings ok now t (some s) bodies o h =
      let same = waiting-request r first t s o.waits in
      subst
        (λ s'.
          all_pings (step (running t (some s') bodies) (answer ok now))
          ≡ all_pings (running t (some s') bodies))
        (sym same) (answered-all_pings ok now t o.waits.0 s.pings bodies o.waits.3 h)

  task-all_pings :
      (auth : Option String) (ev : TaskEvent) (now : ℕ) (w : Running)
      → IsOpen r first w
      → length (all_pings w ++ gathered (task auth ev now)) ≤ 100
      → all_pings (step w (task auth ev now)) ≡ all_pings w ++ gathered (task auth ev now)
  unfolding step background_task
  task-all_pings auth failure now w o h = sym (append-nil (all_pings w))
  task-all_pings auth no_data now w o h = sym (append-nil (all_pings w))
  task-all_pings auth (locations locs) now w o h =
      let t' : Tracker = record w.tracker { ping_buffer = push_pings w.tracker.ping_buffer locs } in
      ap (λ f. all_pings (started_sending w.waiting w.confirmed f))
        (background_task-flush_begin auth w.tracker r o.loaded locs now)
      ∙ flush-all_pings auth t' w.waiting w.confirmed
          (fill-IsOpen r first locs w.tracker w.waiting w.confirmed o)
      ∙ fill-all_pings locs w.tracker w.waiting w.confirmed o h

  step-all_pings :
      (w : Running) (e : Event)
      → IsOpen r first w
      → length (all_pings w ++ gathered e) ≤ 100
      → all_pings (step w e) ≡ all_pings w ++ gathered e
  step-all_pings w (task auth ev now) o h = task-all_pings auth ev now w o h
  step-all_pings w (force auth) o h =
      unfold step in
      ap (λ f. all_pings (started_sending w.waiting w.confirmed f))
        (force_flush-flush_begin auth w.tracker r o.loaded)
      ∙ flush-all_pings auth w.tracker w.waiting w.confirmed o
      ∙ sym (append-nil (all_pings w))
  step-all_pings w (answer ok now) o h =
      answer-all_pings ok now w.tracker w.waiting w.confirmed o
        (subst (λ l. length l ≤ 100) (append-nil (all_pings w)) h)
      ∙ sym (append-nil (all_pings w))

  -- From any moment of an open session, and while at most a hundred pings are there in all, every
  -- ping that was there or was collected is in a batch whose answer was good, on its way or in the
  -- buffer, exactly once and in the order of collection, whatever the order of deliveries, forced
  -- flushes and answers, good and bad.
  pub run-all_pings :
      (es : List Event) (w : Running)
      → IsOpen r first w
      → length (all_pings w ++ collected es) ≤ 100
      → all_pings (run w es) ≡ all_pings w ++ collected es
  run-all_pings [] w o h = sym (append-nil (all_pings w))
  run-all_pings (e ∷ es) w o h =
      let one : all_pings (step w e) ≡ all_pings w ++ gathered e = step-all_pings w e o (
        omega (
          arith,
          length-append (all_pings w) (gathered e),
          length-append (gathered e) (collected es),
          length-append (all_pings w) (gathered e ++ collected es),
        )) in
      let both : all_pings (step w e) ++ collected es ≡ all_pings w ++ collected (e ∷ es) =
        ap (◌++ collected es) one ∙ append_assoc (all_pings w) (gathered e) (collected es) in
      run-all_pings es (step w e) (step-IsOpen r first w e o)
        (subst (λ l. length l ≤ 100) (sym both) h)
      ∙ both
