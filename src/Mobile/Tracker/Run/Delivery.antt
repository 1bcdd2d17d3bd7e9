-- ===== src/Mobile/Tracker/Run/Delivery.antt =====
-- Runs keep the invariant, and lose, repeat and reorder no ping.
use mansariya.Base.{
  ℕ, ◌≤◌, String, Bool, true, false, Option, none, some, List, [], ◌∷◌, ◌++◌, map, ◌≡◌, refl, sym,
  subst, inl, inr, arith, length, length-take_last,
}
use mansariya.Mobile.Api.{GpsPing, BatchBody, ping, send_gps_batch}
use mansariya.Mobile.Tracker.{
  LocationObject, Tracker, Sending, TaskEvent, failure, no_data, locations, to_ping, push_pings,
  flush_begin, background_task, flush_end, requeue, batch_body, max_buffer_size,
}
use mansariya.Mobile.Tracker.Buffer.{push_pings-take_last, requeue-take_last}
use mansariya.Mobile.Tracker.Run.{
  Event, task, force, answer, Running, started_sending, step, run, NumberedBelow, Waits, IsOpen,
}
use mansariya.Mobile.Tracker.Run.Flush.{
  flush_begin-cases, force_flush-flush_begin, background_task-flush_begin,
}

pub NumberedBelow-le :
    (first n : ℕ) (bodies : List BatchBody) → NumberedBelow first n bodies → first ≤ n
NumberedBelow-le first n [] h = omega arith
NumberedBelow-le first n (b ∷ bodies) (m, e, _, h) =
    omega (arith, NumberedBelow-le first m bodies h)

abbrev pub running : Tracker → Option Sending → List BatchBody → Running
running t x bodies = record { tracker = t; waiting = x; confirmed = bodies }

-- A batch whose request was made for the session object `r`.
abbrev pub request_of : ℕ → BatchBody → List GpsPing → Sending
request_of r b pings = record { pings = pings; request = some (r, b) }

module _ (r first : ℕ) where
  flush-IsOpen :
      (auth : Option String) (t : Tracker) (x : Option Sending) (bodies : List BatchBody)
      → IsOpen r first (running t x bodies)
      → IsOpen r first (started_sending x bodies (flush_begin auth t))
  flush-IsOpen auth t x bodies o = elim (flush_begin-cases auth t r o.loaded) [
    | inl (_, e) ↦ rw e o
    | inr (inl (_, e)) ↦ rw e o
    | inr (inr (idle, e)) ↦
        let some_number = NumberedBelow-le first _ bodies o.numbered in
        rw e (record {
          loaded = o.loaded;
          positive = o.positive;
          numbered = o.numbered;
          short = omega arith;
          waits = (
            batch_body auth ping t.ping_buffer t r,
            refl,
            refl,
            unfold send_gps_batch in refl,
            unfold send_gps_batch in ground arith,
          );
        })
  ]

  push_pings-le :
      (buffer : List GpsPing) (locs : List LocationObject)
      → length buffer ≤ max_buffer_size
      → length (push_pings buffer locs) ≤ max_buffer_size
  push_pings-le buffer locs h =
      rw (push_pings-take_last buffer locs h)
        (omega (arith, length-take_last 100 (buffer ++ map to_ping locs)))

  pub fill-IsOpen :
      (locs : List LocationObject) (t : Tracker) (x : Option Sending) (bodies : List BatchBody)
      → IsOpen r first (running t x bodies)
      → IsOpen r first (running (record t { ping_buffer = push_pings t.ping_buffer locs }) x bodies)
  fill-IsOpen locs t none bodies o = record {
    loaded = o.loaded;
    positive = o.positive;
    numbered = o.numbered;
    short = push_pings-le t.ping_buffer locs o.short;
    waits = o.waits;
  }
  fill-IsOpen locs t (some s) bodies o = record {
    loaded = o.loaded;
    positive = o.positive;
    numbered = o.numbered;
    short = push_pings-le t.ping_buffer locs o.short;
    waits = o.waits;
  }

  requeue-le : (pings buffer : List GpsPing) → length (requeue pings buffer) ≤ max_buffer_size
  requeue-le pings buffer =
      rw (requeue-take_last pings buffer) (omega (arith, length-take_last 100 (pings ++ buffer)))

  answered-IsOpen :
      (ok : Bool) (now : ℕ) (t : Tracker) (b : BatchBody) (pings : List GpsPing)
      (bodies : List BatchBody)
      → b.batch_seq ≡ some (t.sessions r).next_batch_seq
      → IsOpen r first (running t (some (request_of r b pings)) bodies)
      → IsOpen r first (step (running t (some (request_of r b pings)) bodies) (answer ok now))
  unfolding step flush_end
  answered-IsOpen true now t b pings bodies e o = record {
    loaded = refl;
    positive = o.positive;
    numbered = ((t.sessions r).next_batch_seq, ground arith, e, o.numbered);
    short = o.short;
    waits = refl;
  }
  answered-IsOpen false now t b pings bodies e o = record {
    loaded = o.loaded;
    positive = o.positive;
    numbered = o.numbered;
    short = requeue-le pings t.ping_buffer;
    waits = refl;
  }

  -- A batch that waits is the request for the session object.
  pub waiting-request :
      (t : Tracker) (s : Sending) → (w : Waits r t (some s)) → s ≡ request_of r w.0 s.pings
  waiting-request t s w = λ i. record { pings = s.pings; request = w.2 i }

  answer-IsOpen :
      (ok : Bool) (now : ℕ) (t : Tracker) (x : Option Sending) (bodies : List BatchBody)
      → IsOpen r first (running t x bodies)
      → IsOpen r first (step (running t x bodies) (answer ok now))
  answer-IsOpen ok now t none bodies o = unfold step in o
  answer-IsOpen ok now t (some s) bodies o =
      let same = waiting-request t s o.waits in
      subst (λ s'. IsOpen r first (step (running t (some s') bodies) (answer ok now))) (sym same)
        (answered-IsOpen ok now t o.waits.0 s.pings bodies o.waits.4
          (subst (λ s'. IsOpen r first (running t (some s') bodies)) same o))

  task-IsOpen :
      (auth : Option String) (ev : TaskEvent) (now : ℕ) (t : Tracker) (x : Option Sending)
      (bodies : List BatchBody)
      → IsOpen r first (running t x bodies)
      → IsOpen r first (step (running t x bodies) (task auth ev now))
  unfolding step background_task
  task-IsOpen auth failure now t x bodies o = o
  task-IsOpen auth no_data now t x bodies o = o
  task-IsOpen auth (locations locs) now t x bodies o =
      subst (λ f. IsOpen r first (started_sending x bodies f))
        (sym (background_task-flush_begin auth t r o.loaded locs now))
        (flush-IsOpen auth _ x bodies (fill-IsOpen locs t x bodies o))

  pub step-IsOpen : (w : Running) (e : Event) → IsOpen r first w → IsOpen r first (step w e)
  step-IsOpen w (task auth ev now) o = task-IsOpen auth ev now w.tracker w.waiting w.confirmed o
  step-IsOpen w (force auth) o =
      unfold step in
      subst (λ f. IsOpen r first (started_sending w.waiting w.confirmed f))
        (sym (force_flush-flush_begin auth w.tracker r o.loaded))
        (flush-IsOpen auth w.tracker w.waiting w.confirmed o)
  step-IsOpen w (answer ok now) o = answer-IsOpen ok now w.tracker w.waiting w.confirmed o

  -- A session that is open stays open in every run, in any order of deliveries, forced flushes and
  -- answers: the buffer holds at most a hundred pings, the flag says whether a batch waits, and the
  -- batches of pings whose answer was good are numbered without gap or repetition. The batches that a
  -- start and a stop send are no part of such a run.
  pub run-IsOpen : (es : List Event) (w : Running) → IsOpen r first w → IsOpen r first (run w es)
  run-IsOpen [] w o = o
  run-IsOpen (e ∷ es) w o = run-IsOpen es (step w e) (step-IsOpen w e o)
