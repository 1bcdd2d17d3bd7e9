-- ===== src/Mobile/Tracker/Run.antt =====
-- The tracker between a start and a stop: deliveries of locations, forced flushes and answers to
-- the batch on its way, in any order. While the session is in memory, what a call awaits before its
-- request is at hand already, so no other event comes in between.
pub mod Flush
pub mod Timing
pub mod Delivery
pub mod Conserved
use mansariya.Base.{
  ℕ, ◌+◌, ◌≤◌, String, Bool, true, false, Option, none, some, List, [], ◌∷◌, ◌++◌, map, ◌≡◌, length,
  suc, if◌then◌else◌,
}
use mansariya.Mobile.Api.{GpsPing, BatchBody}
use mansariya.Mobile.Tracker.{
  LocationObject, Tracker, Sending, TaskEvent, failure, no_data, locations, to_ping, succeeds,
  background_task, force_flush, flush_end, max_buffer_size,
}

pub data Event : Type 0 where
  task : Option String → TaskEvent → ℕ → Event
  force : Option String → Event
  answer : Bool → ℕ → Event

-- The tracker, the batch that waits for its answer, and the batches whose answer said that the
-- backend took them, newest first. A batch that the backend took, but whose answer was lost, is not
-- among them: it is sent again.
pub record Running : Type 0 where
  pub tracker : Tracker
  pub waiting : Option Sending
  pub confirmed : List BatchBody

-- A call that makes no request leaves the batch that is waiting alone.
abbrev pub started_sending : Option Sending → List BatchBody → Option Sending × Tracker → Running
started_sending x bodies (none, t) = record { tracker = t; waiting = x; confirmed = bodies }
started_sending x bodies (some s, t) = record { tracker = t; waiting = some s; confirmed = bodies }

abbrev pub confirm : Sending → Bool → List BatchBody → List BatchBody
confirm s ok bodies = elim s.request [
  | none ↦ bodies
  | some (r, body) ↦ if ok then body ∷ bodies else bodies
]

pub step : Running → Event → Running
step w (task auth ev now) =
    started_sending w.waiting w.confirmed (background_task auth ev now w.tracker)
step w (force auth) = started_sending w.waiting w.confirmed (force_flush auth w.tracker)
step w (answer ok now) = elim w.waiting [
  | none ↦ w
  | some s ↦ record w {
    tracker = flush_end s ok now w.tracker;
    waiting = none;
    confirmed = confirm s ok w.confirmed;
  }
]

abbrev pub run : Running → List Event → Running
run w [] = w
run w (e ∷ es) = run (step w e) es

-- The pings of the locations that the background task is given.
abbrev pub gathered : Event → List GpsPing
gathered (task auth (locations locs) now) = map to_ping locs
gathered _ = []

abbrev pub collected : List Event → List GpsPing
collected [] = []
collected (e ∷ es) = gathered e ++ collected es

abbrev pub delivered : List BatchBody → List GpsPing
delivered [] = []
delivered (b ∷ bodies) = delivered bodies ++ b.pings

abbrev pub on_the_way : Option Sending → List GpsPing
on_the_way none = []
on_the_way (some s) = s.pings

-- The counters of the confirmed batches end just below `n`, each one above the one before it,
-- down to `first`.
abbrev pub NumberedBelow : ℕ → ℕ → List BatchBody → Type 0
NumberedBelow first n [] = n ≡ first
NumberedBelow first n (b ∷ bodies) =
    (m : ℕ) × (n ≡ suc m) × (b.batch_seq ≡ some m) × NumberedBelow first m bodies

-- The flag says that a batch waits; its request was made for the session object `r`, with all its
-- pings and with the counter that the object still has.
abbrev pub Waits : ℕ → Tracker → Option Sending → Type 0
Waits r t none = t.is_flush_in_progress ≡ false
Waits r t (some s) =
    (b : BatchBody) × (t.is_flush_in_progress ≡ true)
    × (s.request ≡ some (r, b))
    × (b.pings ≡ s.pings)
    × (b.batch_seq ≡ some (t.sessions r).next_batch_seq)

-- What holds at every moment of a run with the session object `r`, whose counter began at `first`.
pub record IsOpen (r first : ℕ) (w : Running) : Type 0 where
  pub loaded : w.tracker.current_session ≡ some r
  pub positive : 1 ≤ first
  pub numbered : NumberedBelow first (w.tracker.sessions r).next_batch_seq w.confirmed
  pub short : length w.tracker.ping_buffer ≤ max_buffer_size
  pub waits : Waits r w.tracker w.waiting
