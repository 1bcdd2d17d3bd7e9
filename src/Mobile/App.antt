-- ===== src/Mobile/App.antt =====
-- mobile/src/App.tsx and the tracking button of mobile/src/screens/MapScreen.tsx: how the screens, the
-- tracking store and the location tracker are kept in step. A start and a stop are cut in two: what
-- they do to the task comes first, what they tell the store comes last, and anything may happen in
-- between. A start asks for its permissions and registers the task in one step. What a step waits for
-- is given by `Outcome`.
pub mod Agreement
pub mod Situation
pub mod Steps
pub mod Invariant
mod Tests
use mansariya.Base.{
  ℕ, String, Bool, true, false, not, ◌||◌, Option, none, some, List, [], ◌∷◌, if◌then◌else◌,
}
use mansariya.Mobile.Api.{BatchMeta}
use mansariya.Mobile.Identity.{Platform}
use mansariya.Mobile.Tracker.{
  LocationObject, Tracker, Sending, force_flush, set_on_ping_count_update,
}
use mansariya.Mobile.Tracker.Session.{
  StartResult, already, refused, thrown, begun, no_meta, Stopping, start_begin, start_position,
  start_answer, stop_begin, stop_rest, recover_tracking, flush_answer,
}
use mansariya.Mobile.Stores.TrackingStore
use mansariya.Mobile.Stores.TrackingStore.{
  TripMeta, TrackingState, Persisted, initial, empty_meta, set_ping_count,
}

-- What waits for its end: a start, with its details and the result that it has by then; a stop; or,
-- in a new process, the store, which has not yet read what it had written.
pub data Underway : Type 0 where
  nothing : Underway
  starting : TripMeta → StartResult → Underway
  stopping : Stopping → Underway
  reading : Persisted → Underway

-- The stores and the tracker, and the state of the map's screen. `is_toggling` disables the button.
pub record Phone : Type 0 where
  pub tracker : Tracker
  pub store : TrackingState
  pub show_trip_modal : Bool
  pub is_toggling : Bool
  pub underway : Underway

-- What comes from outside while a step runs: the contributor's id, the permissions, whether the
-- location updates start, the first position, the answers to the requests, and the clock.
pub record Outcome : Type 0 where
  pub auth : Option String
  pub foreground : Bool
  pub background : Bool
  pub updates : Bool
  pub first_position : Option LocationObject
  pub first_answer : Bool
  pub flush_answered : Bool
  pub stop_answered : Bool
  pub now : ℕ

abbrev pub to_batch_meta : TripMeta → BatchMeta
to_batch_meta m = record {
  route_id = m.route_id;
  bus_number = m.bus_number;
  crowd_level = m.crowd_level;
}

-- `startTracking` from the request for the first position to its end.
unfoldable pub first_ping : Outcome → Tracker → Tracker
first_ping o t = elim o.first_position [
  | none ↦ t
  | some loc ↦
      let (sending, t') = start_position o.auth loc t in
      start_answer sending o.first_answer o.now t'
]

unfoldable pub after_begin : Outcome → StartResult × Tracker → StartResult × Tracker
after_begin o (already, t) = (already, t)
after_begin o (refused, t) = (refused, t)
after_begin o (thrown, t) = (thrown, t)
after_begin o (begun, t) = (begun, first_ping o t)

-- The value of the promise: `true` for a task that runs; an exception is `none`.
abbrev pub to_value : StartResult → Option Bool
to_value already = some true
to_value refused = some false
to_value thrown = none
to_value begun = some true

module _ (p : Platform) (o : Outcome) where
  unfoldable pub recover : BatchMeta → Tracker → Option Bool × Tracker
  unfolding after_begin
  recover meta t =
      let (r, t') =
        after_begin o (recover_tracking p meta o.foreground o.background o.updates o.now t) in
      (to_value r, t')

  -- `handleTrackingToggle`. A stop is followed up to the request of its flush: by then the task is
  -- registered no more. Where the dialog is shown, `is_toggling` is set and taken back at once.
  unfoldable pub handle_tracking_toggle : Phone → Phone
  handle_tracking_toggle s =
      if s.is_toggling
      then s
      else if s.store.is_tracking
      then (let (stop, t) = stop_begin o.auth s.tracker in
          record s { tracker = t; is_toggling = true; underway = stopping stop })
      else record s { show_trip_modal = true }

  -- `handleStartWithMeta`, and `handleSkipMeta` with the empty details, up to the registration of the
  -- task.
  unfoldable pub handle_start_with_meta : TripMeta → Phone → Phone
  handle_start_with_meta meta s =
      let (r, t) =
        start_begin p (to_batch_meta meta) o.foreground o.background o.updates o.now s.tracker in
      record s {
        tracker = t;
        show_trip_modal = false;
        is_toggling = true;
        underway = starting meta r;
      }

  -- What is under way comes to its end. A start sends its first position, and tells the store where
  -- its promise gave `true`; an exception ends it after the `finally`. A stop sends its event, forgets
  -- the session and tells the store. The store takes what it had written.
  unfoldable pub ended : Underway → Phone → Phone
  unfolding after_begin
  ended nothing s = s
  ended (starting meta r) s =
      let s' : Phone = record s {
        tracker = (after_begin o (r, s.tracker)).1;
        is_toggling = false;
        underway = nothing;
      } in
      elim (to_value r) [
        | some true ↦ record s' { store = TrackingStore.start_tracking meta o.now s.store }
        | some false ↦ s'
        | none ↦ s'
      ]
  ended (stopping stop) s = record s {
    tracker = stop_rest o.auth o.flush_answered o.stop_answered o.now (stop, s.tracker);
    store = TrackingStore.stop_tracking s.store;
    is_toggling = false;
    underway = nothing;
  }
  ended (reading saved) s = record s {
    store = record s.store {
      is_tracking = saved.is_tracking;
      trip_meta = saved.trip_meta;
      total_trips_shared = saved.total_trips_shared;
      trip_start_time = saved.trip_start_time;
    };
    underway = nothing;
  }

  -- The two recoveries: when the application is launched and when it becomes active.
  unfoldable pub recover_if_tracking : Phone → Phone
  recover_if_tracking s =
      if s.store.is_tracking
      then (let (ok, t) = recover (to_batch_meta s.store.trip_meta) s.tracker in
          let s' : Phone = record s { tracker = t } in
          elim ok [
            | some true ↦ s'
            | some false ↦ record s' { store = TrackingStore.stop_tracking s.store }
            | none ↦ s'
          ])
      else s

  -- The effect on launch; its clean-up takes the listener away.
  unfoldable pub launch : Phone → Phone
  launch s =
      let s' = recover_if_tracking s in
      record s' { tracker = set_on_ping_count_update true s'.tracker }

  abbrev pub tear_down : Phone → Phone
  tear_down s = record s { tracker = set_on_ping_count_update false s.tracker }

  -- The application goes to the background: the buffer is flushed.
  unfoldable pub to_background : Phone → Phone
  to_background s =
      let (sending, t) = force_flush o.auth s.tracker in
      record s { tracker = flush_answer sending o.flush_answered o.now t }

-- The variables of the tracker's module as they are when the process starts. What is in the storage,
-- and the registration of the task, stay.
abbrev pub fresh_variables : Tracker → Tracker
fresh_variables t = record t {
  ping_buffer = [];
  trip_meta = no_meta;
  last_flush_time = 0;
  total_pings_sent = 0;
  is_flush_in_progress = false;
  current_session = none;
  listening = false;
}

-- What the storage holds of the store.
abbrev pub saved_of : Underway → TrackingState → Persisted
saved_of (reading saved) s = saved
saved_of _ s = TrackingStore.partialize s

-- The process has ended and starts again: the store is the initial one until it has read what it had
-- written.
unfoldable pub restart : Phone → Phone
restart s = record {
  tracker = fresh_variables s.tracker;
  store = initial;
  show_trip_modal = false;
  is_toggling = false;
  underway = reading (saved_of s.underway s.store);
}

-- The system drops the task, and with it the location updates.
abbrev pub drop_task : Phone → Phone
drop_task s = record s { tracker = record s.tracker { registered = false } }

-- What the user and the system do to the application. The details are confirmed in the dialog, so
-- only while it is shown; closing it changes nothing else. `settled` is the end of what is under way.
pub data Act : Type 0 where
  toggled : Act
  confirmed : TripMeta → Act
  closed : Act
  sent_back : Act
  activated : Act
  launched : Act
  restarted : Act
  dropped : Act
  settled : Act

module _ (p : Platform) where
  unfoldable pub act : Outcome → Act → Phone → Phone
  act o toggled s = handle_tracking_toggle p o s
  act o (confirmed meta) s = if s.show_trip_modal then handle_start_with_meta p o meta s else s
  act o closed s = record s { show_trip_modal = false }
  act o sent_back s = to_background p o s
  act o activated s = recover_if_tracking p o s
  act o launched s = launch p o s
  act o restarted s = restart s
  act o dropped s = drop_task s
  act o settled s = ended p o s.underway s

  unfoldable pub run : List (Outcome × Act) → Phone → Phone
  run [] s = s
  run ((o, a) ∷ rest) s = run rest (act o a s)

-- The listener that `launch` registers.
abbrev pub on_count : ℕ → Phone → Phone
on_count n s = record s { store = set_ping_count n s.store }

-- The phase of the application.
pub data AppPhase : Type 0 where
  hydrating splash onboarding main : AppPhase

-- The effect on the settings store: it runs again when `hasCompletedOnboarding` changes.
abbrev pub phase_effect : Bool → Bool → AppPhase → AppPhase
phase_effect hydrated onboarded phase =
    if hydrated then (if onboarded then splash else onboarding) else phase

abbrev pub on_finish_hydration : Bool → AppPhase
on_finish_hydration onboarded = if onboarded then splash else onboarding

abbrev pub handle_splash_ready : AppPhase → AppPhase
handle_splash_ready phase = main
