-- ===== src/Mobile/Tracker/Tests.antt =====
-- Tests and examples of mobile/src/services/locationTracker.ts: one session, and a batch on its way.
use mansariya.Base.{true, false, none, some, List, [], ◌∷◌, ◌++◌, ◌≡◌, refl, arith}
use mansariya.Base.Int.{pos}
use mansariya.Mobile.Api.{BatchMeta, BatchBody, ping, stopped, send_gps_batch}
use mansariya.Mobile.Identity.{
  TrackingSession, missing, Device, Platform, get_persisted_tracking_session,
}
use mansariya.Mobile.Identity.Laws.{HashesSomething, IsRestorable, append-ne_empty}
use mansariya.Mobile.Tracker.{
  LocationObject, Tracker, Sending, locations, batch_body, to_ping, requeue, flush_end,
}
use mansariya.Mobile.Tracker.Run.{Event, task, force, answer, Running, run, collected, IsOpen}
use mansariya.Mobile.Tracker.Run.Timing.{forget, run-untimed}
use mansariya.Mobile.Tracker.Run.Delivery.{running, request_of, run-IsOpen}
use mansariya.Mobile.Tracker.Run.Conserved.{all_pings, run-all_pings}
use mansariya.Mobile.Tracker.Session.{
  begun, start_begin, stop_begin, stop_send, stop_tracking, no_meta,
}
use mansariya.Mobile.Tracker.Session.Laws.{start-persisted, stop-posted}
use mansariya.Mobile.Tracker.Session.Races.{stop-duplicate_seq, after_stop, late_answer}
use Prim.Native.String.{◌++◌ as append}

abbrev pub platform : Platform
platform = record {
  random_text = λ n. "0.x7";
  base36 = λ n. "t1";
  iso_date = λ n. "2026-01-02T10:00:00Z";
  sha256_hex = λ s. append "e3b0" s;
}

platform-HashesSomething : HashesSomething platform
platform-HashesSomething payload = append-ne_empty "e3b0" payload (λ e. cc)

abbrev device : Device
device = record {
  install_secret = none;
  contributor_id = none;
  active_session = missing;
  draws = 0;
}

abbrev session : TrackingSession
session = record {
  identity_version = 1;
  device_hash = "e3b0";
  contributor_id = "c9";
  session_id = "sess_1";
  session_started_at = 50;
  next_batch_seq = 1;
}

abbrev pub idle_tracker : Tracker
idle_tracker = record {
  ping_buffer = [];
  trip_meta = no_meta;
  last_flush_time = 0;
  total_pings_sent = 0;
  is_flush_in_progress = false;
  current_session = none;
  sessions = λ r. session;
  next_session = 0;
  device = device;
  registered = false;
  listening = false;
  reports = [];
  posted = [];
}

abbrev pub colombo : LocationObject
colombo = record {
  latitude = pos 6927;
  longitude = pos 79861;
  timestamp = 70000;
  accuracy = none;
  speed = some (pos 8000);
  heading = none;
}

abbrev trip : BatchMeta
trip = record { route_id = some "138"; bus_number = none; crowd_level = some 2 }

-- A tracker with a session, and one ping in the buffer.
abbrev open_tracker : Tracker
open_tracker = record idle_tracker {
  ping_buffer = to_ping colombo ∷ [];
  current_session = some 0;
  next_session = 1;
  registered = true;
}

abbrev open_run : Running
open_run = running open_tracker none []

open_run-IsOpen : IsOpen 0 1 open_run
open_run-IsOpen = record {
  loaded = refl;
  positive = omega arith;
  numbered = refl;
  short = omega arith;
  waits = refl;
}

-- The same after a flush whose answer has not come.
abbrev body : BatchBody
body = batch_body none ping (to_ping colombo ∷ []) open_tracker 0

abbrev waiting_tracker : Tracker
waiting_tracker = record open_tracker { ping_buffer = []; is_flush_in_progress = true }

abbrev sent : Sending
sent = request_of 0 body (to_ping colombo ∷ [])

waiting-IsOpen : IsOpen 0 1 (running waiting_tracker (some sent) [])
waiting-IsOpen = record {
  loaded = refl;
  positive = omega arith;
  numbered = refl;
  short = omega arith;
  waits = (body, refl, refl, unfold send_gps_batch in refl, unfold send_gps_batch in refl);
}

abbrev events : List Event
events =
    task none (locations (colombo ∷ colombo ∷ [])) 71000
    ∷ answer false 72000
    ∷ force none
    ∷ answer true 73000
    ∷ []

run-all_pings_example : all_pings (run open_run events) ≡ all_pings open_run ++ collected events
run-all_pings_example = run-all_pings 0 1 events open_run open_run-IsOpen (omega arith)

run-IsOpen_example : IsOpen 0 1 (run open_run events)
run-IsOpen_example = run-IsOpen 0 1 events open_run open_run-IsOpen

-- The same a day later, and from a tracker that has flushed meanwhile.
abbrev later_events : List Event
later_events =
    task none (locations (colombo ∷ colombo ∷ [])) 86471000
    ∷ answer false 86472000
    ∷ force none
    ∷ answer true 86472001
    ∷ []

run-untimed_example :
    forget (run open_run events)
    ≡ forget
        (run (running (record open_tracker { last_flush_time = 86470000 }) none []) later_events)
run-untimed_example =
    run-untimed events later_events open_run
      (running (record open_tracker { last_flush_time = 86470000 }) none []) refl refl

stop-duplicate_seq_example :
    (b : BatchBody) × ((stop_send none
        (stop_begin none waiting_tracker).0
        (stop_begin none waiting_tracker).1).0
      ≡ some (request_of 0 b []))
    × (b.event_type ≡ some stopped)
    × (b.batch_seq ≡ waiting-IsOpen.waits.0.batch_seq)
stop-duplicate_seq_example = stop-duplicate_seq none 0 1 waiting_tracker sent [] waiting-IsOpen

session-IsRestorable : IsRestorable session
session-IsRestorable = record {
  device_hash = λ e. cc;
  session_id = λ e. cc;
  session_started_at = omega arith;
  identity_version = omega arith;
  next_batch_seq = omega arith;
}

late_answer_example :
    let u = after_stop none 0 1 waiting_tracker sent [] waiting-IsOpen true in
    let good = flush_end sent true 75000 u in
    (u.current_session ≡ none)
    × (get_persisted_tracking_session u.device ≡ none)
    × (u.ping_buffer ≡ [])
    × (good.current_session ≡ some 0)
    × (get_persisted_tracking_session good.device ≡ some (record session { next_batch_seq = 3 }))
    × ((flush_end sent false 75000 u).ping_buffer ≡ requeue sent.pings [])
late_answer_example =
    late_answer none 0 1 waiting_tracker sent [] waiting-IsOpen session-IsRestorable true 75000

-- A start on a new device, and a stop of the session with one ping in the buffer.
begun_tracker-begun : (start_begin platform trip true false true 60 idle_tracker).0 ≡ begun
unfolding start_begin
begun_tracker-begun = refl

start-persisted_example :
    let (_, t) = start_begin platform trip true false true 60 idle_tracker in
    get_persisted_tracking_session t.device ≡ some (t.sessions 0)
start-persisted_example =
    start-persisted platform trip true false true 60 idle_tracker platform-HashesSomething
      (omega arith) begun_tracker-begun

stop-posted_example :
    (flush event : BatchBody) × ((stop_tracking none true true 80000 open_tracker).posted
      ≡ event ∷ flush ∷ [])
    × (flush.pings ≡ to_ping colombo ∷ [])
    × (flush.event_type ≡ some ping)
    × (flush.batch_seq ≡ some 1)
    × (event.pings ≡ [])
    × (event.event_type ≡ some stopped)
    × (event.batch_seq ≡ some 2)
    × (event.route_id ≡ flush.route_id)
stop-posted_example = stop-posted none 0 80000 open_tracker refl refl (λ e. cc) (omega arith)
