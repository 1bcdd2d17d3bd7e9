-- ===== src/Mobile/Tracker.antt =====
-- mobile/src/services/locationTracker.ts: the buffer of pings, the batches that are sent, and the
-- life of a tracking session. An asynchronous function is cut at the answers that it waits for: its
-- part up to a request, and its part from the answer on. Between the two, other parts may run.
pub mod Buffer
pub mod Run
pub mod Session
pub mod Tests
use mathlib.Core.List.{tail}
use mansariya.Base.{
  ℕ, ◌+◌, ◌-◌, String, Bool, true, false, ◌&&◌, ◌||◌, not, Option, none, some, List, [], ◌∷◌, ◌++◌,
  length, take_last, leb, ltb, ◌==◌, if◌then◌else◌, ◌/◌, Bool,
}
use mansariya.Base.Int.{ℤ, pos, max_zero}
use mansariya.Mobile.Api.{
  GpsPing, GpsEventType, started, ping, stopped, BatchMeta, BatchBody, truthy_text, truthy_number,
  send_gps_batch,
}
use mansariya.Mobile.Identity.{
  TrackingSession, Device, Platform, create_tracking_session, persist_tracking_session,
  get_persisted_tracking_session, clear_tracking_session,
}

-- `Location.LocationObject`: coordinates, accuracy, speed and heading are fixed-point numbers in
-- thousandths, the time is in milliseconds.
pub record LocationObject : Type 0 where
  pub latitude : ℤ
  pub longitude : ℤ
  pub timestamp : ℕ
  pub accuracy : Option ℤ
  pub speed : Option ℤ
  pub heading : Option ℤ

-- The module's variables; a session object is a reference into `sessions`, since its counter is
-- written through every variable that holds it. `posted` are the requests made, newest first,
-- `reports` the values given to the listener, newest first.
pub record Tracker : Type 0 where
  pub ping_buffer : List GpsPing
  pub trip_meta : BatchMeta
  pub last_flush_time : ℕ
  pub total_pings_sent : ℕ
  pub is_flush_in_progress : Bool
  pub current_session : Option ℕ
  pub sessions : ℕ → TrackingSession
  pub next_session : ℕ
  pub device : Device
  pub registered : Bool
  pub listening : Bool
  pub reports : List ℕ
  pub posted : List BatchBody

abbrev pub min_batch_size : ℕ
min_batch_size = 1

abbrev pub max_buffer_size : ℕ
max_buffer_size = 100

abbrev pub flush_interval_ms : ℕ
flush_interval_ms = 5000

abbrev pub update_session : (ℕ → TrackingSession) → ℕ → TrackingSession → ℕ → TrackingSession
update_session sessions r s q = if r == q then s else sessions q

-- A new session object.
abbrev pub allocate : TrackingSession → Tracker → Tracker
allocate s t = record t {
  sessions = update_session t.sessions t.next_session s;
  next_session = t.next_session + 1;
  current_session = some t.next_session;
}

unfoldable pub ensure_session_loaded : Tracker → Option ℕ × Tracker
ensure_session_loaded t = elim t.current_session [
  | some r ↦ (some r, t)
  | none ↦ elim (get_persisted_tracking_session t.device) [
    | none ↦ (none, t)
    | some s ↦ (some t.next_session, allocate s t)
  ]
]

-- `value ?? fallback`
abbrev pub or_default {ℓ} : {A : Type ℓ} → Option A → A → A
or_default none d = d
or_default (some a) d = a

abbrev pub to_ping : LocationObject → GpsPing
to_ping loc = record {
  lat = loc.latitude;
  lng = loc.longitude;
  ts = loc.timestamp / 1000;
  acc = or_default loc.accuracy (pos 10000);
  spd = max_zero (or_default loc.speed (pos 0));
  brg = max_zero (or_default loc.heading (pos 0));
}

unfoldable pub push_ping : List GpsPing → LocationObject → List GpsPing
push_ping buffer loc =
    let room = if leb max_buffer_size (length buffer) then tail buffer else buffer in
    room ++ to_ping loc ∷ []

-- The loop of the background task.
unfoldable pub push_pings : List GpsPing → List LocationObject → List GpsPing
push_pings buffer [] = buffer
push_pings buffer (loc ∷ locs) = push_pings (push_ping buffer loc) locs

-- A batch on its way: its pings, and the session object and the body of its request; no request is
-- made where no session is found.
pub record Sending : Type 0 where
  pub pings : List GpsPing
  pub request : Option (ℕ × BatchBody)

abbrev pub batch_body : Option String → GpsEventType → List GpsPing → Tracker → ℕ → BatchBody
batch_body auth event pings t r =
    let s = t.sessions r in
    send_gps_batch s.device_hash s.session_id (or_default auth s.contributor_id) pings t.trip_meta
      (record {
        event_type = some event;
        identity_version = some s.identity_version;
        session_started_at = some s.session_started_at;
        batch_seq = some s.next_batch_seq;
      })

-- `sendBatch` up to its request. `auth` is the contributor's id in the contributor store.
unfoldable pub send_begin :
    Option String → GpsEventType → List GpsPing → Tracker → Sending × Tracker
unfolding ensure_session_loaded
send_begin auth event pings t =
    let (found, t') = ensure_session_loaded t in
    elim found [
      | none ↦ (record { pings = pings; request = none }, t')
      | some r ↦
          let body = batch_body auth event pings t' r in
          (
            record { pings = pings; request = some (r, body) },
            record t' { posted = body ∷ t'.posted },
          )
    ]

-- `sendBatch` after a good answer: the counter of the session object that was read before goes up,
-- the object becomes the current one, and is persisted.
unfoldable pub send_end : Sending → Tracker → Tracker
send_end sending t = elim sending.request [
  | none ↦ t
  | some (r, body) ↦
      let s = t.sessions r in
      let s' : TrackingSession = record s { next_batch_seq = s.next_batch_seq + 1 } in
      record t {
        sessions = update_session t.sessions r s';
        current_session = some r;
        device = persist_tracking_session s' t.device;
      }
]

-- A batch without a request cannot fail.
abbrev pub succeeds : Sending → Bool → Bool
succeeds sending ok = elim sending.request [ none ↦ true | some _ ↦ ok ]

abbrev pub report : Tracker → Tracker
report t = record t { reports = if t.listening then t.total_pings_sent ∷ t.reports else t.reports }

-- Whether there is a listener.
abbrev pub set_on_ping_count_update : Bool → Tracker → Tracker
set_on_ping_count_update listening t = record t { listening = listening }

abbrev pub get_ping_count : Tracker → ℕ
get_ping_count t = t.total_pings_sent

abbrev pub is_tracking_active : Tracker → Bool
is_tracking_active t = t.registered

-- `flushBuffer` up to the answer; `none` where it returns at once.
unfoldable pub flush_begin : Option String → Tracker → Option Sending × Tracker
unfolding send_begin
flush_begin auth t =
    if length t.ping_buffer == 0 || t.is_flush_in_progress
    then (none, t)
    else (let (found, t1) = ensure_session_loaded t in
        elim found [
          | none ↦ (none, t1)
          | some _ ↦
              let (sending, t2) =
                send_begin auth ping t1.ping_buffer
                  (record t1 { is_flush_in_progress = true; ping_buffer = [] }) in
              (some sending, t2)
        ])

-- A failed batch goes back in front of what came in since, and the newest pings are kept.
abbrev pub requeue : List GpsPing → List GpsPing → List GpsPing
requeue pings buffer =
    let all = pings ++ buffer in
    if ltb max_buffer_size (length all) then take_last max_buffer_size all else all

-- `flushBuffer` from the answer on.
unfoldable pub flush_end : Sending → Bool → ℕ → Tracker → Tracker
unfolding send_end
flush_end sending ok now t =
    if succeeds sending ok
    then (let t1 = send_end sending t in
        record (report (record t1 {
          total_pings_sent = t1.total_pings_sent + length sending.pings;
          last_flush_time = now;
        })) { is_flush_in_progress = false })
    else record t {
      ping_buffer = requeue sending.pings t.ping_buffer;
      is_flush_in_progress = false;
    }

-- The argument of the background task.
pub data TaskEvent : Type 0 where
  failure : TaskEvent
  no_data : TaskEvent
  locations : List LocationObject → TaskEvent

abbrev pub should_flush : ℕ → Tracker → Bool
should_flush now t =
    leb min_batch_size (length t.ping_buffer)
    || (ltb 0 (length t.ping_buffer) && leb (t.last_flush_time + flush_interval_ms) now)

-- The background task up to the answer to its flush.
unfoldable pub background_task : Option String → TaskEvent → ℕ → Tracker → Option Sending × Tracker
background_task auth failure now t = (none, t)
background_task auth no_data now t = (none, t)
background_task auth (locations locs) now t =
    let (found, t1) = ensure_session_loaded t in
    elim found [
      | none ↦ (none, t1)
      | some _ ↦
          let t2 : Tracker = record t1 { ping_buffer = push_pings t1.ping_buffer locs } in
          if should_flush now t2 && not t2.is_flush_in_progress
          then flush_begin auth t2
          else (none, t2)
    ]

unfoldable pub force_flush : Option String → Tracker → Option Sending × Tracker
force_flush auth t =
    let (found, t1) = ensure_session_loaded t in
    elim found [
      | none ↦ (none, t1)
      | some _ ↦ if ltb 0 (length t1.ping_buffer) then flush_begin auth t1 else (none, t1)
    ]
