-- ===== src/Mobile/Tracker/Session.antt =====
-- mobile/src/services/locationTracker.ts: `startTracking`, `stopTracking` and `recoverTracking`,
-- each cut at the answers that it waits for.
pub mod Laws
pub mod Races
use mansariya.Base.{
  ℕ, ◌+◌, Bool, true, false, String, Option, none, some, List, [], ◌∷◌, if◌then◌else◌,
}
use mansariya.Mobile.Api.{GpsPing, started, stopped, BatchMeta, truthy_text, truthy_number}
use mansariya.Mobile.Identity.{
  Device, Platform, TrackingSession, create_tracking_session, clear_tracking_session,
}
use mansariya.Mobile.Tracker.{
  Tracker, Sending, LocationObject, allocate, ensure_session_loaded, push_ping, send_begin,
  send_end, succeeds, report, flush_begin, flush_end,
}

pub data StartResult : Type 0 where
  already : StartResult
  refused : StartResult
  thrown : StartResult
  begun : StartResult

abbrev pub no_meta : BatchMeta
no_meta = record { route_id = none; bus_number = none; crowd_level = none }

-- `if (meta?.x) tripMeta.x = meta.x`
abbrev pub or_old {ℓ} : {A : Type ℓ} → Option A → Option A → Option A
or_old none old = old
or_old (some a) old = some a

abbrev pub merge_meta : BatchMeta → BatchMeta → BatchMeta
merge_meta given old = record {
  route_id = or_old (truthy_text given.route_id) old.route_id;
  bus_number = or_old (truthy_text given.bus_number) old.bus_number;
  crowd_level = or_old (truthy_number given.crowd_level) old.crowd_level;
}

module _ (p : Platform) where
  -- `currentSession = await createTrackingSession()`
  unfoldable pub create_session : ℕ → Tracker → Tracker
  create_session now t =
      let (s, d) = create_tracking_session p now t.device in allocate s (record t { device = d })

  -- The branch for a task that is registered: the session is loaded, or else created.
  unfoldable pub resume : ℕ → Tracker → Tracker
  resume now t =
      let (found, t') = ensure_session_loaded t in
      elim found [ none ↦ create_session now t' | some _ ↦ t' ]

  -- `startTracking` up to the request for the first position. The background permission is asked
  -- for, and only logged; `updates` says whether `startLocationUpdatesAsync` succeeds.
  unfoldable pub start_begin : BatchMeta → Bool → Bool → Bool → ℕ → Tracker → StartResult × Tracker
  unfolding create_session
  start_begin meta foreground background updates now t =
      if t.registered
      then (already, resume now t)
      else if foreground
      then (let t1 = create_session now t in
          let t2 : Tracker = record t1 {
            ping_buffer = [];
            total_pings_sent = 0;
            last_flush_time = now;
            is_flush_in_progress = false;
            trip_meta = merge_meta meta no_meta;
          } in
          if updates then (begun, record t2 { registered = true }) else (thrown, t2))
      else (refused, t)

-- The first position has come: it is sent with all that the buffer holds.
unfoldable pub start_position : Option String → LocationObject → Tracker → Sending × Tracker
unfolding push_ping send_begin
start_position auth loc t =
    let buffer = push_ping t.ping_buffer loc in
    send_begin auth started buffer (record t { ping_buffer = [] })

-- The answer to the first batch. On a failure the error is logged, and nothing else is done.
unfoldable pub start_answer : Sending → Bool → ℕ → Tracker → Tracker
unfolding send_end
start_answer sending ok now t =
    if succeeds sending ok
    then (let t1 = send_end sending t in
        report (record t1 { total_pings_sent = t1.total_pings_sent + 1; last_flush_time = now }))
    else t

-- What `stopTracking` has at hand when it waits for its flush: the session that it found.
pub record Stopping : Type 0 where
  pub session : Option ℕ
  pub flush : Option Sending

-- `stopTracking` up to the answer to its flush. The task is registered no more, whether it was or
-- not.
unfoldable pub stop_begin : Option String → Tracker → Stopping × Tracker
stop_begin auth t =
    let (found, t1) = ensure_session_loaded t in
    let (flush, t2) = flush_begin auth (record t1 { registered = false }) in
    (record { session = found; flush = flush }, t2)

-- The stop event, sent where a session was found.
unfoldable pub stop_send : Option String → Stopping → Tracker → Option Sending × Tracker
unfolding send_begin
stop_send auth stopping t = elim stopping.session [
  | none ↦ (none, t)
  | some _ ↦ let (sending, t') = send_begin auth stopped [] t in (some sending, t')
]

-- The answer to the stop event; a failure is logged.
abbrev pub stop_answer : Option Sending → Bool → Tracker → Tracker
stop_answer none ok t = t
stop_answer (some sending) ok t = if succeeds sending ok then send_end sending t else t

unfoldable pub stop_end : Tracker → Tracker
stop_end t = record t {
  trip_meta = no_meta;
  ping_buffer = [];
  total_pings_sent = 0;
  is_flush_in_progress = false;
  current_session = none;
  device = clear_tracking_session t.device;
}

abbrev pub flush_answer : Option Sending → Bool → ℕ → Tracker → Tracker
flush_answer none ok now t = t
flush_answer (some sending) ok now t = flush_end sending ok now t

-- `stopTracking` with nothing in between: its flush and its stop event succeed or fail.
unfoldable pub stop_rest : Option String → Bool → Bool → ℕ → Stopping × Tracker → Tracker
unfolding stop_end stop_send
stop_rest auth flushed told now (stopping, t1) =
    let (event, t2) = stop_send auth stopping (flush_answer stopping.flush flushed now t1) in
    stop_end (stop_answer event told t2)

unfoldable pub stop_tracking : Option String → Bool → Bool → ℕ → Tracker → Tracker
stop_tracking auth flushed told now t = stop_rest auth flushed told now (stop_begin auth t)

-- `recoverTracking`: a registered task goes on with the given details; else tracking is started.
unfoldable pub recover_tracking :
    Platform → BatchMeta → Bool → Bool → Bool → ℕ → Tracker → StartResult × Tracker
unfolding start_begin
recover_tracking p meta foreground background updates now t =
    if t.registered
    then (let t1 = resume p now t in
        (already, record t1 { trip_meta = merge_meta meta t1.trip_meta }))
    else start_begin p meta foreground background updates now t
