-- ===== src/Mobile/Tracker/Session/Laws.antt =====
-- A start opens a run with a fresh session; a stop ends the registration of the task, and sends what
-- is left.
use mansariya.Base.{
  ℕ, ◌+◌, ◌<◌, Bool, true, false, String, Option, none, some, List, [], ◌∷◌, ◌≡◌, ◌≢◌, refl, ap,
  ◌∙◌, inl, inr, arith,
}
use mansariya.Mobile.Api.{
  BatchMeta, BatchBody, GpsEventType, GpsPing, ping, stopped, send_gps_batch,
}
use mansariya.Mobile.Identity.{
  Device, Platform, create_tracking_session, get_persisted_tracking_session,
}
use mansariya.Mobile.Identity.Laws.{
  HashesSomething, create-IsRestorable, get_persisted-persist, create-persists,
}
use mansariya.Mobile.Tracker.{
  Tracker, Sending, ensure_session_loaded, batch_body, send_begin, send_end, flush_begin, flush_end,
}
use mansariya.Mobile.Tracker.Run.{IsOpen}
use mansariya.Mobile.Tracker.Run.Flush.{flush_begin-cases}
use mansariya.Mobile.Tracker.Run.Delivery.{running, request_of}
use mansariya.Mobile.Tracker.Session.{
  start_begin, Stopping, begun, flush_answer, stop_answer, stop_tracking, stop_rest, stop_begin,
  stop_send,
}

session-next_batch_seq :
    (p : Platform) (now : ℕ) (d : Device) → (create_tracking_session p now d).0.next_batch_seq ≡ 1
unfolding create_tracking_session
session-next_batch_seq p now d = refl

persisted_create :
    (p : Platform)
    → HashesSomething p
    → (now : ℕ) (d : Device) → 0 < now
    → get_persisted_tracking_session (create_tracking_session p now d).1
      ≡ some (create_tracking_session p now d).0
persisted_create p hashes now d h =
    ap get_persisted_tracking_session (create-persists p now d)
    ∙ get_persisted-persist _ (create_tracking_session p now d).1
        (create-IsRestorable p hashes now d h)

module _ (p : Platform) (meta : BatchMeta) (foreground background updates : Bool) (now : ℕ)
    (t : Tracker) where
  -- A start that begins opens a run: the session object is new, it is numbered from one, the buffer
  -- is empty, and no flush is in progress.
  pub start-IsOpen :
      (start_begin p meta foreground background updates now t).0 ≡ begun
      → IsOpen t.next_session 1
          (running (start_begin p meta foreground background updates now t).1 none [])
  unfolding start_begin
  start-IsOpen h = record {
    loaded = ground arith;
    positive = omega arith;
    numbered = ground (arith, session-next_batch_seq p now t.device);
    short = ground arith;
    waits = ground arith;
  }

  -- Where SHA-256 gives no empty text and the clock is positive, the session of a start that begins
  -- is the one that the storage gives back.
  pub start-persisted :
      HashesSomething p
      → 0 < now
      → (start_begin p meta foreground background updates now t).0 ≡ begun
      → get_persisted_tracking_session
          (start_begin p meta foreground background updates now t).1.device
        ≡ some ((start_begin p meta foreground background updates now t).1.sessions t.next_session)
  unfolding start_begin
  start-persisted hashes pos h = ground (arith, persisted_create p hashes now t.device pos)

-- Batches leave the registration of the task alone.
pub ensure-registered : (t : Tracker) → (ensure_session_loaded t).1.registered ≡ t.registered
unfolding ensure_session_loaded
ensure-registered t = ground arith

pub send_begin-registered :
    (auth : Option String) (ev : GpsEventType) (pings : List GpsPing) (t : Tracker)
    → (send_begin auth ev pings t).1.registered ≡ t.registered
unfolding send_begin
send_begin-registered auth ev pings t = ground (arith, ensure-registered t)

pub flush_begin-registered :
    (auth : Option String) (t : Tracker) → (flush_begin auth t).1.registered ≡ t.registered
unfolding flush_begin
flush_begin-registered auth t = ground (arith, ensure-registered t)

pub flush_answer-registered :
    (s : Option Sending) (ok : Bool) (now : ℕ) (t : Tracker)
    → (flush_answer s ok now t).registered ≡ t.registered
unfolding flush_end
flush_answer-registered none ok now t = refl
flush_answer-registered (some s) ok now t = ground arith

stop_send-registered :
    (auth : Option String) (st : Stopping) (t : Tracker)
    → (stop_send auth st t).1.registered ≡ t.registered
unfolding stop_send
stop_send-registered auth st t = ground (arith, send_begin-registered auth stopped [] t)

stop_answer-registered :
    (s : Option Sending) (ok : Bool) (t : Tracker) → (stop_answer s ok t).registered ≡ t.registered
unfolding send_end
stop_answer-registered none ok t = refl
stop_answer-registered (some s) ok t = ground arith

pub stop_rest-registered :
    (auth : Option String) (flushed told : Bool) (now : ℕ) (st : Stopping) (t : Tracker)
    → (stop_rest auth flushed told now (st, t)).registered ≡ t.registered
unfolding stop_rest
stop_rest-registered auth flushed told now st t =
    let u = flush_answer st.flush flushed now t in
    stop_answer-registered (stop_send auth st u).0 told (stop_send auth st u).1
    ∙ stop_send-registered auth st u
    ∙ flush_answer-registered st.flush flushed now t

pub stop_begin-registered :
    (auth : Option String) (t : Tracker) → (stop_begin auth t).1.registered ≡ false
unfolding stop_begin
stop_begin-registered auth t = flush_begin-registered auth _

module _ (auth : Option String) (r now : ℕ) (t : Tracker)
    (loaded : t.current_session ≡ some r) where
  abbrev flush_body : BatchBody
  flush_body = batch_body auth ping t.ping_buffer (record t { registered = false }) r

  stop_begin_sends :
      t.is_flush_in_progress ≡ false
      → t.ping_buffer ≢ []
      → stop_begin auth t ≡ (
        record { session = some r; flush = some (request_of r flush_body t.ping_buffer) },
        record t {
          registered = false;
          is_flush_in_progress = true;
          ping_buffer = [];
          posted = flush_body ∷ t.posted;
        },
      )
  unfolding stop_begin ensure_session_loaded
  stop_begin_sends idle full =
      elim (flush_begin-cases auth (record t { registered = false }) r loaded) [
        | inl (empty, _) ↦ absurd (full empty)
        | inr (inl (busy, _)) ↦ cc
        | inr (inr (_, e)) ↦ ground (arith, e)
      ]

  -- A stop with a session whose counter is positive, pings in the buffer and no flush in progress,
  -- whose requests succeed, sends the buffer and then the stop event, both for the same route; the
  -- stop event has the next number.
  pub stop-posted :
      t.is_flush_in_progress ≡ false
      → t.ping_buffer ≢ []
      → 0 < (t.sessions r).next_batch_seq
      → (flush event : BatchBody) × ((stop_tracking auth true true now t).posted
          ≡ event ∷ flush ∷ t.posted)
        × (flush.pings ≡ t.ping_buffer)
        × (flush.event_type ≡ some ping)
        × (flush.batch_seq ≡ some (t.sessions r).next_batch_seq)
        × (event.pings ≡ [])
        × (event.event_type ≡ some stopped)
        × (event.batch_seq ≡ some ((t.sessions r).next_batch_seq + 1))
        × (event.route_id ≡ flush.route_id)
  unfolding stop_tracking stop_rest flush_end send_gps_batch
  stop-posted idle full pos =
      let t1 : Tracker = record t {
        registered = false;
        is_flush_in_progress = true;
        ping_buffer = [];
        posted = flush_body ∷ t.posted;
      } in
      let t2 = flush_end (request_of r flush_body t.ping_buffer) true now t1 in
      (
        flush_body,
        batch_body auth stopped [] t2 r,
        ap (λ b. (stop_rest auth true true now b).posted) (stop_begin_sends idle full),
        refl,
        refl,
        ground arith,
        refl,
        refl,
        ground arith,
        refl,
      )
