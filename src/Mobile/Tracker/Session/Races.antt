-- ===== src/Mobile/Tracker/Session/Races.antt =====
-- What a stop does while a flush waits for its answer.
use mansariya.Base.{
  ℕ, ◌+◌, Bool, true, false, if◌then◌else◌, String, Option, none, some, List, [], ◌≡◌, refl, sym,
  subst, ap, ◌∙◌, arith,
}
use mansariya.Mobile.Api.{BatchBody, stopped, send_gps_batch}
use mansariya.Mobile.Tracker.{
  Tracker, Sending, ensure_session_loaded, batch_body, flush_end, requeue, flush_begin, send_end,
}
use mansariya.Mobile.Tracker.Run.{IsOpen}
use mansariya.Mobile.Tracker.Run.Delivery.{request_of, waiting-request, NumberedBelow-le}
use mansariya.Mobile.Identity.{
  Device, TrackingSession, persist_tracking_session, get_persisted_tracking_session,
}
use mansariya.Mobile.Identity.Laws.{IsRestorable, get_persisted-persist}
use mansariya.Mobile.Tracker.Session.{stop_begin, stop_send, stop_answer, stop_end}

module _ (auth : Option String) (r first : ℕ) (t : Tracker) (s : Sending) (bodies : List BatchBody)
    (o : IsOpen r first (record { tracker = t; waiting = some s; confirmed = bodies })) where
  stopped_while_waiting :
      stop_begin auth t
      ≡ (record { session = some r; flush = none }, record t { registered = false })
  unfolding stop_begin ensure_session_loaded flush_begin
  stopped_while_waiting = ground (arith, o.loaded, o.waits.1)

  -- A stop while a batch of an open session waits sends its stop event with the counter of that
  -- batch: the backend gets two batches of one session with one number.
  pub stop-duplicate_seq :
      (b : BatchBody) × ((stop_send auth (stop_begin auth t).0 (stop_begin auth t).1).0
        ≡ some (request_of r b []))
      × (b.event_type ≡ some stopped)
      × (b.batch_seq ≡ o.waits.0.batch_seq)
  unfolding stop_send ensure_session_loaded
  stop-duplicate_seq =
      let numbered = NumberedBelow-le first _ bodies o.numbered in
      (
        batch_body auth stopped [] (record t { registered = false }) r,
        rw (stopped_while_waiting) (ground (arith, o.loaded)),
        unfold send_gps_batch in refl,
        unfold send_gps_batch in ground (arith, o.positive, o.waits.4),
      )

  -- The stop is completed, with a stop event that succeeds or fails.
  abbrev pub after_stop : Bool → Tracker
  after_stop told =
      let (stopping, t1) = stop_begin auth t in
      let (event, t2) = stop_send auth stopping t1 in stop_end (stop_answer event told t2)

  -- The session object after as many good answers.
  abbrev pub advanced : ℕ → TrackingSession
  advanced n =
      let session = t.sessions r in record session { next_batch_seq = session.next_batch_seq + n }

  stop_told : (told : Bool) → (after_stop told).sessions r ≡ advanced (if told then 1 else 0)
  unfolding stop_send ensure_session_loaded stop_end send_end
  stop_told true = rw stopped_while_waiting (ground (arith, o.loaded))
  stop_told false = rw stopped_while_waiting (ground (arith, o.loaded))

  abbrev plus_one : TrackingSession → TrackingSession
  plus_one session = record session { next_batch_seq = session.next_batch_seq + 1 }

  abbrev raised : Tracker → TrackingSession
  raised u = plus_one (u.sessions r)

  plus_one-IsRestorable :
      (n : ℕ) → IsRestorable (t.sessions r) → IsRestorable (plus_one (advanced n))
  plus_one-IsRestorable n v = record {
    device_hash = v.device_hash;
    session_id = v.session_id;
    session_started_at = v.session_started_at;
    identity_version = v.identity_version;
    next_batch_seq = omega arith;
  }

  persisted_late :
      IsRestorable (t.sessions r)
      → (told : Bool) (d : Device)
      → get_persisted_tracking_session (persist_tracking_session (raised (after_stop told)) d)
        ≡ some (advanced (if told then 2 else 1))
  persisted_late v true d =
      ap (λ x. get_persisted_tracking_session (persist_tracking_session (plus_one x) d))
        (stop_told true)
      ∙ (get_persisted-persist (plus_one (advanced 1)) d (plus_one-IsRestorable 1 v)
          ∙ ap (λ m. some (record (t.sessions r) { next_batch_seq = m })) (omega arith))
  persisted_late v false d =
      ap (λ x. get_persisted_tracking_session (persist_tracking_session (plus_one x) d))
        (stop_told false)
      ∙ (get_persisted-persist (plus_one (advanced 0)) d (plus_one-IsRestorable 0 v)
          ∙ ap (λ m. some (record (t.sessions r) { next_batch_seq = m })) (omega arith))

  -- When a stop is completed while a batch of an open session still waits, whether or not its stop
  -- event succeeds, no session is left, in memory or in the storage, and no ping. A good answer to the
  -- batch then brings the session back, in memory and, where it can be restored at all, in the storage,
  -- with its counter raised once for the batch and once for a stop event that succeeded; and a bad
  -- answer brings the pings of the batch back.
  pub late_answer :
      IsRestorable (t.sessions r)
      → (told : Bool) (now : ℕ)
      → let u = after_stop told in
        let good = flush_end s true now u in
        (u.current_session ≡ none)
        × (get_persisted_tracking_session u.device ≡ none)
        × (u.ping_buffer ≡ [])
        × (good.current_session ≡ some r)
        × (get_persisted_tracking_session good.device ≡ some (advanced (if told then 2 else 1)))
        × ((flush_end s false now u).ping_buffer ≡ requeue s.pings [])
  unfolding flush_end stop_end get_persisted_tracking_session
  late_answer v told now =
      let u = after_stop told in
      subst
        (λ s'.
          (u.current_session ≡ none)
          × (get_persisted_tracking_session u.device ≡ none)
          × (u.ping_buffer ≡ [])
          × ((flush_end s' true now u).current_session ≡ some r)
          × (get_persisted_tracking_session (flush_end s' true now u).device
              ≡ some (advanced (if told then 2 else 1)))
          × ((flush_end s' false now u).ping_buffer ≡ requeue s'.pings []))
        (sym (waiting-request r first t s o.waits))
        (refl, refl, refl, refl, persisted_late v told u.device, refl)
