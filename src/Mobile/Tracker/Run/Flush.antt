-- ===== src/Mobile/Tracker/Run/Flush.antt =====
-- One step of a run: every entry point of the tracker is a flush of a fuller buffer.
use mansariya.Base.{ℕ, String, true, false, Option, none, some, List, [], ◌∷◌, ◌≡◌, ◌⊎◌, arith}
use mansariya.Mobile.Api.{ping}
use mansariya.Mobile.Tracker.{
  LocationObject, Tracker, Sending, locations, ensure_session_loaded, batch_body, push_pings,
  flush_begin, background_task, force_flush,
}

module _ (auth : Option String) (t : Tracker) (r : ℕ) (loaded : t.current_session ≡ some r) where
  abbrev flushed : Option Sending × Tracker
  flushed = (
    some (record {
      pings = t.ping_buffer;
      request = some (r, batch_body auth ping t.ping_buffer t r);
    }),
    record t {
      is_flush_in_progress = true;
      ping_buffer = [];
      posted = batch_body auth ping t.ping_buffer t r ∷ t.posted;
    },
  )

  -- A flush sends the whole buffer, unless it is empty or a flush is in progress.
  pub flush_begin-cases :
      ((t.ping_buffer ≡ []) × (flush_begin auth t ≡ (none, t)))
      ⊎ ((t.is_flush_in_progress ≡ true) × (flush_begin auth t ≡ (none, t)))
      ⊎ ((t.is_flush_in_progress ≡ false) × (flush_begin auth t ≡ flushed))
  unfolding flush_begin ensure_session_loaded
  flush_begin-cases = ground arith

  flush_begin_busy : t.is_flush_in_progress ≡ true → flush_begin auth t ≡ (none, t)
  unfolding flush_begin
  flush_begin_busy h = ground arith

  flush_begin_empty : t.ping_buffer ≡ [] → flush_begin auth t ≡ (none, t)
  unfolding flush_begin
  flush_begin_empty h = ground arith

  -- Forcing a flush flushes.
  pub force_flush-flush_begin : force_flush auth t ≡ flush_begin auth t
  unfolding force_flush ensure_session_loaded
  force_flush-flush_begin = ground (arith, flush_begin_empty)

module _ (auth : Option String) (t : Tracker) (r : ℕ) (loaded : t.current_session ≡ some r) where
  -- While a session is loaded, the background task flushes the buffer with the new pings added,
  -- whatever the time: since a batch of one is enough, the interval between flushes plays no part.
  pub background_task-flush_begin :
      (locs : List LocationObject) (now : ℕ)
      → background_task auth (locations locs) now t
        ≡ flush_begin auth (record t { ping_buffer = push_pings t.ping_buffer locs })
  unfolding background_task ensure_session_loaded
  background_task-flush_begin locs now =
      let t' : Tracker = record t { ping_buffer = push_pings t.ping_buffer locs } in
      ground (arith, flush_begin_empty auth t' r loaded, flush_begin_busy auth t' r loaded)
