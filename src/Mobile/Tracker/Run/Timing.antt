-- ===== src/Mobile/Tracker/Run/Timing.antt =====
-- The clock of a run: it decides nothing but the time of the last flush.
use mansariya.Base.{
  ℕ, String, Bool, Option, none, some, List, [], ◌∷◌, ◌≡◌, refl, sym, ap, ◌∙◌, map, Option-cases,
  inl, inr, arith, if◌then◌else◌, ltb, length, ◌&&◌, not,
}
use mansariya.Mobile.Api.{GpsEventType, GpsPing, BatchBody}
use mansariya.Mobile.Tracker.{
  LocationObject, Tracker, Sending, TaskEvent, failure, no_data, locations, ensure_session_loaded,
  push_pings, send_begin, send_end, should_flush, flush_begin, flush_end, background_task,
  force_flush,
}
use mansariya.Mobile.Tracker.Run.{Event, task, force, answer, Running, started_sending, step, run}

abbrev pub without_time : Tracker → Tracker
without_time t = record t { last_flush_time = 0 }

-- The tracker with the result that stands beside it.
abbrev beside {ℓ} : {A : Type ℓ} → A × Tracker → A × Tracker
beside (a, t) = (a, without_time t)

ensure-without_time :
    (t : Tracker) → ensure_session_loaded (without_time t) ≡ beside (ensure_session_loaded t)
unfolding ensure_session_loaded
ensure-without_time t = ground arith

send_begin-without_time :
    (auth : Option String) (event : GpsEventType) (pings : List GpsPing) (t : Tracker)
    → send_begin auth event pings (without_time t) ≡ beside (send_begin auth event pings t)
unfolding send_begin ensure_session_loaded
send_begin-without_time auth event pings t = ground arith

send_end-without_time :
    (s : Sending) (t : Tracker) → send_end s (without_time t) ≡ without_time (send_end s t)
unfolding send_end
send_end-without_time s t = ground arith

flush_begin-without_time :
    (auth : Option String) (t : Tracker)
    → flush_begin auth (without_time t) ≡ beside (flush_begin auth t)
unfolding flush_begin send_begin ensure_session_loaded
flush_begin-without_time auth t = ground arith

flush_end-without_time :
    (s : Sending) (ok : Bool) (now : ℕ) (t : Tracker)
    → without_time (flush_end s ok 0 (without_time t)) ≡ without_time (flush_end s ok now t)
unfolding flush_end send_end
flush_end-without_time s ok now t = ground arith

-- What the two calls do once they have looked for the session.
forced : Option String → Option ℕ × Tracker → Option Sending × Tracker
forced auth (none, t) = (none, t)
forced auth (some r, t) = if ltb 0 (length t.ping_buffer) then flush_begin auth t else (none, t)

forced-beside :
    (auth : Option String) (found : Option ℕ × Tracker)
    → forced auth (beside found) ≡ beside (forced auth found)
unfolding forced
forced-beside auth (none, t) = refl
forced-beside auth (some r, t) = ground (arith, flush_begin-without_time auth t)

force_flush-forced :
    (auth : Option String) (t : Tracker)
    → force_flush auth t ≡ forced auth (ensure_session_loaded t)
unfolding force_flush forced
force_flush-forced auth t = ground arith

force_flush-without_time :
    (auth : Option String) (t : Tracker)
    → force_flush auth (without_time t) ≡ beside (force_flush auth t)
force_flush-without_time auth t =
    force_flush-forced auth (without_time t)
    ∙ ap (forced auth) (ensure-without_time t)
    ∙ forced-beside auth (ensure_session_loaded t)
    ∙ ap (λ (b : Option Sending × Tracker). beside b) (sym (force_flush-forced auth t))

given : Option String → List LocationObject → ℕ → Option ℕ × Tracker → Option Sending × Tracker
given auth locs now (none, t) = (none, t)
given auth locs now (some r, t) =
    let t' : Tracker = record t { ping_buffer = push_pings t.ping_buffer locs } in
    if should_flush now t' && not t'.is_flush_in_progress then flush_begin auth t' else (none, t')

given-beside :
    (auth : Option String) (locs : List LocationObject) (now : ℕ) (found : Option ℕ × Tracker)
    → given auth locs 0 (beside found) ≡ beside (given auth locs now found)
unfolding given
given-beside auth locs now (none, t) = refl
given-beside auth locs now (some r, t) =
    let t' : Tracker = record t { ping_buffer = push_pings t.ping_buffer locs } in
    ground (arith, flush_begin-without_time auth t')

background_task-given :
    (auth : Option String) (locs : List LocationObject) (now : ℕ) (t : Tracker)
    → background_task auth (locations locs) now t ≡ given auth locs now (ensure_session_loaded t)
unfolding background_task given
background_task-given auth locs now t = ground arith

background_task-without_time :
    (auth : Option String) (ev : TaskEvent) (now : ℕ) (t : Tracker)
    → background_task auth ev 0 (without_time t) ≡ beside (background_task auth ev now t)
unfolding background_task
background_task-without_time auth failure now t = refl
background_task-without_time auth no_data now t = refl
background_task-without_time auth (locations locs) now t =
    background_task-given auth locs 0 (without_time t)
    ∙ ap (given auth locs 0) (ensure-without_time t)
    ∙ given-beside auth locs now (ensure_session_loaded t)
    ∙ ap (λ (b : Option Sending × Tracker). beside b) (sym (background_task-given auth locs now t))

-- A run without its times.
abbrev pub forget : Running → Running
forget w = record w { tracker = without_time w.tracker }

abbrev pub untimed : Event → Event
untimed (task auth ev now) = task auth ev 0
untimed (force auth) = force auth
untimed (answer ok now) = answer ok 0

started-forget :
    (x : Option Sending) (bodies : List BatchBody) (b : Option Sending × Tracker)
    → forget (started_sending x bodies (beside b)) ≡ forget (started_sending x bodies b)
started-forget x bodies (none, t) = refl
started-forget x bodies (some s, t) = refl

step-forget : (w : Running) (e : Event) → forget (step (forget w) (untimed e)) ≡ forget (step w e)
unfolding step
step-forget w (task auth ev now) =
    ap (λ b. forget (started_sending w.waiting w.confirmed b))
      (background_task-without_time auth ev now w.tracker)
    ∙ started-forget w.waiting w.confirmed (background_task auth ev now w.tracker)
step-forget w (force auth) =
    ap (λ b. forget (started_sending w.waiting w.confirmed b))
      (force_flush-without_time auth w.tracker)
    ∙ started-forget w.waiting w.confirmed (force_flush auth w.tracker)
step-forget w (answer ok now) = elim (Option-cases w.waiting) [
  | inl e ↦ ground (arith, e)
  | inr (s, e) ↦ ground (arith, e, flush_end-without_time s ok now w.tracker)
]

-- The run of forgotten times.
timeless : Running → List Event → Running
timeless w [] = w
timeless w (e ∷ es) = timeless (forget (step w e)) es

run-timeless :
    (es : List Event) (w : Running) → forget (run w es) ≡ timeless (forget w) (map untimed es)
unfolding timeless
run-timeless [] w = refl
run-timeless (e ∷ es) w =
    run-timeless es (step w e) ∙ ap (λ v. timeless v (map untimed es)) (sym (step-forget w e))

-- Two runs with the same events at other times, from trackers that differ at most in the time of the
-- last flush, differ at most in that: the same requests are made, the same pings are kept and
-- confirmed, and the same flushes wait, whatever the clock says. The interval between flushes plays
-- no part.
pub run-untimed :
    (es later : List Event) (w v : Running)
    → map untimed es ≡ map untimed later
    → forget w ≡ forget v
    → forget (run w es) ≡ forget (run v later)
run-untimed es later w v same begun =
    run-timeless es w
    ∙ ap (timeless (forget w)) same
    ∙ ap (λ u. timeless u (map untimed later)) begun
    ∙ sym (run-timeless later v)
