-- ===== src/Mobile/Socket/Attempts.antt =====
-- How many sockets are made.
use mansariya.Base.{
  ℕ, ◌+◌, ◌-◌, ◌≤◌, ◌<◌, ◌≡◌, refl, ap, ◌∙◌, String, Bool, true, Option, none, some, List, [], ◌∷◌,
  map, All, any, select, not, arith, ◌==◌, length, Bool-cases, inl, inr,
}
use mansariya.Mobile.Socket.{
  Socket, Manager, Event, connects, disconnects, opens, message, closes, fires, do_connect, connect,
  disconnect, on_open, on_text, on_close, on_timer, schedule_reconnect, silence, silence_current,
  stop_timer, mark_opened, mark_closed, step, run, max_reconnect_attempts,
}
use mansariya.Mobile.Socket.Tether.{
  IsTethered, disconnect-IsQuiet, run-IsTethered, disconnect-IsTethered,
}

length-map : (f : Socket → Socket) (ss : List Socket) → length (map f ss) ≡ length ss
length-map f [] = refl
length-map f (s ∷ ss) = omega (arith, length-map f ss)

length-silence : (ws : Option ℕ) (ss : List Socket) → length (silence_current ws ss) ≡ length ss
length-silence none ss = refl
length-silence (some i) ss = length-map (silence i) ss

length-select : (p : ℕ → Bool) (ks : List ℕ) → length (select p ks) ≤ length ks
length-select p [] = omega arith
length-select p (k ∷ ks) = ground (arith, length-select p ks)

length-stop_timer : (t : Option ℕ) (ks : List ℕ) → length (stop_timer t ks) ≤ length ks
length-stop_timer none ks = omega arith
length-stop_timer (some k) ks = length-select (λ j. not (j == k)) ks

-- A timer that fires is taken out.
length-fired :
    (k : ℕ) (ks : List ℕ)
    → any (λ j. j == k) ks ≡ true
    → length (select (λ j. not (j == k)) ks) < length ks
length-fired k [] h = cc
length-fired k (j ∷ ks) h = ground (arith, length-fired k ks, length-select (λ i. not (i == k)) ks)

-- The sockets that were made, those that a timer will make, and the attempts that are left.
abbrev pub potential : Manager → ℕ
potential m = length m.sockets + length m.timers + (max_reconnect_attempts - m.reconnect_attempts)

-- Neither a call of `connect` nor a connection that opens.
abbrev pub Unanswered : Event → Type 0
Unanswered (connects route handler) = ⊥
Unanswered (opens i) = ⊥
Unanswered _ = Unit {0}

timer-potential : (k : ℕ) (m : Manager) → potential (on_timer k m) ≤ potential m
unfolding on_timer do_connect
timer-potential k m = elim (Bool-cases (any (λ j. j == k) m.timers)) [
  | inl due ↦ rw (due, on_timer) (ground (arith, length-fired k m.timers due))
  | inr idle ↦ rw (idle, on_timer) (omega arith)
]

step-potential : (m : Manager) (e : Event) → Unanswered e → potential (step m e) ≤ potential m
unfolding step disconnect do_connect on_text on_close schedule_reconnect
step-potential m (connects route handler) h = absurd h
step-potential m disconnects h =
    omega (arith, length-silence m.ws m.sockets, length-stop_timer m.reconnect_timer m.timers)
step-potential m (opens i) h = absurd h
step-potential m (message i text) h = ground arith
step-potential m (closes i) h = ground (arith, length-map (mark_closed i) m.sockets)
step-potential m (fires k) h = timer-potential k m

run-potential :
    (es : List Event) (m : Manager) → All Unanswered es → potential (run m es) ≤ potential m
run-potential [] m _ = omega arith
run-potential (e ∷ es) m (u, h) = omega (arith, run-potential es (step m e) h, step-potential m e u)

-- After a `connect` of a tethered manager, as long as no connection opens and `connect` is not
-- called again, at most eleven sockets are made: the first one and one for each attempt to
-- reconnect.
pub run-connect-length :
    (route : String) (handler : ℕ) (m : Manager) (es : List Event)
    → IsTethered m
    → All Unanswered es
    → length (run (connect route handler m) es).sockets ≤ length m.sockets + 11
unfolding connect
run-connect-length route handler m es t h =
    let empty = (disconnect-IsQuiet m t).1 in
    omega (
      arith,
      run-potential es (connect route handler m) h,
      ap length empty,
      length-silence m.ws m.sockets,
    )

-- Not a call of `connect`.
abbrev pub NotConnects : Event → Type 0
NotConnects (connects route handler) = ⊥
NotConnects _ = Unit {0}

step_idle :
    (m : Manager) (e : Event)
    → NotConnects e
    → m.route_id ≡ none
    → ((step m e).route_id ≡ none) × (length (step m e).sockets ≡ length m.sockets)
unfolding step disconnect do_connect on_text on_open on_close on_timer schedule_reconnect
step_idle m (connects route handler) h e = absurd h
step_idle m disconnects h e = (refl, length-silence m.ws m.sockets)
step_idle m (opens i) h e = ground (arith, length-map (mark_opened i) m.sockets)
step_idle m (message i text) h e = ground arith
step_idle m (closes i) h e = ground (arith, length-map (mark_closed i) m.sockets)
step_idle m (fires k) h e = ground arith

run_idle :
    (es : List Event) (m : Manager)
    → All NotConnects es
    → m.route_id ≡ none
    → ((run m es).route_id ≡ none) × (length (run m es).sockets ≡ length m.sockets)
run_idle [] m h e = (e, refl)
run_idle (x ∷ es) m (n, h) e =
    let (off, same) = step_idle m x n e in
    let (off', same') = run_idle es (step m x) h off in (off', same' ∙ same)

-- After a `disconnect` of a tethered manager no socket is made and no timer is pending, whatever
-- happens, until `connect` is called.
pub run-disconnect_silent :
    (m : Manager) (es : List Event)
    → IsTethered m
    → All NotConnects es
    → (length (run (disconnect m) es).sockets ≡ length m.sockets)
      × ((run (disconnect m) es).timers ≡ [])
run-disconnect_silent m es t h =
    let (off, same) = run_idle es (disconnect m) h (unfold disconnect in refl) in
    let tethered = run-IsTethered es (disconnect m) (disconnect-IsTethered m t) in
    (same ∙ (unfold disconnect in length-silence m.ws m.sockets), (tethered.idle off).1)
