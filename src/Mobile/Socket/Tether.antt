-- ===== src/Mobile/Socket/Tether.antt =====
-- At most one thread of reconnection: a socket that can still close belongs to the manager, and so
-- does every timer.
use mansariya.Base.{
  ℕ, ◌≤◌, ◌≡◌, ◌≢◌, inl, inr, refl, sym, ap, ◌∙◌, subst, String, true, Option, none, some, List, [],
  ◌∷◌, map, All, All-mono, All-map, any, select, not, arith, ◌==◌, ==_iff, leb, Bool-cases,
  Option-cases,
}
use mansariya.Mobile.Socket.{
  Socket, Manager, Event, connects, disconnects, opens, message, closes, fires, do_connect, connect,
  disconnect, on_open, on_text, on_close, on_timer, schedule_reconnect, mark_opened, mark_closed,
  find_socket, is_closed, is_connecting, step, run, initial, max_reconnect_attempts,
}
use mansariya.Mobile.Socket.Tied.{
  IsQuiet, Tied, IsTimer, stop_timer-empty, select_other-empty, any-IsTimer, silence-IsQuiet,
  IsQuiet-Tied,
}

pub record IsTethered (m : Manager) : Type 0 where
  pub tied : All (Tied m.ws m.timers) m.sockets
  pub single : All (IsTimer m.reconnect_timer) m.timers
  pub capped : m.reconnect_attempts ≤ max_reconnect_attempts
  pub idle : m.route_id ≡ none → (m.ws ≡ none) × (m.timers ≡ [])

-- A `disconnect` leaves no timer and no socket that can still close.
pub disconnect-IsQuiet :
    (m : Manager) → IsTethered m → All IsQuiet (disconnect m).sockets × ((disconnect m).timers ≡ [])
unfolding disconnect
disconnect-IsQuiet m h = (
  silence-IsQuiet m.ws m.timers m.sockets h.tied,
  stop_timer-empty m.reconnect_timer m.timers h.single,
)

pub disconnect-IsTethered : (m : Manager) → IsTethered m → IsTethered (disconnect m)
disconnect-IsTethered m h =
    let (quiet, empty) = disconnect-IsQuiet m h in
    record {
      tied = IsQuiet-Tied _ _ _ quiet;
      single = rw empty tt;
      capped = unfold disconnect in h.capped;
      idle = λ _. (unfold disconnect in refl, empty);
    }

connect-IsTethered :
    (route : String) (handler : ℕ) (m : Manager)
    → IsTethered m
    → IsTethered (connect route handler m)
unfolding connect
connect-IsTethered route handler m h =
    let (quiet, empty) = disconnect-IsQuiet m h in
    record {
      tied = (inr (refl, empty), IsQuiet-Tied _ _ _ quiet);
      single = rw empty tt;
      capped = omega arith;
      idle = λ e. cc;
    }

find_socket-All {κ} :
    (P : Socket → Type κ) (i : ℕ) (ss : List Socket) (s : Socket)
    → find_socket i ss ≡ some s
    → All P ss
    → P s × (s.id ≡ i)
find_socket-All P i [] s e h = cc
find_socket-All P i (x ∷ ss) s e (p, h) = elim (Bool-cases (x.id == i)) [
  | inl same ↦
      let eq : x ≡ s = ground arith in
      (subst P eq p, ap (λ y. y.id) (sym eq) ∙ (==_iff x.id i).0 same)
  | inr other ↦ find_socket-All P i ss s (ground arith) h
]

on_open-IsTethered : (i : ℕ) (m : Manager) → IsTethered m → IsTethered (on_open i m)
unfolding on_open
on_open-IsTethered i m h =
    let marked : All (Tied m.ws m.timers) (map (mark_opened i) m.sockets) =
      All-map (Tied m.ws m.timers) (mark_opened i) (λ s p. ground arith) m.sockets h.tied in
    elim (Option-cases (find_socket i m.sockets)) [
      | inl missing ↦ rw (missing, on_open) h
      | inr (s, found) ↦ elim (Bool-cases (is_connecting s.ready)) [
        | inl fresh ↦
            rw (found, on_open, fresh)
              (record { tied = marked; single = h.single; capped = omega arith; idle = h.idle })
        | inr old ↦ rw (found, on_open, old) h
      ]
    ]

on_text-same :
    (i : ℕ) (text : Option String) (m : Manager)
    → on_text i text m ≡ record m { received = (on_text i text m).received }
unfolding on_text
on_text-same i text m = ground arith

on_text-IsTethered :
    (i : ℕ) (text : Option String) (m : Manager) → IsTethered m → IsTethered (on_text i text m)
on_text-IsTethered i text m h =
    rw (on_text-same i text m)
      (record { tied = h.tied; single = h.single; capped = h.capped; idle = h.idle })

-- Closing the socket that can still close leaves none.
closed-IsQuiet :
    (ws : Option ℕ) (timers : List ℕ) (i : ℕ) (ss : List Socket)
    → ws ≡ some i
    → All (Tied ws timers) ss
    → All IsQuiet (map (mark_closed i) ss)
closed-IsQuiet ws timers i ss e h = All-map IsQuiet (mark_closed i) (λ s p. ground arith) ss h

no_socket : {ws : Option ℕ} {i : ℕ} → ws ≡ none → ws ≡ some i → ⊥
no_socket e d = cc

schedule-IsTethered :
    (m : Manager)
    → All IsQuiet m.sockets
    → m.timers ≡ []
    → m.reconnect_attempts ≤ max_reconnect_attempts
    → m.route_id ≢ none
    → IsTethered (schedule_reconnect m)
unfolding schedule_reconnect
schedule-IsTethered m quiet empty capped route =
    elim (Bool-cases (leb max_reconnect_attempts m.reconnect_attempts)) [
      | inl full ↦
          rw (full, schedule_reconnect)
            (record {
              tied = IsQuiet-Tied _ _ _ quiet;
              single = rw empty tt;
              capped = capped;
              idle = λ e. absurd (route e);
            })
      | inr room ↦
          rw (room, schedule_reconnect)
            (record {
              tied = IsQuiet-Tied _ _ _ quiet;
              single = rw empty (refl, tt);
              capped = ground arith;
              idle = λ e. absurd (route e);
            })
    ]

on_close-IsTethered : (i : ℕ) (m : Manager) → IsTethered m → IsTethered (on_close i m)
unfolding on_close
on_close-IsTethered i m h = elim (Option-cases (find_socket i m.sockets)) [
  | inl missing ↦ rw (missing, on_close) h
  | inr (s, found) ↦
      let (tied, same) = find_socket-All (Tied m.ws m.timers) i m.sockets s found h.tied in
      elim (Bool-cases (is_closed s.ready)) [
        | inl done ↦ rw (found, on_close, done) h
        | inr alive ↦ elim (Bool-cases s.armed) [
          | inr unarmed ↦
              rw (found, on_close, alive, unarmed)
                (record {
                  tied =
                      All-map (Tied m.ws m.timers) (mark_closed i) (λ s p. ground arith) m.sockets
                        h.tied;
                  single = h.single;
                  capped = h.capped;
                  idle = h.idle;
                })
          | inl armed ↦
              let current : (m.ws ≡ some i) × (m.timers ≡ []) = ground arith in
              rw (found, on_close, alive, armed)
                (schedule-IsTethered (record m { sockets = map (mark_closed i) m.sockets })
                  (closed-IsQuiet m.ws m.timers i m.sockets current.0 h.tied) current.1 h.capped
                  (λ e. absurd (no_socket (h.idle e).0 current.0)))
        ]
      ]
]

-- A timer fires only while every socket is quiet.
timer-IsQuiet :
    (k : ℕ) (m : Manager) → IsTethered m → any (λ j. j == k) m.timers ≡ true → All IsQuiet m.sockets
timer-IsQuiet k m h due =
    let busy : m.timers ≢ [] = λ e. cc (subst (λ ts. any (λ j. j == k) ts ≡ true) e due) in
    All-mono (λ s p. elim p [ inl q ↦ q | inr (_, e) ↦ absurd (busy e) ]) m.sockets h.tied

-- Connecting anew, where no socket and no timer is left.
connect-quiet :
    (m : Manager)
    → All IsQuiet m.sockets
    → m.timers ≡ []
    → m.reconnect_attempts ≤ max_reconnect_attempts
    → (m.route_id ≡ none → m.ws ≡ none)
    → IsTethered (do_connect m)
unfolding do_connect
connect-quiet m quiet empty capped idle = elim (Option-cases m.route_id) [
  | inl off ↦
      rw (off, do_connect)
        (record {
          tied = IsQuiet-Tied _ _ _ quiet;
          single = rw empty tt;
          capped = capped;
          idle = λ e. (idle e, empty);
        })
  | inr (r, on) ↦
      rw (on, do_connect)
        (record {
          tied = (inr (refl, empty), IsQuiet-Tied _ _ _ quiet);
          single = rw empty tt;
          capped = capped;
          idle = λ e. cc;
        })
]

on_timer-IsTethered : (k : ℕ) (m : Manager) → IsTethered m → IsTethered (on_timer k m)
unfolding on_timer
on_timer-IsTethered k m h = elim (Bool-cases (any (λ j. j == k) m.timers)) [
  | inr idle ↦ rw (idle, on_timer) h
  | inl due ↦
      let mine = any-IsTimer m.reconnect_timer k m.timers due h.single in
      rw (due, on_timer)
        (connect-quiet (record m { timers = select (λ j. not (j == k)) m.timers })
          (timer-IsQuiet k m h due) (select_other-empty m.reconnect_timer k m.timers mine h.single)
          h.capped (λ e. (h.idle e).0))
]

pub step-IsTethered : (m : Manager) (e : Event) → IsTethered m → IsTethered (step m e)
unfolding step
step-IsTethered m (connects route handler) h = connect-IsTethered route handler m h
step-IsTethered m disconnects h = disconnect-IsTethered m h
step-IsTethered m (opens i) h = on_open-IsTethered i m h
step-IsTethered m (message i text) h = on_text-IsTethered i text m h
step-IsTethered m (closes i) h = on_close-IsTethered i m h
step-IsTethered m (fires k) h = on_timer-IsTethered k m h

pub initial-IsTethered : IsTethered initial
initial-IsTethered = record {
  tied = tt;
  single = tt;
  capped = omega arith;
  idle = λ e. (refl, refl);
}

-- From a tethered manager on, whatever the screens, the network and the clock do, in any order:
-- every socket that could still close and start a reconnection is the manager's own, and then no
-- timer is pending; every pending timer is the one that the manager can stop; at most ten attempts
-- are counted; and without a route there is neither a socket nor a timer.
pub run-IsTethered : (es : List Event) (m : Manager) → IsTethered m → IsTethered (run m es)
run-IsTethered [] m h = h
run-IsTethered (e ∷ es) m h = run-IsTethered es (step m e) (step-IsTethered m e h)
