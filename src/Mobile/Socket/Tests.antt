-- ===== src/Mobile/Socket/Tests.antt =====
-- Tests and examples of mobile/src/services/websocket.ts: a route whose backend is down.
use mansariya.Base.{◌≤◌, ◌+◌, ◌≡◌, refl, List, [], ◌∷◌, length}
use mansariya.Mobile.Socket.{
  Manager, Event, connects, closes, fires, initial, connect, disconnect, run, step, on_close,
  on_timer, schedule_reconnect,
}
use mansariya.Mobile.Socket.Tether.{IsTethered, initial-IsTethered, step-IsTethered, run-IsTethered}
use mansariya.Mobile.Socket.Attempts.{run-connect-length, run-disconnect_silent}

abbrev tracked : Manager
tracked = connect "138" 7 initial

-- The first socket closes, the timer makes a second one, and that closes too.
abbrev failures : List Event
failures = closes 0 ∷ fires 0 ∷ closes 1 ∷ []

failures_delays : (run tracked failures).delays ≡ 2000 ∷ 1000 ∷ []
unfolding connect step on_close on_timer schedule_reconnect
failures_delays = refl

run-IsTethered_example : IsTethered (run initial failures)
run-IsTethered_example = run-IsTethered failures initial initial-IsTethered

run-connect-length_example : length (run (connect "138" 7 initial) failures).sockets ≤ 0 + 11
run-connect-length_example =
    run-connect-length "138" 7 initial failures initial-IsTethered (tt, (tt, (tt, tt)))

tracked-IsTethered : IsTethered tracked
unfolding step
tracked-IsTethered = step-IsTethered initial (connects "138" 7) initial-IsTethered

run-disconnect_silent_example :
    (length (run (disconnect tracked) failures).sockets ≡ length tracked.sockets)
    × ((run (disconnect tracked) failures).timers ≡ [])
run-disconnect_silent_example =
    run-disconnect_silent tracked failures tracked-IsTethered (tt, (tt, (tt, tt)))
