-- ===== src/Mobile/Socket.antt =====
-- mobile/src/services/websocket.ts: the connection manager, with the sockets and the timers that it
-- has made. What the network, the clock and the screens do is a list of events.
pub mod Backoff
mod Tied
pub mod Tether
pub mod Attempts
mod Tests
use mansariya.Base.{
  ℕ, ◌+◌, ◌*◌, ◌^◌, min, String, Bool, true, false, ◌&&◌, Option, none, some, List, [], ◌∷◌, map,
  leb, ◌==◌, not, any, select, if◌then◌else◌,
}

pub data ReadyState : Type 0 where
  connecting opened closed : ReadyState

-- `armed`: the handler `onclose` is set.
pub record Socket : Type 0 where
  pub id : ℕ
  pub route : String
  pub ready : ReadyState
  pub armed : Bool

-- The manager's fields; then all sockets that it made, newest first, the timers that have not fired,
-- the delays that were asked for, newest first, and what the message handlers were given. Handlers,
-- sockets and timers go by numbers.
pub record Manager : Type 0 where
  pub ws : Option ℕ
  pub route_id : Option String
  pub on_message : Option ℕ
  pub reconnect_attempts : ℕ
  pub reconnect_timer : Option ℕ
  pub sockets : List Socket
  pub timers : List ℕ
  pub delays : List ℕ
  pub received : List (ℕ × String)
  pub next_socket : ℕ
  pub next_timer : ℕ

abbrev pub max_reconnect_attempts : ℕ
max_reconnect_attempts = 10

abbrev pub initial : Manager
initial = record {
  ws = none;
  route_id = none;
  on_message = none;
  reconnect_attempts = 0;
  reconnect_timer = none;
  sockets = [];
  timers = [];
  delays = [];
  received = [];
  next_socket = 0;
  next_timer = 0;
}

unfoldable pub do_connect : Manager → Manager
do_connect m = elim m.route_id [
  | none ↦ m
  | some r ↦ record m {
    ws = some m.next_socket;
    sockets =
        record { id = m.next_socket; route = r; ready = connecting; armed = true } ∷ m.sockets;
    next_socket = m.next_socket + 1;
  }
]

abbrev pub reconnect_delay : ℕ → ℕ
reconnect_delay attempts = min (1000 * 2 ^ attempts) 30000

unfoldable pub schedule_reconnect : Manager → Manager
schedule_reconnect m = if leb max_reconnect_attempts m.reconnect_attempts then m else record m {
  reconnect_attempts = m.reconnect_attempts + 1;
  reconnect_timer = some m.next_timer;
  timers = m.next_timer ∷ m.timers;
  delays = reconnect_delay m.reconnect_attempts ∷ m.delays;
  next_timer = m.next_timer + 1;
}

-- `ws.onclose = null; ws.close()`: nothing more is heard of the socket.
abbrev pub silence : ℕ → Socket → Socket
silence i s = if s.id == i then record s { ready = closed; armed = false } else s

abbrev pub stop_timer : Option ℕ → List ℕ → List ℕ
stop_timer none ks = ks
stop_timer (some k) ks = select (λ j. not (j == k)) ks

abbrev pub silence_current : Option ℕ → List Socket → List Socket
silence_current none ss = ss
silence_current (some i) ss = map (silence i) ss

unfoldable pub disconnect : Manager → Manager
disconnect m = record m {
  timers = stop_timer m.reconnect_timer m.timers;
  reconnect_timer = none;
  sockets = silence_current m.ws m.sockets;
  ws = none;
  route_id = none;
  on_message = none;
}

unfoldable pub connect : String → ℕ → Manager → Manager
unfolding disconnect do_connect
connect route handler m = do_connect (record (disconnect m) {
  route_id = some route;
  on_message = some handler;
  reconnect_attempts = 0;
})

-- `isConnected`
abbrev pub is_open : ReadyState → Bool
is_open opened = true
is_open _ = false

abbrev pub is_closed : ReadyState → Bool
is_closed closed = true
is_closed _ = false

abbrev pub is_connecting : ReadyState → Bool
is_connecting connecting = true
is_connecting _ = false

unfoldable pub is_connected : Manager → Bool
is_connected m = elim m.ws [
  | none ↦ false
  | some i ↦ any (λ s. if s.id == i then is_open s.ready else false) m.sockets
]

-- What happens: the screens call `connect` and `disconnect`, a socket opens, is given a message (a
-- text, or one that does not parse) or closes, and a timer fires.
pub data Event : Type 0 where
  connects : String → ℕ → Event
  disconnects : Event
  opens : ℕ → Event
  message : ℕ → Option String → Event
  closes : ℕ → Event
  fires : ℕ → Event

abbrev pub mark_closed : ℕ → Socket → Socket
mark_closed i s = if s.id == i then record s { ready = closed } else s

abbrev pub mark_opened : ℕ → Socket → Socket
mark_opened i s = if s.id == i && is_connecting s.ready then record s { ready = opened } else s

-- The first socket with the number.
abbrev pub find_socket : ℕ → List Socket → Option Socket
find_socket i [] = none
find_socket i (s ∷ ss) = if s.id == i then some s else find_socket i ss

-- `this.onMessage?.(data)`; a text that does not parse is logged.
abbrev pub hand_over : Option ℕ → Option String → List (ℕ × String) → List (ℕ × String)
hand_over none text log = log
hand_over (some h) none log = log
hand_over (some h) (some text) log = (h, text) ∷ log

-- `onopen`, for a socket that is connecting.
unfoldable pub on_open : ℕ → Manager → Manager
on_open i m = elim (find_socket i m.sockets) [
  | none ↦ m
  | some s ↦
      if is_connecting s.ready
      then record m { sockets = map (mark_opened i) m.sockets; reconnect_attempts = 0 }
      else m
]

-- `onmessage`, for a socket that is open.
unfoldable pub on_text : ℕ → Option String → Manager → Manager
on_text i text m = elim (find_socket i m.sockets) [
  | none ↦ m
  | some s ↦
      if is_open s.ready then record m { received = hand_over m.on_message text m.received } else m
]

-- `onclose`, for a socket that is not closed, where the handler is set.
unfoldable pub on_close : ℕ → Manager → Manager
on_close i m = elim (find_socket i m.sockets) [
  | none ↦ m
  | some s ↦
      if is_closed s.ready
      then m
      else (let m' : Manager = record m { sockets = map (mark_closed i) m.sockets } in
          if s.armed then schedule_reconnect m' else m')
]

-- A timer that was not stopped fires once.
unfoldable pub on_timer : ℕ → Manager → Manager
on_timer k m =
    if any (λ j. j == k) m.timers
    then do_connect (record m { timers = select (λ j. not (j == k)) m.timers })
    else m

pub step : Manager → Event → Manager
step m (connects route handler) = connect route handler m
step m disconnects = disconnect m
step m (opens i) = on_open i m
step m (message i text) = on_text i text m
step m (closes i) = on_close i m
step m (fires k) = on_timer k m

abbrev pub run : Manager → List Event → Manager
run m [] = m
run m (e ∷ es) = run (step m e) es
