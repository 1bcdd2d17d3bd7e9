-- ===== src/Admin/DevicesSocket.antt =====
-- admin/src/hooks/use-admin-devices-ws.ts: the socket that the live map takes its devices from.
-- The hook is enabled, and mounted and unmounted by the screens; the network and the clock are events.
pub mod Laws
mod Tests
use mansariya.Base.{
  ℕ, ◌+◌, ◌*◌, min, String, Bool, true, false, ◌&&◌, not, Option, none, some, List, [], ◌∷◌, any,
  select, ltb, ◌==◌, if◌then◌else◌,
}
use mansariya.Base.Int.{ℤ}

pub data DeviceClassification : Type 0 where
  noise potential cluster confirmed : DeviceClassification

pub data DeviceQualityStatus : Type 0 where
  ok low_accuracy out_of_service_region : DeviceQualityStatus

pub data DeviceFreshnessStatus : Type 0 where
  active suspect disconnected : DeviceFreshnessStatus

pub record DeviceInfo : Type 0 where
  pub contributor_id : String
  pub classification : DeviceClassification
  pub classification_reason : String
  pub quality_status : DeviceQualityStatus
  pub freshness_status : DeviceFreshnessStatus
  pub lat : ℤ
  pub lng : ℤ
  pub speed_kmh : ℤ
  pub bearing : ℤ
  pub accuracy : ℤ
  pub route_id : String
  pub bus_number : String
  pub crowd_level : ℕ
  pub has_metadata : Bool
  pub last_seen : String

pub record DeviceCounts : Type 0 where
  pub total : ℕ
  pub noise : ℕ
  pub potential : ℕ
  pub cluster : ℕ
  pub confirmed : ℕ
  pub active : ℕ
  pub suspect : ℕ
  pub disconnected : ℕ

-- A message that parses: an update, or one of another type.
pub record DevicesUpdate : Type 0 where
  pub is_devices_update : Bool
  pub devices : List DeviceInfo
  pub counts : DeviceCounts

abbrev pub empty_counts : DeviceCounts
empty_counts = record {
  total = 0;
  noise = 0;
  potential = 0;
  cluster = 0;
  confirmed = 0;
  active = 0;
  suspect = 0;
  disconnected = 0;
}

-- The hook's state and references; then the sockets that have not closed, the timers that have not
-- fired, and the number of sockets that were made. Sockets and timers go by numbers.
pub record Hook : Type 0 where
  pub devices : List DeviceInfo
  pub counts : DeviceCounts
  pub is_connected : Bool
  pub ws : Option ℕ
  pub reconnect_timer : Option ℕ
  pub reconnect_attempts : ℕ
  pub live : List ℕ
  pub timers : List ℕ
  pub made : ℕ
  pub next_timer : ℕ

abbrev pub mounted : Hook
mounted = record {
  devices = [];
  counts = empty_counts;
  is_connected = false;
  ws = none;
  reconnect_timer = none;
  reconnect_attempts = 0;
  live = [];
  timers = [];
  made = 0;
  next_timer = 0;
}

unfoldable pub connect : Bool → Hook → Hook
connect enabled h =
    if enabled then record h { ws = some h.made; live = h.made ∷ h.live; made = h.made + 1 } else h

abbrev pub on_open : Hook → Hook
on_open h = record h { is_connected = true; reconnect_attempts = 0 }

-- `none` is a message that does not parse.
abbrev pub on_message : Option DevicesUpdate → Hook → Hook
on_message none h = h
on_message (some u) h =
    if u.is_devices_update then record h { devices = u.devices; counts = u.counts } else h

abbrev pub reconnect_delay : ℕ → ℕ
reconnect_delay attempts = 3000 * min (attempts + 1) 5

-- The socket i closes, by the network or by a call of `close`.
unfoldable pub on_close : ℕ → Hook → Hook
on_close i h =
    if any (λ j. j == i) h.live
    then (let h1 : Hook = record h {
      is_connected = false;
      ws = none;
      live = select (λ j. not (j == i)) h.live;
    } in
        if ltb h.reconnect_attempts 10
        then record h1 {
          reconnect_timer = some h.next_timer;
          timers = h.next_timer ∷ h.timers;
          next_timer = h.next_timer + 1;
          reconnect_attempts = h.reconnect_attempts + 1;
        }
        else h1)
    else h

-- A timer that was not cleared fires once, and connects.
unfoldable pub on_timer : Bool → ℕ → Hook → Hook
on_timer enabled k h =
    if any (λ j. j == k) h.timers
    then connect enabled (record h { timers = select (λ j. not (j == k)) h.timers })
    else h

-- The clean-up of the effect: the socket is asked to close, and its `onclose` is called later.
abbrev pub clear_timer : Option ℕ → List ℕ → List ℕ
clear_timer none ks = ks
clear_timer (some k) ks = select (λ j. not (j == k)) ks

unfoldable pub unmount : Hook → Hook
unmount h = record h {
  timers = clear_timer h.reconnect_timer h.timers;
  ws = none;
  devices = [];
  counts = empty_counts;
  is_connected = false;
  reconnect_attempts = 0;
}
