-- ===== src/Mobile/Api.antt =====
-- mobile/src/services/api.ts: the data that the application exchanges with the backend, and the
-- body of a GPS batch. Decimal values are integers of a fixed unit.
use mansariya.Base.{ℕ, String, Bool, Option, none, some, List, ◌==◌, str_eq, if◌then◌else◌}
use mansariya.Base.Int.{ℤ}

pub record Route : Type 0 where
  pub id : String
  pub name_en : String
  pub name_si : String
  pub name_ta : String
  pub operator : Option String
  pub service_type : Option String
  pub fare_lkr : Option ℕ
  pub frequency_minutes : Option ℕ
  pub is_active : Bool

pub record EnrichedRouteStop : Type 0 where
  pub route_id : String
  pub stop_id : String
  pub stop_order : ℕ
  pub distance_from_start_km : ℕ
  pub typical_duration_min : ℕ
  pub fare_from_start_lkr : ℕ
  pub stop_name_en : String
  pub stop_name_si : String
  pub stop_name_ta : String
  pub stop_lat : ℤ
  pub stop_lng : ℤ
  pub is_terminal : Bool

pub record GpsPing : Type 0 where
  pub lat : ℤ
  pub lng : ℤ
  pub ts : ℕ
  pub acc : ℤ
  pub spd : ℤ
  pub brg : ℤ

pub data GpsEventType : Type 0 where
  started ping stopped : GpsEventType

pub data Confidence : Type 0 where
  low good verified : Confidence

pub record BusPosition : Type 0 where
  pub virtual_id : String
  pub route_id : String
  pub lat : ℤ
  pub lng : ℤ
  pub speed_kmh : ℤ
  pub bearing : ℤ
  pub contributor_count : ℕ
  pub confidence : Confidence
  pub last_update : String
  pub crowd_level : Option ℕ
  pub bus_number : Option String

-- The parameter `meta` of `sendGPSBatch`; an absent field is `none`.
pub record BatchMeta : Type 0 where
  pub route_id : Option String
  pub bus_number : Option String
  pub crowd_level : Option ℕ

-- The parameter `lifecycle` of `sendGPSBatch`.
pub record Lifecycle : Type 0 where
  pub event_type : Option GpsEventType
  pub identity_version : Option ℕ
  pub session_started_at : Option ℕ
  pub batch_seq : Option ℕ

-- The body of the request; an absent key is `none`.
pub record BatchBody : Type 0 where
  pub device_hash : String
  pub session_id : String
  pub contributor_id : Option String
  pub pings : List GpsPing
  pub route_id : Option String
  pub bus_number : Option String
  pub crowd_level : Option ℕ
  pub event_type : Option GpsEventType
  pub identity_version : Option ℕ
  pub session_started_at : Option ℕ
  pub batch_seq : Option ℕ

-- `...(value && { key: value })`: the empty text and zero are falsy, and leave the key out.
abbrev pub truthy_text : Option String → Option String
truthy_text none = none
truthy_text (some s) = if str_eq s "" then none else some s

abbrev pub truthy_number : Option ℕ → Option ℕ
truthy_number none = none
truthy_number (some n) = if n == 0 then none else some n

unfoldable pub send_gps_batch :
    String → String → String → List GpsPing → BatchMeta → Lifecycle → BatchBody
send_gps_batch device_hash session_id contributor_id pings meta lifecycle = record {
  device_hash = device_hash;
  session_id = session_id;
  contributor_id = truthy_text (some contributor_id);
  pings = pings;
  route_id = truthy_text meta.route_id;
  bus_number = truthy_text meta.bus_number;
  crowd_level = truthy_number meta.crowd_level;
  event_type = lifecycle.event_type;
  identity_version = truthy_number lifecycle.identity_version;
  session_started_at = truthy_number lifecycle.session_started_at;
  batch_seq = truthy_number lifecycle.batch_seq;
}
