-- ===== src/Admin/Api/Types.antt =====
-- admin/src/lib/api.ts: the data that the console exchanges with the backend. Decimal values are
-- integers of a fixed unit; a service's status is any text; the members of unknown type are left out.
use mansariya.Base.{ℕ, String, Bool, Option, List}
use mansariya.Base.Int.{ℤ}
use mansariya.Mobile.Api.{Confidence}

pub record DashboardStats : Type 0 where
  pub total_routes : ℕ
  pub total_stops : ℕ
  pub active_routes : ℕ
  pub routes_with_stops : ℕ
  pub routes_with_polyline : ℕ
  pub routes_with_timetable : ℕ

pub record ActiveBusesResponse : Type 0 where
  pub count : ℕ

pub record SimulationActiveResponse : Type 0 where
  pub running_jobs : ℕ
  pub total_buses : ℕ
  pub total_devices : ℕ

pub record ServiceHealth : Type 0 where
  pub name : String
  pub message : Option String

pub record SystemHealthResponse : Type 0 where
  pub status : String
  pub checked_at : String
  pub services : List ServiceHealth

pub record DashboardSnapshot : Type 0 where
  pub stats : DashboardStats
  pub active_buses_count : ℕ
  pub simulations : SimulationActiveResponse

pub record AdminRouteWithStats : Type 0 where
  pub id : String
  pub name_en : String
  pub name_si : String
  pub name_ta : String
  pub operator : String
  pub service_type : String
  pub fare_lkr : ℕ
  pub frequency_minutes : ℕ
  pub operating_hours : String
  pub is_active : Bool
  pub stop_count : ℕ
  pub has_polyline : Bool
  pub pattern_count : ℕ
  pub origin_stop_name : String
  pub destination_stop_name : String

pub record AdminRoutesResponse : Type 0 where
  pub routes : List AdminRouteWithStats
  pub count : ℕ

pub record Stop : Type 0 where
  pub id : String
  pub name_en : String
  pub name_si : String
  pub name_ta : String
  pub location : ℤ × ℤ
  pub source : String
  pub confidence : ℕ
  pub observation_count : ℕ
  pub created_at : String

pub record TimetableInput : Type 0 where
  pub route_id : String
  pub departure_time : String
  pub days : List String
  pub service_type : String
  pub notes : Option String

pub data SimulationStatus : Type 0 where
  draft running paused stopped : SimulationStatus

pub record SimulationJob : Type 0 where
  pub id : String
  pub route_id : String
  pub name : String
  pub status : SimulationStatus
  pub ping_interval_sec : ℕ
  pub default_speed_min_kmh : ℕ
  pub default_speed_max_kmh : ℕ
  pub default_dwell_min_sec : ℕ
  pub default_dwell_max_sec : ℕ
  pub created_at : String
  pub updated_at : String
  pub vehicle_count : Option ℕ
  pub device_count : Option ℕ
  pub route_name : Option String

pub record SimulationsResponse : Type 0 where
  pub simulations : List SimulationJob
  pub count : ℕ

pub record HealthResponse : Type 0 where
  pub status : String
  pub service : String

pub record Vehicle : Type 0 where
  pub virtual_id : String
  pub route_id : String
  pub lat : ℤ
  pub lng : ℤ
  pub speed_kmh : ℤ
  pub bearing : ℤ
  pub contributor_count : ℕ
  pub confidence : Confidence
  pub last_update : String

pub record ActiveBusesDetailResponse : Type 0 where
  pub buses : List Vehicle
  pub count : ℕ

pub record AdminEnrichedStop : Type 0 where
  pub stop_id : String
  pub stop_order : ℕ
  pub name_en : String
  pub name_si : String
  pub name_ta : String
  pub lat : ℤ
  pub lng : ℤ
  pub distance_from_start_km : ℕ
  pub typical_duration_min : ℕ
  pub fare_from_start_lkr : ℕ
  pub is_terminal : Bool

pub record AdminRouteDetail : Type 0 where
  pub route : AdminRouteWithStats
  pub stops : List AdminEnrichedStop
  pub polyline : List (ℤ × ℤ)
