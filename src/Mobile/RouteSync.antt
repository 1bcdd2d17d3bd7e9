-- ===== src/Mobile/RouteSync.antt =====
-- mobile/src/services/routeSync.ts: the copy of the routes in the local database, and when it is
-- fetched again. The function is cut at its request to the backend.
pub mod Laws
mod Tests
use mansariya.Base.{
  ℕ, ◌+◌, String, Bool, true, false, ◌||◌, Option, none, some, List, [], ◌∷◌, length, ltb, ◌==◌,
  if◌then◌else◌,
}
use mansariya.Base.Dict.{insert}

pub record SyncRoute : Type 0 where
  pub id : String
  pub name_en : String
  pub name_si : String
  pub name_ta : String
  pub operator : String
  pub service_type : String
  pub fare_lkr : ℕ
  pub frequency_minutes : ℕ
  pub operating_hours : String
  pub is_active : Bool

-- A row of the table `routes`, whose key is the id.
pub record Row : Type 0 where
  pub name_en : String
  pub name_si : String
  pub name_ta : String
  pub operator : String
  pub service_type : String
  pub fare_lkr : ℕ
  pub frequency_minutes : ℕ
  pub operating_hours : String
  pub is_active : ℕ

-- The table `routes`, and the value of the last synchronisation in `app_meta`.
pub record Db : Type 0 where
  pub routes : List (String × Row)
  pub last_route_sync : Option ℕ

pub record Syncing : Type 0 where
  pub db : Db
  pub sync_in_flight : Bool

abbrev pub sync_interval_ms : ℕ
sync_interval_ms = 604800000

-- The answer of the backend: an error of the network or of the parser, a bad status, or the routes.
pub data Answer : Type 0 where
  failed : Answer
  bad_status : Answer
  payload : Option (List SyncRoute) → Answer

-- The time of the last synchronisation, 0 if there was none.
abbrev pub last_sync : Db → ℕ
last_sync db = elim db.last_route_sync [ none ↦ 0 | some t ↦ t ]

abbrev pub is_due : Bool → ℕ → Db → Bool
is_due force now db = force || length db.routes == 0 || ltb (last_sync db + sync_interval_ms) now

-- `syncRoutesIfNeeded` up to the request. The flag of the result says whether one is made.
unfoldable pub sync_routes_if_needed : Bool → ℕ → Syncing → Bool × Syncing
sync_routes_if_needed force now s =
    if s.sync_in_flight
    then (false, s)
    else if is_due force now s.db
    then (true, record s { sync_in_flight = true })
    else (false, s)

abbrev pub to_row : SyncRoute → Row
to_row r = record {
  name_en = r.name_en;
  name_si = r.name_si;
  name_ta = r.name_ta;
  operator = r.operator;
  service_type = r.service_type;
  fare_lkr = r.fare_lkr;
  frequency_minutes = r.frequency_minutes;
  operating_hours = r.operating_hours;
  is_active = if r.is_active then 1 else 0;
}

-- The statements of the transaction after `BEGIN`, from the i-th on: one for each route, that for
-- `app_meta`, and `COMMIT`. `throws` says which of them throw; `none` is a transaction that threw.
unfoldable pub transaction : (ℕ → Bool) → ℕ → ℕ → List SyncRoute → Db → Option Db
transaction throws i now [] db =
    if throws i || throws (i + 1) then none else some (record db { last_route_sync = some now })
transaction throws i now (r ∷ rs) db =
    let rest =
      transaction throws (i + 1) now rs (record db { routes = insert r.id (to_row r) db.routes }) in
    if throws i then none else rest

-- A transaction that throws is rolled back.
unfoldable pub store_routes : (ℕ → Bool) → ℕ → List SyncRoute → Db → Db
store_routes throws now [] db = db
store_routes throws now (r ∷ rs) db = elim (transaction throws 0 now (r ∷ rs) db) [
  | none ↦ db
  | some db' ↦ db'
]

-- `syncRoutes` from the answer on, and the end of `syncRoutesIfNeeded`.
unfoldable pub sync_answered : Answer → (ℕ → Bool) → ℕ → Syncing → Syncing
sync_answered failed throws now s = record s { sync_in_flight = false }
sync_answered bad_status throws now s = record s { sync_in_flight = false }
sync_answered (payload none) throws now s = record s { sync_in_flight = false }
sync_answered (payload (some rs)) throws now s = record s {
  sync_in_flight = false;
  db = store_routes throws now rs s.db;
}
