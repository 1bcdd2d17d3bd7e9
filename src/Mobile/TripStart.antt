-- ===== src/Mobile/TripStart.antt =====
-- mobile/src/components/TripStartModal.tsx: the form that a trip starts with. `trim` is a parameter.
pub mod Laws
mod Tests
use mansariya.Base.{
  ℕ, String, Bool, true, false, Option, none, some, List, [], ◌∷◌, ◌==◌, get_elem?, str_eq,
  if◌then◌else◌,
}
use Prim.Native.String.{◌++◌}
use mansariya.Mobile.RouteSearch.{Row}
use mansariya.Mobile.Stores.TrackingStore.{TripMeta}

abbrev pub crowd_levels : List ℕ
crowd_levels = 1 ∷ 2 ∷ 3 ∷ 4 ∷ []

pub record Selected : Type 0 where
  pub id : String
  pub name : String

pub record Form : Type 0 where
  pub route_search : String
  pub selected_route : Option Selected
  pub bus_number : String
  pub crowd_level : Option ℕ
  pub search_results : List Row

abbrev pub initial : Form
initial = record {
  route_search = "";
  selected_route = none;
  bus_number = "";
  crowd_level = none;
  search_results = [];
}

-- The two callbacks of the form.
pub data Call : Type 0 where
  on_start : TripMeta → Call
  on_skip : Call

-- `handleRouteSearch` up to the database, with the query that it is asked for.
abbrev pub handle_route_search : String → Form → Option String × Form
handle_route_search query s = (
  if str_eq query "" then none else some query,
  record s {
    route_search = query;
    selected_route = none;
    search_results = if str_eq query "" then [] else s.search_results;
  },
)

-- The rest of it.
abbrev pub on_results : List Row → Form → Form
on_results rows s = record s { search_results = rows }

unfoldable pub shown_as : Selected → String
shown_as r = r.id ++ (" — " ++ r.name)

abbrev pub handle_select_route : Row → Form → Form
handle_select_route row s =
    let r : Selected = record { id = row.id; name = row.name_en } in
    record s { selected_route = some r; route_search = shown_as r; search_results = [] }

-- `setCrowdLevel(crowdLevel === level.value ? null : level.value)`
abbrev pub toggled : ℕ → Option ℕ → Option ℕ
toggled level none = some level
toggled level (some now) = if now == level then none else some level

abbrev pub press_level : ℕ → Form → Form
press_level level s = record s { crowd_level = toggled level s.crowd_level }

-- What `handleStart` and `handleSkip` reset: the results stay.
abbrev pub reset : Form → Form
reset s = record s { route_search = ""; selected_route = none; bus_number = ""; crowd_level = none }

abbrev pub selected_id : Option Selected → Option String
selected_id none = none
selected_id (some r) = some r.id

module _ (trim : String → String) where
  unfoldable pub to_meta : Form → TripMeta
  to_meta s = record {
    route_id = selected_id s.selected_route;
    bus_number = if str_eq (trim s.bus_number) "" then none else some (trim s.bus_number);
    crowd_level = s.crowd_level;
  }

  abbrev pub handle_start : Form → Option Call × Form
  handle_start s = (some (on_start (to_meta s)), reset s)

abbrev pub handle_skip : Form → Option Call × Form
handle_skip s = (some on_skip, reset s)

-- Typing, an answer of the database, a press on a row, and so on. Answers come at any time.
pub data Act : Type 0 where
  typed : String → Act
  answered : List Row → Act
  chosen : ℕ → Act
  number_typed : String → Act
  level_pressed : ℕ → Act
  start_pressed skip_pressed : Act

abbrev pub choose : Option Row → Form → Form
choose none s = s
choose (some row) s = handle_select_route row s

abbrev pub press : Option ℕ → Form → Form
press none s = s
press (some level) s = press_level level s

module _ (trim : String → String) where
  unfoldable pub act : Act → Form → Option Call × Form
  act (typed query) s = (none, (handle_route_search query s).1)
  act (answered rows) s = (none, on_results rows s)
  act (chosen i) s = (none, choose (get_elem? s.search_results i) s)
  act (number_typed text) s = (none, record s { bus_number = text })
  act (level_pressed i) s = (none, press (get_elem? crowd_levels i) s)
  act start_pressed s = handle_start trim s
  act skip_pressed s = handle_skip s

  -- The form after a list of acts.
  unfoldable pub run : List Act → Form → Form
  run [] s = s
  run (a ∷ rest) s = run rest (act a s).1
