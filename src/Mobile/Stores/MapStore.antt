-- ===== src/Mobile/Stores/MapStore.antt =====
-- mobile/src/stores/useMapStore.ts: the buses on the map, by their virtual id, with the local time
-- at which each was last seen. Coordinates are fixed-point numbers.
use mansariya.Base.{ℕ, ◌+◌, String, Option, none, List, [], ◌∷◌, leb, if◌then◌else◌}
use mansariya.Base.Int.{ℤ, pos}
use mansariya.Base.Dict.{insert, delete}
use mansariya.Mobile.Api.{BusPosition}

pub record BusEntry : Type 0 where
  pub bus : BusPosition
  pub last_seen : ℕ

pub record MapState : Type 0 where
  pub center : ℤ × ℤ
  pub zoom : ℕ
  pub buses : List (String × BusEntry)
  pub selected_route_id : Option String
  pub selected_bus_id : Option String

-- In units of a ten thousandth of a degree.
abbrev pub initial : MapState
initial = record {
  center = (pos 798612, pos 69271);
  zoom = 13;
  buses = [];
  selected_route_id = none;
  selected_bus_id = none;
}

abbrev pub set_center : ℤ × ℤ → MapState → MapState
set_center center s = record s { center = center }

abbrev pub set_zoom : ℕ → MapState → MapState
set_zoom zoom s = record s { zoom = zoom }

unfoldable pub update_bus : ℕ → BusPosition → MapState → MapState
update_bus now bus s = record s {
  buses = insert bus.virtual_id (record { bus = bus; last_seen = now }) s.buses;
}

unfoldable pub remove_bus : String → MapState → MapState
remove_bus id s = record s { buses = delete id s.buses }

abbrev pub clear_buses : MapState → MapState
clear_buses s = record s { buses = [] }

-- `bus._lastSeen >= Date.now() - maxAgeMs`, without a negative number. The ids are distinct, so the
-- new object holds the kept entries in their order.
unfoldable pub fresh_buses : ℕ → ℕ → List (String × BusEntry) → List (String × BusEntry)
fresh_buses now max_age [] = []
fresh_buses now max_age ((id, entry) ∷ rest) =
    let fresh = fresh_buses now max_age rest in
    if leb now (entry.last_seen + max_age) then (id, entry) ∷ fresh else fresh

abbrev pub default_max_age : ℕ
default_max_age = 30000

unfoldable pub remove_stale_buses : ℕ → ℕ → MapState → MapState
remove_stale_buses now max_age s = record s { buses = fresh_buses now max_age s.buses }

abbrev pub select_route : Option String → MapState → MapState
select_route id s = record s { selected_route_id = id }

abbrev pub select_bus : Option String → MapState → MapState
select_bus id s = record s { selected_bus_id = id }

-- The calls that change the buses, with the time of each.
pub data Action : Type 0 where
  sees : ℕ → BusPosition → Action
  leaves : String → Action
  clears : Action
  expires : ℕ → ℕ → Action

unfoldable pub act : MapState → Action → MapState
act s (sees now bus) = update_bus now bus s
act s (leaves id) = remove_bus id s
act s clears = clear_buses s
act s (expires now max_age) = remove_stale_buses now max_age s
