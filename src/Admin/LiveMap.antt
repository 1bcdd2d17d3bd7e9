-- ===== src/Admin/LiveMap.antt =====
-- admin/src/pages/live-map.tsx: the page's choices, and the buses by route.
pub mod Laws
pub mod Eta
mod Tests
use mansariya.Base.{
  ℕ, zero, suc, ◌%◌, String, Bool, true, false, ◌&&◌, ◌||◌, not, Option, none, some, List, [], ◌∷◌,
  ◌++◌, length, ltb, if◌then◌else◌, str_eq, select, get_elem?,
}
use mansariya.Base.Sets.{member, add, remove}
use mansariya.Base.Group.{group_by}
use mansariya.Base.Sort.{sort}
use mansariya.Admin.DevicesSocket.{
  DeviceClassification, DeviceInfo, noise, potential, cluster, confirmed,
}

pub record Vehicle : Type 0 where
  pub virtual_id : String
  pub route_id : String

pub record Page : Type 0 where
  pub selected_routes : List String
  pub hidden_buses : List String
  pub selected_bus_id : Option String
  pub route_search_open : Bool
  pub selected_device_id : Option String
  pub visible_classifications : List String

abbrev pub key : DeviceClassification → String
key noise = "noise"
key potential = "potential"
key cluster = "cluster"
key confirmed = "confirmed"

abbrev pub initial : Page
initial = record {
  selected_routes = [];
  hidden_buses = [];
  selected_bus_id = none;
  route_search_open = false;
  selected_device_id = none;
  visible_classifications = "noise" ∷ "potential" ∷ "cluster" ∷ "confirmed" ∷ [];
}

-- `busesByRoute`
abbrev pub Groups : Type 0
Groups = List (String × List Vehicle)

abbrev pub buses_by_route : List Vehicle → Groups
buses_by_route buses = group_by (λ (v : Vehicle). v.route_id) buses []

-- `b[1].length - a[1].length`
abbrev pub busier : String × List Vehicle → String × List Vehicle → Bool
busier a b = ltb (length b.1) (length a.1)

unfoldable pub sorted_routes : List Vehicle → Groups
sorted_routes buses = sort busier (buses_by_route buses)

unfoldable pub visible_devices : Page → List DeviceInfo → List DeviceInfo
visible_devices p devices =
    select (λ (d : DeviceInfo). member (key d.classification) p.visible_classifications) devices

-- `buses.find`; an empty id is no id.
unfoldable pub find_bus : String → List Vehicle → Option Vehicle
find_bus id [] = none
find_bus id (v ∷ vs) = let rest = find_bus id vs in if str_eq v.virtual_id id then some v else rest

abbrev pub selected_bus : Page → List Vehicle → Option Vehicle
selected_bus p buses = elim p.selected_bus_id [
  | none ↦ none
  | some id ↦ if str_eq id "" then none else find_bus id buses
]

unfoldable pub flip : String → List String → List String
flip x s = if member x s then remove x s else add x s

unfoldable pub toggle_bus_visibility : String → Page → Page
unfolding flip
toggle_bus_visibility id p = record p { hidden_buses = flip id p.hidden_buses }

abbrev pub click : String → Option String → Option String
click id none = some id
click id (some old) = if str_eq old id then none else some id

abbrev pub handle_bus_click : String → Page → Page
handle_bus_click id p = record p { selected_bus_id = click id p.selected_bus_id }

abbrev pub handle_device_click : String → Page → Page
handle_device_click id p = record p { selected_device_id = click id p.selected_device_id }

unfoldable pub add_route : String → Page → Page
add_route id p = record p { selected_routes = add id p.selected_routes; route_search_open = false }

unfoldable pub remove_route : String → Page → Page
remove_route id p = record p { selected_routes = remove id p.selected_routes }

abbrev pub route_colors : List String
route_colors =
    "#1D9E75" ∷ "#378ADD" ∷ "#E24B4A" ∷ "#BA7517" ∷ "#8B5CF6" ∷ "#EC4899" ∷ "#06B6D4" ∷ "#F97316"
    ∷ []

-- `indexOf`, `none` where it is -1.
unfoldable pub index_of : String → List String → Option ℕ
index_of x [] = none
index_of x (y ∷ ys) =
    let rest = index_of x ys in
    if str_eq y x then some 0 else elim rest [ none ↦ none | some i ↦ some (suc i) ]

-- -1 % 8 is no index.
unfoldable pub get_route_color : String → Page → Option String
get_route_color id p = elim (index_of id p.selected_routes) [
  | none ↦ none
  | some i ↦ get_elem? route_colors (i % 8)
]

unfoldable pub toggle_classification : String → Page → Page
unfolding flip
toggle_classification k p = record p { visible_classifications = flip k p.visible_classifications }

abbrev pub classifications : List String
classifications = "confirmed" ∷ "cluster" ∷ "potential" ∷ "noise" ∷ []

-- The loop over the classifications. `next` is what is wanted, `shown` the set of the last render.
unfoldable pub sync : List String → List String → List String → Page → Page
sync [] next shown p = p
sync (k ∷ ks) next shown p =
    let same = sync ks next shown p in
    let flipped = sync ks next shown (toggle_classification k p) in
    if member k next
    then (if member k shown then same else flipped)
    else if member k shown
    then flipped
    else same

-- `onValueChange` of the group of classifications; an empty choice is all of them.
abbrev pub wanted : List String → List String
wanted [] = classifications
wanted (v ∷ vs) = v ∷ vs

unfoldable pub on_value_change : List String → Page → Page
unfolding sync
on_value_change values p = sync classifications (wanted values) p.visible_classifications p
