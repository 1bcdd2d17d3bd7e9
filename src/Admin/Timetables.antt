-- ===== src/Admin/Timetables.antt =====
-- admin/src/pages/timetables.tsx: the form for a route's timetable. `crypto.randomUUID` is a
-- parameter: `uuid n` is the n-th one drawn.
pub mod Laws
mod Tests
use mansariya.Base.{
  ℕ, ◌+◌, String, Bool, true, false, not, Option, none, some, List, [], ◌∷◌, ◌++◌, map, str_eq,
  if◌then◌else◌,
}
use mansariya.Base.Sets.{member, add, remove}

pub record Input : Type 0 where
  pub route_id : String
  pub departure_time : String
  pub days : List String
  pub service_type : String
  pub notes : String

pub record Entry : Type 0 where
  pub key : String
  pub input : Input

pub record Form : Type 0 where
  pub selected_route : String
  pub entries : List Entry
  pub drawn : ℕ

abbrev pub empty_input : String → Input
empty_input route_id = record {
  route_id = route_id;
  departure_time = "06:00";
  days = "MON" ∷ "TUE" ∷ "WED" ∷ "THU" ∷ "FRI" ∷ [];
  service_type = "Normal";
  notes = "";
}

-- `prev.includes(day) ? prev.filter(…) : […prev, day]`
unfoldable pub flip_day : String → List String → List String
flip_day day days = if member day days then remove day days else days ++ day ∷ []

-- A change to the entries with a key.
unfoldable pub at_key : (Input → Input) → String → List Entry → List Entry
at_key f key [] = []
at_key f key (e ∷ rest) =
    let changed = at_key f key rest in
    (if str_eq e.key key then record e { input = f e.input } else e) ∷ changed

-- `prev.filter((e) => e._key !== key)`
unfoldable pub without_key : String → List Entry → List Entry
without_key key [] = []
without_key key (e ∷ rest) =
    let kept = without_key key rest in if str_eq e.key key then kept else e ∷ kept

module _ (uuid : ℕ → String) where
  abbrev pub create_empty_entry : String → ℕ → Entry
  create_empty_entry route_id n = record { key = uuid n; input = empty_input route_id }

  unfoldable pub handle_route_change : String → Form → Form
  handle_route_change route_id f = record f {
    selected_route = route_id;
    entries = create_empty_entry route_id f.drawn ∷ [];
    drawn = f.drawn + 1;
  }

  unfoldable pub add_entry : Form → Form
  add_entry f = if str_eq f.selected_route "" then f else record f {
    entries = f.entries ++ create_empty_entry f.selected_route f.drawn ∷ [];
    drawn = f.drawn + 1;
  }

unfoldable pub remove_entry : String → Form → Form
remove_entry key f = record f { entries = without_key key f.entries }

-- `updateEntry`; the patches of the page leave the key alone.
unfoldable pub update_entry : String → (Input → Input) → Form → Form
update_entry key patch f = record f { entries = at_key patch key f.entries }

abbrev pub toggle_days : String → Input → Input
toggle_days day i = record i { days = flip_day day i.days }

unfoldable pub toggle_day : String → String → Form → Form
unfolding flip_day
toggle_day key day f = record f { entries = at_key (toggle_days day) key f.entries }

-- What is saved; `none` is the exception for a form without a route.
unfoldable pub payload : Form → Option (String × List Input)
payload f =
    if str_eq f.selected_route ""
    then none
    else some (f.selected_route, map (λ (e : Entry). e.input) f.entries)

pub data Act : Type 0 where
  chosen : String → Act
  added : Act
  removed : String → Act
  updated : String → (Input → Input) → Act
  toggled : String → String → Act

module _ (uuid : ℕ → String) where
  unfoldable pub act : Act → Form → Form
  act (chosen r) f = handle_route_change uuid r f
  act added f = add_entry uuid f
  act (removed key) f = remove_entry key f
  act (updated key patch) f = update_entry key patch f
  act (toggled key day) f = toggle_day key day f

  unfoldable pub run : List Act → Form → Form
  run [] f = f
  run (a ∷ rest) f = run rest (act a f)
