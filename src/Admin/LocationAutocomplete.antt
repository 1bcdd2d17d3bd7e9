-- ===== src/Admin/LocationAutocomplete.antt =====
-- admin/src/components/shared/location-autocomplete.tsx, with `geocodeSearch` of
-- admin/src/lib/geo.ts: a field that suggests places. `name_of`, the text of a place up to its first
-- comma, is a parameter, and so are the answers of the geocoder.
pub mod Laws
mod Tests
use mansariya.Base.{
  ℕ, zero, suc, String, Bool, true, false, Option, none, some, List, [], ◌∷◌, ◌++◌, get_elem?, ltb,
  if◌then◌else◌,
}
use mansariya.Base.Texts.{text_length}
use mansariya.Admin.RouteBuilder.{NominatimResult}

-- `timer` is the text that the debounce waits with, and `searches` are those that have no answer
-- yet, the oldest first.
pub record Field : Type 0 where
  pub query : String
  pub results : List NominatimResult
  pub is_open : Bool
  pub is_loading : Bool
  pub timer : Option String
  pub searches : List String

abbrev pub opened : Field
opened = record {
  query = "";
  results = [];
  is_open = false;
  is_loading = false;
  timer = none;
  searches = [];
}

-- `handleChange`
unfoldable pub handle_change : String → Field → Field
unfolding text_length
handle_change text s =
    if ltb (text_length text) 2
    then record s { query = text; timer = none; results = []; is_open = false }
    else record s { query = text; timer = some text; is_loading = true }

-- The timer fires.
unfoldable pub on_timer : Field → Field
on_timer s = elim s.timer [
  | none ↦ s
  | some text ↦ record s { timer = none; searches = s.searches ++ text ∷ [] }
]

abbrev pub has_some : List NominatimResult → Bool
has_some [] = false
has_some (r ∷ rest) = true

-- What `geocodeSearch` makes of an answer: nothing of one that is not good.
abbrev pub geocode_answer : Bool → List NominatimResult → List NominatimResult
geocode_answer true rows = rows
geocode_answer false rows = []

abbrev pub without_at : ℕ → List String → List String
without_at i [] = []
without_at zero (x ∷ xs) = xs
without_at (suc i) (x ∷ xs) = x ∷ without_at i xs

abbrev pub store : List NominatimResult → Field → Field
store rows s = record s { results = rows; is_open = has_some rows; is_loading = false }

-- The answer to a search, or its failure, which nothing catches.
unfoldable pub on_answer : ℕ → Option (List NominatimResult) → Field → Field
on_answer i answer s = elim (get_elem? s.searches i) [
  | none ↦ s
  | some text ↦
      let s' : Field = record s { searches = without_at i s.searches } in
      elim answer [ none ↦ s' | some rows ↦ store rows s' ]
]

module _ (name_of : NominatimResult → String) where
  -- `handleSelect`, and the effect of the value that the parent then gives back.
  abbrev pub handle_select : NominatimResult → Field → Field
  handle_select r s = record s { query = name_of r; is_open = false }

  abbrev pub select_at : Option NominatimResult → Field → Field
  select_at none s = s
  select_at (some r) s = handle_select r s

-- `onFocus`, and a press outside of the field and its list.
abbrev pub on_focus : Field → Field
on_focus s = if has_some s.results then record s { is_open = true } else s

abbrev pub handle_click_outside : Field → Field
handle_click_outside s = record s { is_open = false }

pub data Act : Type 0 where
  typed : String → Act
  timer_fired focused clicked_outside : Act
  answered : ℕ → Bool → List NominatimResult → Act
  threw : ℕ → Act
  selected : ℕ → Act

module _ (name_of : NominatimResult → String) where
  unfoldable pub act : Act → Field → Field
  unfolding handle_change on_timer on_answer
  act (typed text) s = handle_change text s
  act timer_fired s = on_timer s
  act focused s = on_focus s
  act clicked_outside s = handle_click_outside s
  act (answered i is_ok rows) s = on_answer i (some (geocode_answer is_ok rows)) s
  act (threw i) s = on_answer i none s
  act (selected i) s = if s.is_open then select_at name_of (get_elem? s.results i) s else s

  unfoldable pub run : List Act → Field → Field
  unfolding act
  run [] s = s
  run (a ∷ rest) s = run rest (act a s)
