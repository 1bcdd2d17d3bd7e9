-- ===== src/Mobile/Journey.antt =====
-- mobile/src/screens/JourneySearchScreen.tsx: a journey between two stops. Requests for suggestions
-- keep their order in a list; an answer may come in any order.
pub mod Laws
mod Tests
use mansariya.Base.{
  ℕ, zero, suc, String, str_eq, Bool, true, false, ◌||◌, Option, none, some, List, [], ◌∷◌, ◌++◌,
  if◌then◌else◌,
}

-- The two ends of the journey.
pub data End : Type 0 where
  from to : End

pub record Stop : Type 0 where
  pub id : String
  pub name_en : String

pub record Field : Type 0 where
  pub text : String
  pub suggestions : List Stop
  pub selected : Option Stop

pub record Screen (Result : Type 0) : Type 0 where
  pub from_field : Field
  pub to_field : Field
  pub active_field : Option End
  pub journeys : List Result
  pub loading : Bool
  pub searched : Bool
  pub requests : List End

-- The i-th request is answered; a failure gives no stops.
unfoldable pub pick : ℕ → List End → Option (End × List End)
pick i [] = none
pick zero (e ∷ rest) = some (e, rest)
pick (suc i) (e ∷ rest) = elim (pick i rest) [
  | none ↦ none
  | some (x, others) ↦ some (x, e ∷ others)
]

abbrev or_none : {Result : Type 0} → Option (List Result) → List Result
or_none none = []
or_none (some js) = js

module _ {Result : Type 0} where
  abbrev pub field : End → Screen Result → Field
  field from s = s.from_field
  field to s = s.to_field

  abbrev pub put : End → Field → Screen Result → Screen Result
  put from f s = record s { from_field = f }
  put to f s = record s { to_field = f }

  -- `handleFromChange` and `handleToChange`; `is_long` says that the text has two characters.
  unfoldable pub handle_change : End → Bool → String → Screen Result → Screen Result
  handle_change e is_long text s =
      if is_long
      then record (put e (record (field e s) { text = text; selected = none }) s) {
        requests = s.requests ++ e ∷ [];
      }
      else put e (record { text = text; selected = none; suggestions = [] }) s

  unfoldable pub suggest : End → List Stop → Screen Result → Screen Result
  suggest e stops s = record (put e (record (field e s) { suggestions = stops }) s) {
    active_field = some e;
  }

  unfoldable pub on_stops : ℕ → List Stop → Screen Result → Screen Result
  unfolding pick suggest
  on_stops i stops s = elim (pick i s.requests) [
    | none ↦ s
    | some (e, others) ↦ suggest e stops (record s { requests = others })
  ]

  -- `selectFromStop` and `selectToStop`
  unfoldable pub select_stop : End → Stop → Screen Result → Screen Result
  select_stop e stop s =
      record (put e (record { text = stop.name_en; suggestions = []; selected = some stop }) s) {
        active_field = none;
      }

  -- `handleSearch` up to its request, which is made for the two texts.
  unfoldable pub handle_search : Screen Result → Option (String × String) × Screen Result
  handle_search s =
      if str_eq s.from_field.text "" || str_eq s.to_field.text ""
      then (none, s)
      else (some (s.from_field.text, s.to_field.text), record s { loading = true; searched = true })

  -- Its end; `none` is a failure, or an answer without journeys.
  unfoldable pub search_end : Option (List Result) → Screen Result → Screen Result
  search_end answer s = record s { journeys = or_none answer; loading = false }

  abbrev pub suggestions : Screen Result → List Stop
  suggestions s = elim s.active_field [
    | none ↦ s.to_field.suggestions
    | some e ↦ (field e s).suggestions
  ]
