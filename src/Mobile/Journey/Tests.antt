-- ===== src/Mobile/Journey/Tests.antt =====
-- Examples of mobile/src/screens/JourneySearchScreen.tsx.
use mansariya.Base.{String, true, false, none, [], ◌∷◌, ◌≡◌, refl}
use mansariya.Mobile.Journey.{
  from, Field, Screen, Stop, on_stops, select_stop, handle_change, pick, suggest,
}
use mansariya.Mobile.Journey.Laws.{typed, answered, chosen, run, step}

abbrev blank : Field
blank = record { text = ""; suggestions = []; selected = none }

abbrev screen : Screen String
screen = record {
  from_field = blank;
  to_field = blank;
  active_field = none;
  journeys = [];
  loading = false;
  searched = false;
  requests = [];
}

abbrev fort : Stop
fort = record { id = "s1"; name_en = "Fort" }

chosen_stop :
    (run
      (typed from true "Fo" ∷ answered 0 (fort ∷ []) ∷ chosen from fort ∷ [])
      screen).from_field.text
    ≡ "Fort"
unfolding run step handle_change on_stops pick suggest select_stop
chosen_stop = refl
