-- ===== src/Admin/LocationAutocomplete/Tests.antt =====
-- Examples of the field that suggests places.
use mansariya.Base.{String, true, some, List, [], ◌∷◌, ◌≡◌, refl}
use mansariya.Base.Texts.{text_length}
use mansariya.Admin.RouteBuilder.{NominatimResult}
use mansariya.Admin.LocationAutocomplete.{
  Field, opened, handle_change, Act, typed, focused, timer_fired, clicked_outside,
}

abbrev name_of : NominatimResult → String
name_of r = r.display_name

-- The field after the first two characters.
abbrev waiting : Field
waiting = record opened { query = "ka"; is_loading = true; timer = some "ka" }

typed_two : handle_change "ka" opened ≡ waiting
unfolding handle_change text_length
typed_two = refl

abbrev acts : List Act
acts = timer_fired ∷ focused ∷ typed "" ∷ clicked_outside ∷ []
