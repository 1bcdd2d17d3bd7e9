-- ===== src/Mobile/Stores/SavedStore.antt =====
-- mobile/src/stores/useSavedStore.ts: the saved routes.
use mansariya.Base.{String, Bool, not, List, [], ◌∷◌, ◌++◌, any, select, str_eq, if◌then◌else◌}
use mansariya.Mobile.Api.{Route}

abbrev pub has_id : String → Route → Bool
has_id id r = str_eq r.id id

unfoldable pub is_saved : String → List Route → Bool
is_saved id routes = any (has_id id) routes

unfoldable pub add_route : Route → List Route → List Route
unfolding is_saved
add_route route routes = if any (has_id route.id) routes then routes else routes ++ route ∷ []

unfoldable pub remove_route : String → List Route → List Route
remove_route id routes = select (λ r. not (str_eq r.id id)) routes

pub data Action : Type 0 where
  adds : Route → Action
  removes : String → Action

unfoldable pub act : List Route → Action → List Route
act routes (adds route) = add_route route routes
act routes (removes id) = remove_route id routes
