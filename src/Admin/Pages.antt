-- ===== src/Admin/Pages.antt =====
-- admin/src/App.tsx: the pages of the console, who may see them, and where a path leads. A path is the
-- list of its segments, in lower case, since the router compares them so. How the router finds the
-- page of a path is a parameter, with what its documentation says of it.
pub mod Laws
pub mod Login
mod Tests
use mansariya.Base.{
  ℕ, zero, suc, String, Bool, true, false, ◌&&◌, ◌||◌, Option, none, some, List, [], ◌∷◌, any,
  str_eq, if◌then◌else◌, ◌≡◌,
}
use mansariya.Admin.Auth.{AuthState, is_authenticated}

pub data Page : Type 0 where
  login dashboard routes route_new route_detail route_edit stops timetables simulations : Page
  data_page contributors users user_detail roles audit_logs settings live_map route_builder : Page

pub data Piece : Type 0 where
  literal : String → Piece
  parameter : String → Piece

pub record Route : Type 0 where
  pub pattern : List Piece
  pub page : Page

abbrev route : List Piece → Page → Route
route pattern page = record { pattern = pattern; page = page }

-- The routes of `App` but the last, which fits everything.
unfoldable pub app_routes : List Route
app_routes =
    route (literal "login" ∷ []) login
    ∷ route [] dashboard
    ∷ route (literal "routes" ∷ []) routes
    ∷ route (literal "routes" ∷ literal "new" ∷ []) route_new
    ∷ route (literal "routes" ∷ parameter "routeId" ∷ []) route_detail
    ∷ route (literal "routes" ∷ parameter "routeId" ∷ literal "edit" ∷ []) route_edit
    ∷ route (literal "stops" ∷ []) stops
    ∷ route (literal "timetables" ∷ []) timetables
    ∷ route (literal "simulations" ∷ []) simulations
    ∷ route (literal "data" ∷ []) data_page
    ∷ route (literal "contributors" ∷ []) contributors
    ∷ route (literal "users" ∷ []) users
    ∷ route (literal "users" ∷ parameter "userId" ∷ []) user_detail
    ∷ route (literal "roles" ∷ []) roles
    ∷ route (literal "audit-logs" ∷ []) audit_logs
    ∷ route (literal "settings" ∷ []) settings
    ∷ route (literal "live-map" ∷ []) live_map
    ∷ route (literal "route-builder" ∷ []) route_builder
    ∷ []

abbrev pub fits_piece : Piece → String → Bool
fits_piece (literal s) t = str_eq s t
fits_piece (parameter _) t = true

unfoldable pub fits : List Piece → List String → Bool
fits [] [] = true
fits (p ∷ ps) (s ∷ ss) = fits_piece p s && fits ps ss
fits _ _ = false

unfoldable pub page_name : Page → String
page_name login = "LoginPage"
page_name dashboard = "DashboardContent"
page_name routes = "RoutesPage"
page_name route_new = "RouteNewPage"
page_name route_detail = "RouteDetailPage"
page_name route_edit = "RouteEditPage"
page_name stops = "StopsPage"
page_name timetables = "TimetablesPage"
page_name simulations = "SimulationsPage"
page_name data_page = "DataPage"
page_name contributors = "ContributorsPage"
page_name users = "UsersPage"
page_name user_detail = "UserDetailPage"
page_name roles = "RolesPage"
page_name audit_logs = "AuditLogsPage"
page_name settings = "SettingsPage"
page_name live_map = "LiveMapPage"
page_name route_builder = "RouteBuilderPage"

abbrev pub gives : List String → Page → Route → Bool
gives path page r = fits r.pattern path && str_eq (page_name r.page) (page_name page)

-- The router finds a page whose pattern fits, if there is one.
pub record Router : Type 0 where
  pub find : List Route → List String → Option Page
  pub sound :
      (rs : List Route) (path : List String) (page : Page)
      → find rs path ≡ some page
      → any (gives path page) rs ≡ true
  pub complete :
      (rs : List Route) (path : List String)
      → any (λ (r : Route). fits r.pattern path) rs ≡ true
      → (page : Page) × (find rs path ≡ some page)

-- What a path leads to: the wheel that turns while the session is restored, another path, or a page.
pub data Outcome : Type 0 where
  waiting : Outcome
  redirect : List String → Outcome
  shown : Page → Outcome

-- `PublicRoute`
abbrev pub public_route : AuthState → Page → Outcome
public_route s page =
    if s.is_loading then waiting else if is_authenticated s then redirect [] else shown page

-- `ProtectedLayout`
abbrev pub protected_layout : AuthState → Page → Outcome
protected_layout s page =
    if s.is_loading
    then waiting
    else if is_authenticated s
    then shown page
    else redirect ("login" ∷ [])

unfoldable pub element : AuthState → Option Page → Outcome
element s none = redirect []
element s (some login) = public_route s login
element s (some page) = protected_layout s page

module _ (router : Router) where
  unfoldable pub visit : AuthState → List String → Outcome
  unfolding element
  visit s path = element s (router.find app_routes path)

  -- The redirections that follow, on fuel.
  unfoldable pub follow : ℕ → AuthState → List String → Option Outcome
  follow zero s path = none
  follow (suc n) s path = elim (visit s path) [
    | waiting ↦ some waiting
    | redirect next ↦ follow n s next
    | shown page ↦ some (shown page)
  ]
