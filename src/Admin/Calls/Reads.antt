-- ===== src/Admin/Calls/Reads.antt =====
-- admin/src/lib/api.ts: the functions that only read, one by one.
use mansariya.Base.{ℕ, String, Bool, true, false, Option, none, some, List, [], ◌∷◌, ◌++◌}
use mansariya.Admin.Api.{
  Query, text, number, set_text, set_number, AdminRoutesParams, AdminStopsParams, SimulationsParams,
  admin_routes_query, admin_stops_query, simulations_query,
}
use mansariya.Admin.DataTable.Requests.{
  AdminUsersParams, AdminRolesParams, AuditLogsParams, admin_users_query, admin_contributors_query,
  admin_roles_query, audit_logs_query,
}
use mansariya.Admin.Calls.{get, Request, path_text, under_admin}

abbrev api_get : String → Query → Bool → Request
api_get path query admin = record {
  method = get;
  path = path;
  query = query;
  body = [];
  admin = admin;
}

abbrev admin_get : List String → Query → Request
admin_get segments query = api_get (under_admin segments) query true

unfoldable pub leaderboard_query : Option String → Option ℕ → Option ℕ → Query
leaderboard_query sort limit offset =
    set_text "sort" sort ++ (set_number "limit" limit ++ set_number "offset" offset)

-- Without parameters the roles are asked for with a limit of their own.
unfoldable pub roles_query : Option AdminRolesParams → Query
roles_query none = ("limit", number 100) ∷ []
roles_query (some p) = admin_roles_query p

abbrev pub fetch_dashboard_stats : Request
fetch_dashboard_stats = admin_get ("stats" ∷ []) []

abbrev pub fetch_active_buses : Request
fetch_active_buses = api_get (path_text ("api" ∷ "v1" ∷ "buses" ∷ "active" ∷ [])) [] false

abbrev pub fetch_simulation_active_stats : Request
fetch_simulation_active_stats = admin_get ("simulations" ∷ "active" ∷ []) []

abbrev pub fetch_system_health : Request
fetch_system_health = admin_get ("system" ∷ "health" ∷ []) []

abbrev pub fetch_health : Request
fetch_health = api_get (path_text ("" ∷ [])) [] false

abbrev pub fetch_nearby_stops : Request
fetch_nearby_stops =
    api_get (path_text ("api" ∷ "v1" ∷ "stops" ∷ "nearby" ∷ []))
      (("lat", text "7.0") ∷ ("lng", text "80.0") ∷ ("radius_km", text "500") ∷ []) false

abbrev pub fetch_active_buses_detail : Request
fetch_active_buses_detail = api_get (path_text ("api" ∷ "v1" ∷ "buses" ∷ "active" ∷ [])) [] false

abbrev pub fetch_admin_routes : AdminRoutesParams → Request
fetch_admin_routes p = admin_get ("routes" ∷ []) (admin_routes_query p)

abbrev pub fetch_admin_route_detail : String → Request
fetch_admin_route_detail id = admin_get ("routes" ∷ id ∷ []) []

abbrev pub fetch_admin_stops : AdminStopsParams → Request
fetch_admin_stops p = admin_get ("stops" ∷ []) (admin_stops_query p)

abbrev pub fetch_simulations : SimulationsParams → Request
fetch_simulations p = admin_get ("simulations" ∷ []) (simulations_query p)

abbrev pub fetch_admin_users : AdminUsersParams → Request
fetch_admin_users p = admin_get ("users" ∷ []) (admin_users_query p)

abbrev pub fetch_user_detail : String → Request
fetch_user_detail id = admin_get ("users" ∷ id ∷ []) []

abbrev pub fetch_user_sessions : String → Request
fetch_user_sessions id = admin_get ("users" ∷ id ∷ "sessions" ∷ []) []

abbrev pub fetch_user_sessions_filtered : String → AdminRolesParams → Request
fetch_user_sessions_filtered id p = admin_get ("users" ∷ id ∷ "sessions" ∷ []) (admin_roles_query p)

abbrev pub fetch_admin_roles : Option AdminRolesParams → Request
fetch_admin_roles p = admin_get ("roles" ∷ []) (roles_query p)

abbrev pub check_role_slug : String → Request
check_role_slug slug = admin_get ("roles" ∷ "check-slug" ∷ []) (("slug", text slug) ∷ [])

abbrev pub fetch_admin_permissions : Request
fetch_admin_permissions = admin_get ("permissions" ∷ []) []

abbrev pub fetch_role_permissions : String → Request
fetch_role_permissions id = admin_get ("roles" ∷ id ∷ "permissions" ∷ []) []

abbrev pub fetch_admin_contributors : AdminUsersParams → Request
fetch_admin_contributors p = admin_get ("contributors" ∷ []) (admin_contributors_query p)

abbrev pub fetch_leaderboard : Option String → Option ℕ → Option ℕ → Request
fetch_leaderboard sort limit offset =
    api_get (path_text ("api" ∷ "v1" ∷ "contributor" ∷ "leaderboard" ∷ []))
      (leaderboard_query sort limit offset) false

abbrev pub fetch_audit_logs : AuditLogsParams → Request
fetch_audit_logs p = admin_get ("audit-logs" ∷ []) (audit_logs_query p)
