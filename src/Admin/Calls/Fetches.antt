-- ===== src/Admin/Calls/Fetches.antt =====
-- admin/src/lib/api.ts: the calls that only read.
use mansariya.Base.{ℕ, String, Option}
use mansariya.Admin.Api.{AdminRoutesParams, AdminStopsParams, SimulationsParams}
use mansariya.Admin.DataTable.Requests.{AdminUsersParams, AdminRolesParams, AuditLogsParams}
use mansariya.Admin.Calls.{Request}
use mansariya.Admin.Calls.Reads

-- The parameters of `fetchAdminContributors` have the fields of those of the users, and the
-- parameters of a user's sessions those of the roles.
pub data Fetch : Type 0 where
  fetch_dashboard_stats fetch_active_buses fetch_simulation_active_stats : Fetch
  fetch_system_health fetch_health fetch_nearby_stops fetch_active_buses_detail : Fetch
  fetch_admin_routes : AdminRoutesParams → Fetch
  fetch_admin_route_detail : String → Fetch
  fetch_admin_stops : AdminStopsParams → Fetch
  fetch_simulations : SimulationsParams → Fetch
  fetch_admin_users : AdminUsersParams → Fetch
  fetch_user_detail fetch_user_sessions : String → Fetch
  fetch_user_sessions_filtered : String → AdminRolesParams → Fetch
  fetch_admin_roles : Option AdminRolesParams → Fetch
  check_role_slug : String → Fetch
  fetch_admin_permissions : Fetch
  fetch_role_permissions : String → Fetch
  fetch_admin_contributors : AdminUsersParams → Fetch
  fetch_leaderboard : Option String → Option ℕ → Option ℕ → Fetch
  fetch_audit_logs : AuditLogsParams → Fetch

unfoldable pub fetch_request : Fetch → Request
fetch_request fetch_dashboard_stats = Reads.fetch_dashboard_stats
fetch_request fetch_active_buses = Reads.fetch_active_buses
fetch_request fetch_simulation_active_stats = Reads.fetch_simulation_active_stats
fetch_request fetch_system_health = Reads.fetch_system_health
fetch_request fetch_health = Reads.fetch_health
fetch_request fetch_nearby_stops = Reads.fetch_nearby_stops
fetch_request fetch_active_buses_detail = Reads.fetch_active_buses_detail
fetch_request (fetch_admin_routes p) = Reads.fetch_admin_routes p
fetch_request (fetch_admin_route_detail id) = Reads.fetch_admin_route_detail id
fetch_request (fetch_admin_stops p) = Reads.fetch_admin_stops p
fetch_request (fetch_simulations p) = Reads.fetch_simulations p
fetch_request (fetch_admin_users p) = Reads.fetch_admin_users p
fetch_request (fetch_user_detail id) = Reads.fetch_user_detail id
fetch_request (fetch_user_sessions id) = Reads.fetch_user_sessions id
fetch_request (fetch_user_sessions_filtered id p) = Reads.fetch_user_sessions_filtered id p
fetch_request (fetch_admin_roles p) = Reads.fetch_admin_roles p
fetch_request (check_role_slug slug) = Reads.check_role_slug slug
fetch_request fetch_admin_permissions = Reads.fetch_admin_permissions
fetch_request (fetch_role_permissions id) = Reads.fetch_role_permissions id
fetch_request (fetch_admin_contributors p) = Reads.fetch_admin_contributors p
fetch_request (fetch_leaderboard sort limit offset) = Reads.fetch_leaderboard sort limit offset
fetch_request (fetch_audit_logs p) = Reads.fetch_audit_logs p
