-- ===== src/Admin/Calls/Changes.antt =====
-- admin/src/lib/api.ts: the functions that change something, one by one.
use mansariya.Base.{String, Bool, true, List, [], ◌∷◌}
use mansariya.Admin.Api.Types.{TimetableInput}
use mansariya.Admin.Calls.{
  Method, post, put, delete, text, texts, flag, entries, Body, Request, under_admin,
}

pub data UserStatus : Type 0 where
  active disabled : UserStatus

abbrev pub status_text : UserStatus → String
status_text active = "active"
status_text disabled = "disabled"

abbrev api_mutate : Method → List String → Body → Request
api_mutate method segments body = record {
  method = method;
  path = under_admin segments;
  query = [];
  body = body;
  admin = true;
}

abbrev pub delete_route : String → Request
delete_route id = api_mutate delete ("routes" ∷ id ∷ []) []

abbrev pub set_route_active : String → Bool → Request
set_route_active id is_active =
    api_mutate put ("routes" ∷ id ∷ "status" ∷ []) (("is_active", flag is_active) ∷ [])

abbrev pub set_timetable : String → List TimetableInput → Request
set_timetable id rows =
    api_mutate put ("routes" ∷ id ∷ "timetable" ∷ []) (("entries", entries rows) ∷ [])

abbrev pub start_simulation : String → Request
start_simulation id = api_mutate post ("simulations" ∷ id ∷ "start" ∷ []) []

abbrev pub pause_simulation : String → Request
pause_simulation id = api_mutate post ("simulations" ∷ id ∷ "pause" ∷ []) []

abbrev pub resume_simulation : String → Request
resume_simulation id = api_mutate post ("simulations" ∷ id ∷ "resume" ∷ []) []

abbrev pub stop_simulation : String → Request
stop_simulation id = api_mutate post ("simulations" ∷ id ∷ "stop" ∷ []) []

abbrev pub delete_simulation : String → Request
delete_simulation id = api_mutate delete ("simulations" ∷ id ∷ []) []

abbrev pub invite_user : String → String → List String → Request
invite_user email display_name role_ids = api_mutate post ("users" ∷ "invite" ∷ []) (
    ("email", text email) ∷ ("display_name", text display_name) ∷ ("role_ids", texts role_ids) ∷ [])

abbrev pub update_user_status : String → UserStatus → Request
update_user_status id status =
    api_mutate put ("users" ∷ id ∷ "status" ∷ []) (("status", text (status_text status)) ∷ [])

abbrev pub assign_user_role : String → String → Request
assign_user_role id role_id =
    api_mutate post ("users" ∷ id ∷ "roles" ∷ []) (("role_id", text role_id) ∷ [])

abbrev pub remove_user_role : String → String → Request
remove_user_role id role_id = api_mutate delete ("users" ∷ id ∷ "roles" ∷ role_id ∷ []) []

abbrev pub revoke_user_session : String → String → Request
revoke_user_session id session_id =
    api_mutate delete ("users" ∷ id ∷ "sessions" ∷ session_id ∷ []) []

abbrev pub revoke_all_user_sessions : String → Request
revoke_all_user_sessions id = api_mutate delete ("users" ∷ id ∷ "sessions" ∷ []) []

abbrev pub delete_user : String → Request
delete_user id = api_mutate delete ("users" ∷ id ∷ []) []

abbrev pub create_role : String → String → String → Request
create_role slug name description =
    api_mutate post ("roles" ∷ [])
      (("slug", text slug) ∷ ("name", text name) ∷ ("description", text description) ∷ [])

abbrev pub update_role : String → String → String → Request
update_role id name description =
    api_mutate put ("roles" ∷ id ∷ [])
      (("name", text name) ∷ ("description", text description) ∷ [])

abbrev pub delete_role : String → Request
delete_role id = api_mutate delete ("roles" ∷ id ∷ []) []

abbrev pub set_role_permissions : String → List String → Request
set_role_permissions id permission_ids =
    api_mutate put ("roles" ∷ id ∷ "permissions" ∷ [])
      (("permission_ids", texts permission_ids) ∷ [])
