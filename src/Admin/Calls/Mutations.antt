-- ===== src/Admin/Calls/Mutations.antt =====
-- admin/src/lib/api.ts: the calls that change something.
use mansariya.Base.{String, Bool, List}
use mansariya.Admin.Api.Types.{TimetableInput}
use mansariya.Admin.Calls.{Request}
use mansariya.Admin.Calls.Changes
use mansariya.Admin.Calls.Changes.{UserStatus}

pub data Transition : Type 0 where
  start pause resume stop : Transition

pub data Mutation : Type 0 where
  delete_route : String → Mutation
  set_route_active : String → Bool → Mutation
  set_timetable : String → List TimetableInput → Mutation
  change_simulation : Transition → String → Mutation
  delete_simulation : String → Mutation
  invite_user : String → String → List String → Mutation
  update_user_status : String → UserStatus → Mutation
  assign_user_role : String → String → Mutation
  remove_user_role : String → String → Mutation
  revoke_user_session : String → String → Mutation
  revoke_all_user_sessions : String → Mutation
  delete_user : String → Mutation
  create_role : String → String → String → Mutation
  update_role : String → String → String → Mutation
  delete_role : String → Mutation
  set_role_permissions : String → List String → Mutation

unfoldable pub mutation_request : Mutation → Request
mutation_request (delete_route id) = Changes.delete_route id
mutation_request (set_route_active id is_active) = Changes.set_route_active id is_active
mutation_request (set_timetable id rows) = Changes.set_timetable id rows
mutation_request (change_simulation start id) = Changes.start_simulation id
mutation_request (change_simulation pause id) = Changes.pause_simulation id
mutation_request (change_simulation resume id) = Changes.resume_simulation id
mutation_request (change_simulation stop id) = Changes.stop_simulation id
mutation_request (delete_simulation id) = Changes.delete_simulation id
mutation_request (invite_user email display_name role_ids) =
    Changes.invite_user email display_name role_ids
mutation_request (update_user_status id status) = Changes.update_user_status id status
mutation_request (assign_user_role id role_id) = Changes.assign_user_role id role_id
mutation_request (remove_user_role id role_id) = Changes.remove_user_role id role_id
mutation_request (revoke_user_session id session_id) = Changes.revoke_user_session id session_id
mutation_request (revoke_all_user_sessions id) = Changes.revoke_all_user_sessions id
mutation_request (delete_user id) = Changes.delete_user id
mutation_request (create_role slug name description) = Changes.create_role slug name description
mutation_request (update_role id name description) = Changes.update_role id name description
mutation_request (delete_role id) = Changes.delete_role id
mutation_request (set_role_permissions id permission_ids) =
    Changes.set_role_permissions id permission_ids
