-- ===== src/Admin/Users.antt =====
-- admin/src/pages/users.tsx and admin/src/pages/user-detail.tsx: the invitation, and what the
-- controls of a user's row and page ask the backend for (admin/src/lib/api.ts).
pub mod Laws
mod Tests
use mansariya.Base.{
  ℕ, String, Bool, true, false, ◌||◌, ◌&&◌, not, Option, none, some, List, [], ◌∷◌, any, select,
  get_elem?, str_eq, if◌then◌else◌,
}
use mansariya.Admin.Calls.Changes.{UserStatus}
use mansariya.Admin.Calls.Mutations.{
  Mutation, invite_user, update_user_status, assign_user_role, remove_user_role,
  revoke_all_user_sessions, revoke_user_session, delete_user,
}

pub data Status : Type 0 where
  invited active disabled : Status

pub record UserRole : Type 0 where
  pub id : String
  pub slug : String
  pub name : String

pub record AdminUser : Type 0 where
  pub id : String
  pub email : String
  pub display_name : String
  pub status : Status
  pub last_login_at : Option String
  pub created_at : String
  pub roles : List UserRole

-- The two sources decide it alike.
abbrev pub is_super : UserRole → Bool
is_super r = str_eq r.slug "super_admin"

abbrev pub is_super_admin : AdminUser → Bool
is_super_admin u = any is_super u.roles

abbrev pub is_invited : Status → Bool
is_invited invited = true
is_invited _ = false

-- `user.status === "active" ? "disabled" : "active"`
abbrev pub toggled : Status → UserStatus
toggled Status.active = UserStatus.disabled
toggled _ = UserStatus.active

-- The menu of a row. An item that is disabled, or that says that it may not be used, asks for
-- nothing.
pub data RowItem : Type 0 where
  activation deletion : RowItem

unfoldable pub row_item : AdminUser → RowItem → Option Mutation
row_item u activation =
    if is_invited u.status || is_super_admin u
    then none
    else some (update_user_status u.id (toggled u.status))
row_item u deletion = if is_super_admin u then none else some (delete_user u.id)

-- The page of a user: the roles that can be added are those that the user does not have.
unfoldable pub available_roles : AdminUser → List UserRole → List UserRole
available_roles u all_roles =
    select (λ (r : UserRole). not (any (λ (own : UserRole). str_eq own.slug r.slug) u.roles))
      all_roles

pub data Control : Type 0 where
  add_role remove_role : ℕ → Control
  toggle_status revoke_all : Control
  revoke : String → Control

abbrev pub assign : AdminUser → Option UserRole → Option Mutation
assign u none = none
assign u (some r) = some (assign_user_role u.id r.id)

-- `isProtected`
abbrev pub unassign : AdminUser → Option UserRole → Option Mutation
unassign u none = none
unassign u (some r) =
    if is_super_admin u && is_super r then none else some (remove_user_role u.id r.id)

unfoldable pub control : AdminUser → List UserRole → Control → Option Mutation
unfolding available_roles
control u all_roles (add_role i) = assign u (get_elem? (available_roles u all_roles) i)
control u all_roles (remove_role i) = unassign u (get_elem? u.roles i)
control u all_roles toggle_status =
    if is_invited u.status || is_super_admin u
    then none
    else some (update_user_status u.id (toggled u.status))
control u all_roles revoke_all = some (revoke_all_user_sessions u.id)
control u all_roles (revoke session_id) = some (revoke_user_session u.id session_id)

-- The page: the user as it was fetched last, and whether the dialog that confirms a deletion is shown.
pub record UserPage : Type 0 where
  pub user : AdminUser
  pub delete_open : Bool

pub data Event : Type 0 where
  pressed : Control → Event
  delete_pressed confirmed cancelled : Event
  fetched : AdminUser → Event

-- The button that opens the dialog is not there for a super administrator; the one in the dialog is,
-- whatever has been fetched in the meantime.
unfoldable pub step : List UserRole → Event → UserPage → Option Mutation × UserPage
step all_roles (pressed c) s = (control s.user all_roles c, s)
step all_roles delete_pressed s =
    (none, if is_super_admin s.user then s else record s { delete_open = true })
step all_roles confirmed s =
    if s.delete_open
    then (some (delete_user s.user.id), record s { delete_open = false })
    else (none, s)
step all_roles cancelled s = (none, record s { delete_open = false })
step all_roles (fetched u) s = (none, record s { user = u })

-- What is asked for, each with the user that the page shows then.
unfoldable pub requests : List UserRole → List Event → UserPage → List (AdminUser × Option Mutation)
requests all_roles [] s = []
requests all_roles (e ∷ rest) s =
    let (request, t) = step all_roles e s in (s.user, request) ∷ requests all_roles rest t

-- `InviteDialog`
pub record Invitation : Type 0 where
  pub is_open : Bool
  pub email : String
  pub display_name : String
  pub role_id : String
  pub is_pending : Bool

unfoldable pub send_invite : Invitation → Option Mutation × Invitation
send_invite s =
    if str_eq s.email "" || (str_eq s.display_name "" || s.is_pending) then (none, s) else (
      some
          (invite_user s.email s.display_name (if str_eq s.role_id "" then [] else s.role_id ∷ [])),
      record s { is_pending = true },
    )

unfoldable pub invite_answered : Bool → Invitation → Invitation
invite_answered true s = record {
  is_open = false;
  email = "";
  display_name = "";
  role_id = "";
  is_pending = false;
}
invite_answered false s = record s { is_pending = false }
