-- ===== src/Admin/Users/Tests.antt =====
-- Examples of the controls of a user.
use mansariya.Base.{Option, false, none, some, List, [], ◌∷◌, ◌≡◌, refl, All}
use mansariya.Admin.Calls.Mutations.{Mutation, remove_user_role, delete_user}
use mansariya.Admin.Users.{
  Status, UserRole, AdminUser, deletion, row_item, remove_role, toggle_status, control, UserPage,
  Event, pressed, delete_pressed, confirmed, fetched, step, requests,
}
use mansariya.Admin.Users.Laws.{Spares, stays_super, requests-Spares}

abbrev super_admin : UserRole
super_admin = record { id = "r1"; slug = "super_admin"; name = "Super Admin" }

abbrev viewer : UserRole
viewer = record { id = "r2"; slug = "viewer"; name = "Viewer" }

abbrev root : AdminUser
root = record {
  id = "1";
  email = "root@mansariya.lk";
  display_name = "Root";
  status = Status.active;
  last_login_at = none;
  created_at = "noon";
  roles = super_admin ∷ viewer ∷ [];
}

remove_viewer : control root [] (remove_role 1) ≡ some (remove_user_role "1" "r2")
unfolding control
remove_viewer = refl

keep_super_admin : control root [] (remove_role 0) ≡ none
unfolding control
keep_super_admin = refl

delete_viewer : row_item (record root { roles = viewer ∷ [] }) deletion ≡ some (delete_user "1")
unfolding row_item
delete_viewer = refl

abbrev root_page : UserPage
root_page = record { user = root; delete_open = false }

abbrev events : List Event
events =
    delete_pressed
    ∷ confirmed
    ∷ fetched (record root { roles = super_admin ∷ [] })
    ∷ pressed (remove_role 0)
    ∷ pressed toggle_status
    ∷ []

requests-Spares_example :
    All
      (λ ((u, request) : AdminUser × Option Mutation). Spares u request)
      (requests [] events root_page)
unfolding stays_super
requests-Spares_example = requests-Spares [] events root_page refl refl refl

-- A dialog that was opened before the user became a super administrator deletes the account.
deleted_anyway :
    requests []
      (delete_pressed ∷ fetched root ∷ confirmed ∷ [])
      (record { user = record root { roles = viewer ∷ [] }; delete_open = false })
    ≡ (record root { roles = viewer ∷ [] }, none)
      ∷ (record root { roles = viewer ∷ [] }, none)
      ∷ (root, some (delete_user "1"))
      ∷ []
unfolding requests step
deleted_anyway = refl
