-- ===== src/Admin/Users/Laws.antt =====
-- Super administrators.
use mansariya.Base.{
  ℕ, String, true, false, ◌||◌, Option, none, some, List, get_elem?, if◌then◌else◌, ◌≡◌, refl, Bool,
  ◌&&◌, [], ◌∷◌, All, Bool-cases, inl, inr, arith,
}
use mansariya.Admin.Calls.Mutations.{
  Mutation, update_user_status, assign_user_role, remove_user_role, revoke_all_user_sessions,
  revoke_user_session,
}
use mansariya.Admin.Users.{
  UserRole, AdminUser, is_super, is_super_admin, is_invited, toggled, RowItem, activation, deletion,
  row_item, available_roles, Control, control, add_role, remove_role, toggle_status, revoke_all,
  revoke, assign, unassign, UserPage, Event, pressed, delete_pressed, confirmed, cancelled, fetched,
  step, requests,
}

-- The user keeps the account and its status, and of its roles one that makes no super administrator
-- may go.
pub data Spares (u : AdminUser) : Option Mutation → Type 0 where
  nothing : Spares u none
  added : (user_id role_id : String) → Spares u (some (assign_user_role user_id role_id))
  removed :
      (i : ℕ) (r : UserRole)
      → get_elem? u.roles i ≡ some r
      → is_super r ≡ false
      → Spares u (some (remove_user_role u.id r.id))
  signed_out : (user_id : String) → Spares u (some (revoke_all_user_sessions user_id))
  session_ended :
      (user_id session_id : String) → Spares u (some (revoke_user_session user_id session_id))

module _ (u : AdminUser) (super : is_super_admin u ≡ true) where
  unassign-Spares :
      (i : ℕ) (o : Option UserRole) → get_elem? u.roles i ≡ o → Spares u (unassign u o)
  unassign-Spares i none e = nothing
  unassign-Spares i (some r) e = elim (Bool-cases (is_super r)) [
    | inl s ↦ rw (super, s) nothing
    | inr s ↦ rw (super, s) (removed i r e s)
  ]

  assign-Spares : (o : Option UserRole) → Spares u (assign u o)
  assign-Spares none = nothing
  assign-Spares (some r) = added u.id r.id

  control-Spares : (all_roles : List UserRole) (c : Control) → Spares u (control u all_roles c)
  unfolding control
  control-Spares all_roles (add_role i) = assign-Spares (get_elem? (available_roles u all_roles) i)
  control-Spares all_roles (remove_role i) = unassign-Spares i (get_elem? u.roles i) refl
  control-Spares all_roles toggle_status =
      elim (is_invited u.status)
        as (λ b. Spares u (
          if b || is_super_admin u
          then none
          else some (update_user_status u.id (toggled u.status)))) [
            | true ↦ nothing
            | false ↦ rw super nothing
          ]
  control-Spares all_roles revoke_all = signed_out u.id
  control-Spares all_roles (revoke session_id) = session_ended u.id session_id

  pub row_item-none : (i : RowItem) → row_item u i ≡ none
  unfolding row_item
  row_item-none activation = ground arith
  row_item-none deletion = rw super

-- Every user that comes is a super administrator.
unfoldable pub stays_super : List Event → Bool
stays_super [] = true
stays_super (fetched u ∷ rest) = is_super_admin u && stays_super rest
stays_super (_ ∷ rest) = stays_super rest

-- Both halves of what a step leaves: the request spares the user, and the dialog is closed.
step-Spares :
    (all_roles : List UserRole) (e : Event) (s : UserPage)
    → is_super_admin s.user ≡ true
    → s.delete_open ≡ false
    → let (request, t) = step all_roles e s in Spares s.user request × (t.delete_open ≡ false)
unfolding step
step-Spares all_roles (pressed c) s super shut = (control-Spares s.user super all_roles c, shut)
step-Spares all_roles delete_pressed s super shut = (nothing, ground (arith, super, shut))
step-Spares all_roles confirmed s super shut = rw shut (nothing, refl)
step-Spares all_roles cancelled s super shut = (nothing, refl)
step-Spares all_roles (fetched u) s super shut = (nothing, shut)

step-super :
    (all_roles : List UserRole) (e : Event) (rest : List Event) (s : UserPage)
    → is_super_admin s.user ≡ true
    → stays_super (e ∷ rest) ≡ true
    → (is_super_admin (step all_roles e s).1.user ≡ true) × (stays_super rest ≡ true)
unfolding step stays_super
step-super all_roles (pressed c) rest s super h = (super, h)
step-super all_roles delete_pressed rest s super h = (ground (arith, super), h)
step-super all_roles confirmed rest s super h = (ground (arith, super), h)
step-super all_roles cancelled rest s super h = (super, h)
step-super all_roles (fetched u) rest s super h = (ground (arith, h), ground (arith, h))

-- On the page of a user that is a super administrator whenever it is fetched, with no dialog open at
-- first: whatever is pressed, confirmed and cancelled, in any order, no request disables or deletes
-- the account, and none takes the role of a super administrator away.
pub requests-Spares :
    (all_roles : List UserRole) (events : List Event) (s : UserPage)
    → is_super_admin s.user ≡ true
    → s.delete_open ≡ false
    → stays_super events ≡ true
    → All
        (λ ((u, request) : AdminUser × Option Mutation). Spares u request)
        (requests all_roles events s)
unfolding requests
requests-Spares all_roles [] s super shut h = tt
requests-Spares all_roles (e ∷ rest) s super shut h =
    let (spared, shut') = step-Spares all_roles e s super shut in
    let (super', h') = step-super all_roles e rest s super h in
    (spared, requests-Spares all_roles rest (step all_roles e s).1 super' shut' h')
