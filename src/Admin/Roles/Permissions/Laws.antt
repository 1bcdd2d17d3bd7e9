-- ===== src/Admin/Roles/Permissions/Laws.antt =====
-- What the boxes do to the choice, and that the families lose no permission.
use mansariya.Base.{
  String, true, false, ◌&&◌, ◌||◌, not, List, [], ◌∷◌, arith, ◌≡◌, refl, if◌then◌else◌, str_eq,
  eq_iff,
}
use mansariya.Base.Sets.{member, add, remove, member-add, member-remove}
use mansariya.Base.Dict.{lookup}
use mansariya.Base.Group.{with_key, or_none, lookup-group_by}
use mansariya.Base.Sort.{InOrder, sort-perm, sort-InOrder}
use mathlib.Core.List.{Perm}
use mansariya.Admin.Roles.Permissions.{
  Query, Permission, Dialog, add_all, remove_all, all_checked, toggle, toggle_family, group,
  grouped, comes_first,
}

pub member-add_all :
    (x : String) (xs s : List String) → member x (add_all xs s) ≡ (member x xs || member x s)
unfolding add_all member
member-add_all x [] s = refl
member-add_all x (y ∷ ys) s = ground (arith, member-add_all x ys (add y s), member-add x y s)

member-remove_all :
    (x : String) (xs s : List String)
    → member x (remove_all xs s) ≡ (not (member x xs) && member x s)
unfolding remove_all member
member-remove_all x [] s = ground arith
member-remove_all x (y ∷ ys) s =
    ground (arith, member-remove_all x ys (remove y s), member-remove x y s)

-- A click on a permission's box flips that permission and no other.
pub member-toggle :
    (x id : String) (d : Dialog)
    → member x (toggle id d).selected_ids
      ≡ (if str_eq id x then not (member x d.selected_ids) else member x d.selected_ids)
unfolding toggle
member-toggle x id d =
    ground (arith, member-add x id d.selected_ids, member-remove x id d.selected_ids, eq_iff id x)

-- A click on a family's box checks the whole family, or, where all of it is checked, none of it, and
-- leaves the other families alone.
pub member-toggle_family :
    (x : String) (ids : List String) (d : Dialog)
    → member x (toggle_family ids d).selected_ids
      ≡ (if member x ids then not (all_checked ids d.selected_ids) else member x d.selected_ids)
unfolding toggle_family
member-toggle_family x ids d =
    ground (arith, member-add_all x ids d.selected_ids, member-remove_all x ids d.selected_ids)

abbrev pub opened : Query → Dialog
opened q = record { query = q; selected_ids = []; initialized = false; saving = false }

abbrev pub of_family : String → List Permission → List Permission
of_family f ps = with_key (λ (p : Permission). p.family) f ps

comes_first-asym :
    (a b : String × List Permission) → comes_first a b ≡ true → comes_first b a ≡ false
comes_first-asym a b h = ground arith

-- The families are shown by their place in `FAMILY_ORDER`, and those that it does not name last;
-- they are the groups of the permissions, and a group has exactly the permissions of its family, in
-- the order in which they come.
pub grouped-families :
    (ps : List Permission) (f : String)
    → InOrder comes_first (grouped ps)
      × Perm (grouped ps) (group ps)
      × (or_none (lookup f (group ps)) ≡ of_family f ps)
unfolding grouped lookup
grouped-families ps f = (
  sort-InOrder comes_first comes_first-asym (group ps),
  sort-perm comes_first (group ps),
  lookup-group_by (λ (p : Permission). p.family) f ps [],
)
