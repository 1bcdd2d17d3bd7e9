-- ===== src/Admin/Roles/Permissions.antt =====
-- admin/src/pages/roles.tsx: the choice of a role's permissions, `PermissionsDialog`.
pub mod Laws
pub mod Choice
use mansariya.Base.{
  ℕ, zero, suc, String, Bool, true, false, ◌&&◌, ◌||◌, not, Option, none, some, List, [], ◌∷◌, ◌++◌,
  map, arith, ltb, if◌then◌else◌, any, str_eq,
}
use mansariya.Base.Sets.{member, add, remove}
use mansariya.Base.Group.{group_by}
use mansariya.Base.Sort.{sort}

pub record Permission : Type 0 where
  pub id : String
  pub family : String
  pub name : String

-- The query of the role's permissions.
pub data Query : Type 0 where
  loading : Query
  failed : Query
  loaded : List Permission → Query

pub record Dialog : Type 0 where
  pub query : Query
  pub selected_ids : List String
  pub initialized : Bool
  pub saving : Bool

abbrev pub ids_of : List Permission → List String
ids_of ps = map (λ (p : Permission). p.id) ps

-- `new Set(ids)`
unfoldable pub add_all : List String → List String → List String
add_all [] s = s
add_all (x ∷ xs) s = add_all xs (add x s)

-- The effect on `[rolePermsQuery.data, initialized]`.
unfoldable pub initialize : Dialog → Dialog
initialize d = elim d.query [
  | loading ↦ d
  | failed ↦ d
  | loaded ps ↦
      if d.initialized
      then d
      else record d { selected_ids = add_all (ids_of ps) []; initialized = true }
]

abbrev pub handle_close : Dialog → Dialog
handle_close d = record d { initialized = false; selected_ids = [] }

-- The box of one permission.
unfoldable pub toggle : String → Dialog → Dialog
toggle id d = record d {
  selected_ids =
      if member id d.selected_ids then remove id d.selected_ids else add id d.selected_ids;
}

unfoldable pub all_checked : List String → List String → Bool
all_checked [] s = true
all_checked (x ∷ xs) s = member x s && all_checked xs s

abbrev pub some_checked : List String → List String → Bool
some_checked ids s = any (λ id. member id s) ids && not (all_checked ids s)

unfoldable pub remove_all : List String → List String → List String
remove_all [] s = s
remove_all (x ∷ xs) s = remove_all xs (remove x s)

-- The box of a family: it is computed with what is shown.
unfoldable pub toggle_family : List String → Dialog → Dialog
toggle_family ids d = record d {
  selected_ids =
      if all_checked ids d.selected_ids
      then remove_all ids d.selected_ids
      else add_all ids d.selected_ids;
}

-- What happens to an open dialog: a click on the box of a permission or of a family, and data of the
-- query, the first or new ones, after which the effect runs.
pub data Event : Type 0 where
  box : String → Event
  family : List String → Event
  arrived : List Permission → Event

unfoldable pub step : Event → Dialog → Dialog
unfolding toggle toggle_family initialize
step (box id) d = toggle id d
step (family ids) d = toggle_family ids d
step (arrived ps) d = initialize (record d { query = loaded ps })

unfoldable pub run : List Event → Dialog → Dialog
run [] d = d
run (e ∷ es) d = run es (step e d)

-- The button is off while a save or the query is under way.
abbrev pub is_loading : Query → Bool
is_loading loading = true
is_loading failed = false
is_loading (loaded ps) = false

unfoldable pub can_save : Dialog → Bool
can_save d = not (d.saving || is_loading d.query)

-- `setRolePermissions(role.id, Array.from(selectedIds))`
unfoldable pub save : Dialog → Option (List String) × Dialog
save d = if can_save d then (some d.selected_ids, record d { saving = true }) else (none, d)

abbrev pub on_saved : Dialog → Dialog
on_saved d = handle_close (record d { saving = false })

abbrev pub on_error : Dialog → Dialog
on_error d = record d { saving = false }

-- The permissions by family.
abbrev pub family_order : List String
family_order =
    "routes" ∷ "stops" ∷ "timetables" ∷ "map" ∷ "simulations" ∷ "data" ∷ "users" ∷ "system" ∷ []

-- `indexOf`, and 999 for what is not there; `i` counts.
unfoldable pub rank_from : ℕ → List String → String → ℕ
rank_from i [] f = 999
rank_from i (g ∷ gs) f = let rest = rank_from (suc i) gs f in if str_eq g f then i else rest

abbrev pub rank : String → ℕ
rank f = rank_from 0 family_order f

abbrev pub Groups : Type 0
Groups = List (String × List Permission)

abbrev pub group : List Permission → Groups
group ps = group_by (λ (p : Permission). p.family) ps []

abbrev pub comes_first : String × List Permission → String × List Permission → Bool
comes_first a b = ltb (rank a.0) (rank b.0)

unfoldable pub grouped : List Permission → Groups
grouped ps = sort comes_first (group ps)
