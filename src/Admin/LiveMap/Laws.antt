-- ===== src/Admin/LiveMap/Laws.antt =====
-- What the page shows after a choice.
use mansariya.Base.{
  get_elem?-below, Bool-cases, inl, inr, ℕ, suc, ◌<◌, ◌%◌, String, Bool, true, false, ◌&&◌, not,
  some, List, [], ◌∷◌, length, if◌then◌else◌, str_eq, eq_iff, ◌≡◌, refl, arith,
}
use mansariya.Base.Sets.{member, add, member-add, member-remove, is_distinct, is_distinct-add}
use mansariya.Base.Dict.{lookup}
use mansariya.Base.Group.{or_none, with_key, lookup-group_by}
use mansariya.Base.Sort.{InOrder, sort-perm, sort-InOrder}
use mathlib.Core.List.{Perm}
use mansariya.Admin.LiveMap.{
  Vehicle, Page, buses_by_route, route_colors, busier, sorted_routes, flip, toggle_classification,
  classifications, sync, wanted, on_value_change, add_route, index_of, get_route_color,
}

member-flip :
    (x y : String) (s : List String)
    → member x (flip y s) ≡ (if str_eq y x then not (member x s) else member x s)
unfolding flip
member-flip x y s = ground (arith, member-add x y s, member-remove x y s, eq_iff y x)

differ : String → List String → List String → Bool
differ x next shown = if member x next then not (member x shown) else member x shown

member-sync :
    (x : String) (ks next shown : List String) (p : Page)
    → is_distinct ks ≡ true
    → member x (sync ks next shown p).visible_classifications ≡ (
        if member x ks && differ x next shown
        then not (member x p.visible_classifications)
        else member x p.visible_classifications)
unfolding sync toggle_classification member differ
member-sync x [] next shown p d = refl
member-sync x (k ∷ ks) next shown p d = ground (
  arith,
  member-sync x ks next shown p,
  member-sync x ks next shown (toggle_classification k p),
  member-flip x k p.visible_classifications,
  eq_iff k x,
)

distinct : is_distinct classifications ≡ true
unfolding member
distinct = refl

-- After a choice in the group of classifications exactly the chosen ones are shown, and all four
-- after an empty choice, whatever was shown before.
pub on_value_change-member :
    (x : String) (values : List String) (p : Page)
    → member x classifications ≡ true
    → member x (on_value_change values p).visible_classifications ≡ member x (wanted values)
unfolding on_value_change differ
on_value_change-member x values p h =
    ground
      (arith, h, member-sync x classifications (wanted values) p.visible_classifications p distinct)

busier-asym : (a b : String × List Vehicle) → busier a b ≡ true → busier b a ≡ false
busier-asym a b h = ground arith

-- The list of routes has the routes with most buses first; it is the groups of the buses, and a
-- route's group has exactly the buses of that route, in the order in which they come.
pub sorted_routes-groups :
    (buses : List Vehicle) (r : String)
    → InOrder busier (sorted_routes buses)
      × Perm (sorted_routes buses) (buses_by_route buses)
      × (or_none (lookup r (buses_by_route buses)) ≡ with_key (λ (v : Vehicle). v.route_id) r buses)
unfolding sorted_routes lookup
sorted_routes-groups buses r = (
  sort-InOrder busier busier-asym (buses_by_route buses),
  sort-perm busier (buses_by_route buses),
  lookup-group_by (λ (v : Vehicle). v.route_id) r buses [],
)

index_of-member :
    (x : String) (s : List String)
    → member x s ≡ true
    → (i : ℕ) × (index_of x s ≡ some i) × (i < length s)
unfolding member index_of
index_of-member x [] h = ground arith
index_of-member x (y ∷ ys) h = elim (Bool-cases (str_eq y x)) [
  | inl e ↦ (0, ground (arith, e), omega arith)
  | inr e ↦
      let (i, found, below) = index_of-member x ys (ground (arith, e)) in
      (suc i, ground (arith, e, found), omega arith)
]

-- A route that was added is shown, and has a colour; no route is shown twice.
pub add_route-color :
    (id : String) (p : Page)
    → is_distinct p.selected_routes ≡ true
    → (member id (add_route id p).selected_routes ≡ true)
      × (is_distinct (add_route id p).selected_routes ≡ true)
      × ((c : String) × (get_route_color id (add_route id p) ≡ some c))
unfolding add_route get_route_color
add_route-color id p d =
    let shown : member id (add id p.selected_routes) ≡ true =
      ground (arith, member-add id id p.selected_routes, eq_iff id id) in
    let (i, found, below) = index_of-member id (add id p.selected_routes) shown in
    let (c, colored) = get_elem?-below route_colors (i % 8) (omega arith) in
    (shown, is_distinct-add id p.selected_routes d, (c, ground (arith, found, colored)))
