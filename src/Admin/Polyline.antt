-- ===== src/Admin/Polyline.antt =====
-- admin/src/components/polyline-editor.tsx: the editor of a route's polyline. Coordinates are
-- fixed-point numbers, longitude first.
mod Snoc
pub mod History
pub mod Nearest
pub mod Selection
mod Tests
use mansariya.Base.{
  ℕ, zero, suc, ◌+◌, ◌-◌, ◌*◌, min, Bool, true, false, ◌&&◌, ◌||◌, not, Option, none, some, List,
  [], ◌∷◌, ◌++◌, length, set, take, drop, take_last, any, select, ltb, leb, ◌==◌, if◌then◌else◌,
}
use mansariya.Base.Int.{ℤ, ◌-ℤ◌, square, leb_ℤ, ltb_ℤ}

abbrev pub Point : Type 0
Point = ℤ × ℤ

pub data Mode : Type 0 where
  select_mode add idle : Mode

-- `history` has its oldest polyline first; `selected_points` is a set in insertion order.
pub record Editor : Type 0 where
  pub working : List Point
  pub preview : Option (List Point)
  pub selected_points : List ℕ
  pub mode : Mode
  pub show_points : Bool
  pub is_rebuilding : Bool
  pub has_changes : Bool
  pub history : List (List Point)

abbrev pub open_editor : List Point → Editor
open_editor polyline = record {
  working = polyline;
  preview = none;
  selected_points = [];
  mode = idle;
  show_points = true;
  is_rebuilding = false;
  has_changes = false;
  history = [];
}

-- `Set<number>`
abbrev pub has : List ℕ → ℕ → Bool
has s i = any (λ j. j == i) s

abbrev pub set_add : ℕ → List ℕ → List ℕ
set_add i s = if has s i then s else s ++ i ∷ []

abbrev pub set_delete : ℕ → List ℕ → List ℕ
set_delete i s = select (λ j. not (j == i)) s

unfoldable pub push_history : Editor → Editor
push_history e = record e { history = take_last 10 e.history ++ e.working ∷ [] }

-- The last element and the others.
abbrev pub unsnoc {ℓ} : {A : Type ℓ} → A → List A → List A × A
unsnoc x [] = ([], x)
unsnoc x (y ∷ ys) = let (front, last) = unsnoc y ys in (x ∷ front, last)

unfoldable pub handle_undo : Editor → Editor
handle_undo e = elim e.history [
  | [] ↦ e
  | x ∷ xs ↦
      let (front, last) = unsnoc x xs in
      record e { working = last; selected_points = []; history = front }
]

unfoldable pub toggle_point : ℕ → Editor → Editor
toggle_point i e = record e {
  selected_points =
      if has e.selected_points i
      then set_delete i e.selected_points
      else e.selected_points ++ i ∷ [];
}

abbrev max : ℕ → ℕ → ℕ
max a b = if ltb a b then b else a

-- The last of the sorted selection.
abbrev pub largest : ℕ → List ℕ → ℕ
largest m [] = m
largest m (i ∷ s) = largest (max m i) s

-- `for (let i = start; i <= end; i++) next.add(i)`, by the number of rounds.
unfoldable pub add_range : ℕ → ℕ → List ℕ → List ℕ
add_range zero i s = s
add_range (suc n) i s = add_range n (i + 1) (set_add i s)

unfoldable pub select_range : ℕ → Editor → Editor
unfolding add_range
select_range i e = record e {
  selected_points = elim e.selected_points [
    | [] ↦ i ∷ []
    | j ∷ s ↦
        let last = largest j s in
        let start = min last i in add_range (max last i + 1 - start) start (j ∷ s)
  ];
}

-- `filter((_, i) => !selected.has(i))`, from the index `i` on.
unfoldable pub unselected : List ℕ → ℕ → List Point → List Point
unselected s i [] = []
unselected s i (p ∷ ps) = let rest = unselected s (i + 1) ps in if has s i then rest else p ∷ rest

unfoldable pub handle_remove_selected : Editor → Editor
unfolding push_history
handle_remove_selected e = if length e.selected_points == 0 then e else record (push_history e) {
  working = unselected e.selected_points 0 e.working;
  selected_points = [];
  has_changes = true;
}

abbrev pub distance : Point → Point → ℕ
distance p q = square (p.0 -ℤ q.0) + square (p.1 -ℤ q.1)

-- The loop that looks for the nearest point, from the index `i` on; `none` is `Infinity`.
abbrev pub is_nearer : ℕ → Option ℕ → Bool
is_nearer d none = true
is_nearer d (some m) = ltb d m

unfoldable pub nearest : Point → ℕ → Option ℕ → ℕ → List Point → ℕ
nearest p best best_dist i [] = best
nearest p best best_dist i (q ∷ qs) =
    let d = distance q p in
    nearest p (if is_nearer d best_dist then i else best)
      (if is_nearer d best_dist then some d else best_dist) (i + 1) qs

-- `splice(i, 0, p)`; an index past the end inserts at the end.
unfoldable pub insert_at : ℕ → Point → List Point → List Point
insert_at i p ps = take i ps ++ p ∷ drop i ps

unfoldable pub handle_add_point : Point → Editor → Editor
unfolding push_history insert_at
handle_add_point p e = record (push_history e) {
  working = insert_at (nearest p 0 none 0 e.working + 1) p e.working;
  has_changes = true;
  mode = idle;
}

-- The stops, and the answer of the routing service: its code is `Ok`, and the polylines of its
-- routes.
pub record RoutingAnswer : Type 0 where
  pub code_ok : Bool
  pub routes : List (List Point)

unfoldable pub begin_rebuild : ℕ → Editor → Editor
begin_rebuild stop_count e = if ltb stop_count 2 then e else record e { is_rebuilding = true }

unfoldable pub end_rebuild : Option RoutingAnswer → Editor → Editor
end_rebuild none e = record e { is_rebuilding = false }
end_rebuild (some answer) e = elim answer.routes [
  | [] ↦ record e { is_rebuilding = false }
  | coords ∷ _ ↦
      if answer.code_ok
      then record e { is_rebuilding = false; preview = some coords }
      else record e { is_rebuilding = false }
]

unfoldable pub handle_apply_preview : Editor → Editor
unfolding push_history
handle_apply_preview e = elim e.preview [
  | none ↦ e
  | some coords ↦ record (push_history e) {
    working = coords;
    preview = none;
    selected_points = [];
    has_changes = true;
  }
]

abbrev pub discard_preview : Editor → Editor
discard_preview e = record e { preview = none }

-- The index is that of a marker, so it is within the polyline.
unfoldable pub handle_point_drag : ℕ → Point → Editor → Editor
unfolding push_history
handle_point_drag i p e = record (push_history e) {
  working = set e.working i p;
  has_changes = true;
}

-- A rectangle of the screen, and the indices of the points that the map shows inside it.
pub record Rect : Type 0 where
  pub left : ℤ
  pub right : ℤ
  pub top : ℤ
  pub bottom : ℤ

abbrev pub inside : Rect → ℤ × ℤ → Bool
inside r s = leb_ℤ r.left s.0 && leb_ℤ s.0 r.right && (leb_ℤ r.top s.1 && leb_ℤ s.1 r.bottom)

unfoldable pub indices_inside : (Point → ℤ × ℤ) → Rect → ℕ → List Point → List ℕ
indices_inside project r i [] = []
indices_inside project r i (p ∷ ps) =
    let rest = indices_inside project r (i + 1) ps in
    if inside r (project p) then i ∷ rest else rest

abbrev pub add_all : List ℕ → List ℕ → List ℕ
add_all [] s = s
add_all (i ∷ is) s = add_all is (set_add i s)

unfoldable pub box_select : (Point → ℤ × ℤ) → Rect → Editor → Editor
unfolding indices_inside
box_select project r e = record e {
  selected_points = add_all (indices_inside project r 0 e.working) e.selected_points;
}

-- The buttons and the keys that do not type into a field.
unfoldable pub select_all : Editor → Editor
unfolding add_range
select_all e = record e {
  selected_points =
      if length e.selected_points == length e.working
      then []
      else add_range (length e.working) 0 [];
}

unfoldable pub handle_escape : Editor → Editor
handle_escape e =
    if ltb 0 (length e.selected_points)
    then record e { selected_points = [] }
    else record e { mode = idle }

abbrev pub toggle_mode : Mode → Mode
toggle_mode add = idle
toggle_mode _ = add

abbrev pub is_some {ℓ} : {A : Type ℓ} → Option A → Bool
is_some none = false
is_some (some a) = true

-- `Ctrl+S`: what is handed to `onSave`, if anything.
unfoldable pub save_key : Bool → Editor → Option (List Point)
save_key is_saving e =
    if e.has_changes && not is_saving && not (is_some e.preview) then some e.working else none
