-- ===== src/Admin/Polyline/Tests.antt =====
-- Tests and examples of the polyline editor, on a polyline of three points.
use mansariya.Admin.Polyline.Selection.{Within, acts, undoes, moves, moves-Within}
use mansariya.Base.{ℕ, ◌≤◌, ◌≡◌, refl, none, List, [], ◌∷◌, ◌++◌, All, arith}
use mansariya.Base.Int.{pos, ◌-ℤ◌}
use mansariya.Admin.Polyline.{Editor, Point, open_editor, distance, nearest, handle_add_point}
use mansariya.Admin.Polyline.History.{
  Action, toggle, extend, remove_selected, add_at, drag, escape, act_all, edits, undo_times,
  undo_times-act_all,
}
use mansariya.Admin.Polyline.Nearest.{handle_add_point-nearest}

abbrev at : ℕ → ℕ → Point
at x y = (pos x, pos y)

abbrev points : List Point
points = at 0 0 ∷ at 10 0 ∷ at 20 0 ∷ []

abbrev editor : Editor
editor = record (open_editor points) { selected_points = 2 ∷ [] }

abbrev actions : List Action
actions = remove_selected ∷ add_at (at 9 1) ∷ toggle 0 ∷ drag 1 (at 5 5) ∷ escape ∷ []

edits_counted : edits actions editor ≡ 3
unfolding edits
edits_counted = refl

undo_times-act_all_example :
    (undo_times (edits actions editor) (act_all actions editor)).working ≡ points
undo_times-act_all_example = undo_times-act_all actions editor (omega (arith, edits_counted))

handle_add_point-nearest_example :
    (before : List Point) × (q : Point) × (after : List Point) × (points ≡ before ++ q ∷ after)
    × ((handle_add_point (at 9 1) editor).working ≡ before ++ q ∷ at 9 1 ∷ after)
    × All (λ t. distance q (at 9 1) ≤ distance t (at 9 1)) points
    × ((handle_add_point (at 9 1) editor).history ≡ points ∷ [])
handle_add_point-nearest_example =
    handle_add_point-nearest (at 9 1) (at 0 0) (at 10 0 ∷ at 20 0 ∷ []) editor refl

nearest_middle : nearest (at 9 1) 0 none 0 points ≡ 1
unfolding nearest ◌-ℤ◌
nearest_middle = refl

moves-Within_example : Within (
    moves
      (acts (toggle 0)
        ∷ acts (drag 1 (at 4 4))
        ∷ acts remove_selected
        ∷ undoes
        ∷ acts (extend 1)
        ∷ [])
      editor)
moves-Within_example =
    moves-Within
      (acts (toggle 0)
        ∷ acts (drag 1 (at 4 4))
        ∷ acts remove_selected
        ∷ undoes
        ∷ acts (extend 1)
        ∷ [])
      editor (omega arith, tt)
