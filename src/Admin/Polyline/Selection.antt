-- ===== src/Admin/Polyline/Selection.antt =====
-- The selection stays within the polyline.
pub mod Indices
use mansariya.Base.{
  ℕ, zero, suc, ◌+◌, ◌-◌, ◌≤◌, ◌<◌, min, Bool, true, false, not, Option, none, some, List, [], ◌∷◌,
  length, set, take, drop, length-append, length-take, length-drop, select, ltb, ltb→lt, ◌==◌,
  if◌then◌else◌, All, All-append, All-mono, Option-cases, Bool-cases, ◌≡◌, inl, inr, refl, sym, ap,
  subst, arith,
}
use mansariya.Admin.Polyline.{
  Editor, Point, has, set_add, handle_undo, unsnoc, toggle_point, largest, max, add_range,
  select_range, handle_remove_selected, nearest, insert_at, handle_add_point, begin_rebuild,
  end_rebuild, handle_apply_preview, handle_point_drag, Rect, inside, indices_inside, add_all,
  box_select, select_all, handle_escape, RoutingAnswer,
}
use mansariya.Admin.Polyline.History.{
  Action, remove_selected, apply_preview, discard, all, escape, switch_mode, add_at, drag, toggle,
  extend, lasso, rebuild, answered, act,
}
use mansariya.Admin.Polyline.Selection.Indices.{
  Below, Below-mono, Below-select, Below-add, Below-add_range, Below-largest, Below-add_all,
  Below-inside, length-set, length-insert_at, extended_within,
}

-- Every selected index is that of a point.
abbrev pub Within : Editor → Type 0
Within e = Below (length e.working) e.selected_points

toggle-Within : (i : ℕ) (e : Editor) → i < length e.working → Within e → Within (toggle_point i e)
unfolding toggle_point
toggle-Within i e h v = elim (Bool-cases (has e.selected_points i)) [
  | inl old ↦ rw old (Below-select (length e.working) (λ j. not (j == i)) e.selected_points v)
  | inr new ↦ rw new (All-append (λ j. j < length e.working) e.selected_points (i ∷ []) v (h, tt))
]

extend-Within : (i : ℕ) (e : Editor) → i < length e.working → Within e → Within (select_range i e)
unfolding select_range
extend-Within i e h v = extended_within (length e.working) i e.selected_points h v

apply-Within : (e : Editor) → Within e → Within (handle_apply_preview e)
unfolding handle_apply_preview
apply-Within e v = elim (Option-cases e.preview) [
  | inl none_shown ↦ rw (none_shown, handle_apply_preview) v
  | inr (coords, shown) ↦ rw (shown, handle_apply_preview) tt
]

-- What leaves the polyline and the selection as they are.
same_selection :
    (e f : Editor)
    → f.working ≡ e.working
    → f.selected_points ≡ e.selected_points
    → Within e
    → Within f
same_selection e f w p v =
    subst (λ ps. Below (length ps) f.selected_points) (sym w)
      (subst (Below (length e.working)) (sym p) v)

rebuilt-Within : (a : Option RoutingAnswer) (e : Editor) → Within e → Within (end_rebuild a e)
unfolding end_rebuild
rebuilt-Within none e v = v
rebuilt-Within (some a) e v =
    same_selection e (end_rebuild (some a) e) (ground arith) (ground arith) v

rebuild-Within : (n : ℕ) (e : Editor) → Within e → Within (begin_rebuild n e)
unfolding begin_rebuild
rebuild-Within n e v = same_selection e (begin_rebuild n e) (ground arith) (ground arith) v

escape-Within : (e : Editor) → Within e → Within (handle_escape e)
unfolding handle_escape
escape-Within e v = elim (Bool-cases (ltb 0 (length e.selected_points))) [
  | inl chosen ↦ rw (chosen, handle_escape) tt
  | inr none_chosen ↦ rw (none_chosen, handle_escape) v
]

all-Within : (e : Editor) → Within (select_all e)
unfolding select_all
all-Within e = elim (Bool-cases (length e.selected_points == length e.working)) [
  | inl chosen ↦ rw (chosen, select_all) tt
  | inr some_left ↦
      rw (some_left, select_all)
        (Below-add_range (length e.working) (length e.working) 0 [] (omega arith) tt)
]

removed-Within : (e : Editor) → Within e → Within (handle_remove_selected e)
unfolding handle_remove_selected
removed-Within e v = elim (Bool-cases (length e.selected_points == 0)) [
  | inl none_chosen ↦ rw (none_chosen, handle_remove_selected) v
  | inr chosen ↦ rw (chosen, handle_remove_selected) tt
]

added-Within : (p : Point) (e : Editor) → Within e → Within (handle_add_point p e)
unfolding handle_add_point
added-Within p e v =
    let at_index = nearest p 0 none 0 e.working + 1 in
    Below-mono (length e.working) (length (insert_at at_index p e.working)) e.selected_points
      (length-insert_at at_index p e.working) v

dragged-Within : (i : ℕ) (p : Point) (e : Editor) → Within e → Within (handle_point_drag i p e)
unfolding handle_point_drag
dragged-Within i p e v = subst (λ n. Below n e.selected_points) (sym (length-set e.working i p)) v

history-Within :
    (e : Editor) (h : List (List Point))
    → Within e
    → Within (elim h [
      | [] ↦ e
      | x ∷ xs ↦
          let (front, last) = unsnoc x xs in
          record e { working = last; selected_points = []; history = front }
    ])
history-Within e [] v = v
history-Within e (x ∷ xs) v = tt

undone-Within : (e : Editor) → Within e → Within (handle_undo e)
unfolding handle_undo
undone-Within e v = history-Within e e.history v

-- A click is on the marker of a point, so its index is within the polyline.
abbrev pub is_on_marker : Action → Editor → Bool
is_on_marker (toggle i) e = ltb i (length e.working)
is_on_marker (extend i) e = ltb i (length e.working)
is_on_marker _ e = true

act-Within : (a : Action) (e : Editor) → is_on_marker a e ≡ true → Within e → Within (act a e)
unfolding act box_select
act-Within remove_selected e on v = removed-Within e v
act-Within apply_preview e on v = apply-Within e v
act-Within discard e on v = v
act-Within all e on v = all-Within e
act-Within escape e on v = escape-Within e v
act-Within switch_mode e on v = v
act-Within (add_at p) e on v = added-Within p e v
act-Within (drag i p) e on v = dragged-Within i p e v
act-Within (toggle i) e on v = toggle-Within i e (ltb→lt i (length e.working) on) v
act-Within (extend i) e on v = extend-Within i e (ltb→lt i (length e.working) on) v
act-Within (lasso project r) e on v =
    Below-add_all (length e.working) (indices_inside project r 0 e.working) e.selected_points
      (Below-inside (length e.working) project r 0 e.working (omega arith)) v
act-Within (rebuild n) e on v = rebuild-Within n e v
act-Within (answered a) e on v = rebuilt-Within a e v

-- What the user does: an action, where a click on a point is on its marker, or an undo.
pub data Move : Type 0 where
  acts : Action → Move
  undoes : Move

unfoldable pub move : Move → Editor → Editor
move (acts a) e = if is_on_marker a e then act a e else e
move undoes e = handle_undo e

unfoldable pub moves : List Move → Editor → Editor
moves [] e = e
moves (m ∷ rest) e = moves rest (move m e)

on_marker-Within :
    (a : Action) (e : Editor) (on : Bool)
    → is_on_marker a e ≡ on
    → Within e
    → Within (if on then act a e else e)
on_marker-Within a e true h v = act-Within a e h v
on_marker-Within a e false h v = v

move-Within : (m : Move) (e : Editor) → Within e → Within (move m e)
unfolding move
move-Within (acts a) e v = on_marker-Within a e (is_on_marker a e) refl v
move-Within undoes e v = undone-Within e v

-- Whatever the user does, undoing included, every selected index is that of a point of the polyline.
pub moves-Within : (ms : List Move) (e : Editor) → Within e → Within (moves ms e)
unfolding moves
moves-Within [] e v = v
moves-Within (m ∷ rest) e v = moves-Within rest (move m e) (move-Within m e v)
