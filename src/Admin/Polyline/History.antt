-- ===== src/Admin/Polyline/History.antt =====
-- The undo history of the polyline editor: what is kept, and what undoing gives back.
use mansariya.Base.{
  ℕ, zero, suc, ◌+◌, ◌-◌, ◌≤◌, ◌≡◌, refl, sym, ap, ◌∙◌, subst, Bool, true, false, Option, List, [],
  ◌∷◌, ◌++◌, length, drop, take_last, ltb, if◌then◌else◌, length-append, append_assoc, drop-append,
  arith, Bool-cases, inl, inr,
}
use mansariya.Admin.Polyline.Snoc.{
  unsnoc-append, front, front-snoc, front-append, length-unsnoc, final, final-snoc, take_last-snoc,
  List-cases,
}
use mansariya.Admin.Polyline.{
  Editor, Point, Rect, RoutingAnswer, push_history, handle_undo, toggle_point, select_range,
  handle_remove_selected, handle_add_point, begin_rebuild, end_rebuild, handle_apply_preview,
  discard_preview, handle_point_drag, box_select, select_all, handle_escape, toggle_mode, is_some,
}

-- What a user does between two undos.
pub data Action : Type 0 where
  remove_selected apply_preview discard all escape switch_mode : Action
  add_at : Point → Action
  drag : ℕ → Point → Action
  toggle extend : ℕ → Action
  lasso : (Point → Point) → Rect → Action
  rebuild : ℕ → Action
  answered : Option RoutingAnswer → Action

unfoldable pub act : Action → Editor → Editor
act remove_selected e = handle_remove_selected e
act apply_preview e = handle_apply_preview e
act discard e = discard_preview e
act all e = select_all e
act escape e = handle_escape e
act switch_mode e = record e { mode = toggle_mode e.mode }
act (add_at p) e = handle_add_point p e
act (drag i p) e = handle_point_drag i p e
act (toggle i) e = toggle_point i e
act (extend i) e = select_range i e
act (lasso project r) e = box_select project r e
act (rebuild n) e = begin_rebuild n e
act (answered a) e = end_rebuild a e

-- Whether an action changes the polyline, so that it can be undone.
abbrev pub is_edit : Action → Editor → Bool
is_edit remove_selected e = ltb 0 (length e.selected_points)
is_edit apply_preview e = is_some e.preview
is_edit (add_at p) e = true
is_edit (drag i p) e = true
is_edit _ e = false

unfoldable pub act_all : List Action → Editor → Editor
act_all [] e = e
act_all (a ∷ more) e = act_all more (act a e)

unfoldable pub edits : List Action → Editor → ℕ
edits [] e = 0
edits (a ∷ more) e = let rest = edits more (act a e) in if is_edit a e then suc rest else rest

unfoldable pub undo_times : ℕ → Editor → Editor
undo_times zero e = e
undo_times (suc n) e = undo_times n (handle_undo e)

-- Every version that is kept, the current one last.
abbrev pub timeline : Editor → List (List Point)
timeline e = e.history ++ e.working ∷ []

-- k undos before the present, the polyline was w.
unfoldable pub WasBefore : List Point → ℕ → Editor → Type 0
WasBefore w k e =
    (older : List (List Point)) × (newer : List (List Point)) × (timeline e ≡ older ++ w ∷ newer)
    × (length newer ≡ k)

undo-timeline : (e : Editor) (h : 1 ≤ length e.history) → timeline (handle_undo e) ≡ e.history
unfolding handle_undo
undo-timeline e h = elim (List-cases e.history) [
  | inl n ↦ absurd (ground (arith, n))
  | inr (x, xs, c) ↦ rw (c, handle_undo) (unsnoc-append x xs)
]

-- What an edit makes of the timeline: the new version is added and the oldest go.
abbrev Extends : Editor → Editor → Type 0
Extends e e' = timeline e' ≡ (take_last 10 e.history ++ e.working ∷ []) ++ e'.working ∷ []

act-Extends : (a : Action) (e : Editor) → is_edit a e ≡ true → Extends e (act a e)
unfolding act handle_remove_selected push_history handle_apply_preview handle_add_point
    handle_point_drag
act-Extends remove_selected e h = ground arith
act-Extends apply_preview e h = ground arith
act-Extends discard e h = ground arith
act-Extends all e h = ground arith
act-Extends escape e h = ground arith
act-Extends switch_mode e h = ground arith
act-Extends (add_at p) e h = refl
act-Extends (drag i p) e h = refl
act-Extends (toggle i) e h = ground arith
act-Extends (extend i) e h = ground arith
act-Extends (lasso f r) e h = ground arith
act-Extends (rebuild n) e h = ground arith
act-Extends (answered a) e h = ground arith

act-keeps : (a : Action) (e : Editor) → is_edit a e ≡ false → timeline (act a e) ≡ timeline e
unfolding act handle_remove_selected push_history handle_apply_preview select_all handle_escape
    toggle_point select_range box_select begin_rebuild end_rebuild
act-keeps remove_selected e h = ground arith
act-keeps apply_preview e h = ground arith
act-keeps discard e h = refl
act-keeps all e h = refl
act-keeps escape e h = ground arith
act-keeps switch_mode e h = refl
act-keeps (add_at p) e h = ground arith
act-keeps (drag i p) e h = ground arith
act-keeps (toggle i) e h = refl
act-keeps (extend i) e h = refl
act-keeps (lasso f r) e h = refl
act-keeps (rebuild n) e h = ground arith
act-keeps (answered a) e h = ground arith

-- An edit makes every version one undo older, as long as it is among the eleven that are kept.
act-WasBefore :
    (w : List Point) (k : ℕ) (a : Action) (e : Editor)
    → is_edit a e ≡ true
    → suc k ≤ 11
    → WasBefore w k e
    → WasBefore w (suc k) (act a e)
unfolding WasBefore
act-WasBefore w k a e t h (older, newer, c, n) =
    let e' = act a e in
    let m = length (older ++ w ∷ newer) - 11 in
    let trimmed =
      ap (take_last 11) c
      ∙ drop-append m older (w ∷ newer) (omega (arith, length-append older (w ∷ newer))) in
    (
      drop m older,
      newer ++ e'.working ∷ [],
      act-Extends a e t
          ∙ ap (◌++ e'.working ∷ []) (take_last-snoc e.history e.working ∙ trimmed)
          ∙ append_assoc (drop m older) (w ∷ newer) (e'.working ∷ []),
      omega (arith, length-append newer (e'.working ∷ [])),
    )

handle_undo-WasBefore :
    (w : List Point) (k : ℕ) (e : Editor) → WasBefore w (suc k) e → WasBefore w k (handle_undo e)
unfolding WasBefore
handle_undo-WasBefore w k e (older, [], c, n) = absurd (omega arith)
handle_undo-WasBefore w k e (older, y ∷ ys, c, n) =
    let lengths : length (timeline e) ≡ length (older ++ w ∷ y ∷ ys) = ap length c in
    let kept : 1 ≤ length e.history = omega (
      arith,
      lengths,
      length-append older (w ∷ y ∷ ys),
      length-append e.history (e.working ∷ []),
    ) in
    (
      older,
      front (y ∷ ys),
      undo-timeline e kept
          ∙ sym (front-snoc e.history e.working)
          ∙ ap front c
          ∙ front-append older w (y ∷ ys),
      length-unsnoc y ys ∙ omega arith,
    )

undo_times-WasBefore :
    (w : List Point) (k : ℕ) (e : Editor) → WasBefore w k e → (undo_times k e).working ≡ w
unfolding undo_times WasBefore
undo_times-WasBefore w zero e (older, [], c, n) =
    sym (final-snoc w e.history e.working) ∙ ap (final w) c ∙ final-snoc w older w
undo_times-WasBefore w zero e (older, y ∷ ys, c, n) = absurd (omega arith)
undo_times-WasBefore w (suc k) e h =
    undo_times-WasBefore w k (handle_undo e) (handle_undo-WasBefore w k e h)

keep-WasBefore :
    (w : List Point) (k : ℕ) (a : Action) (e : Editor)
    → is_edit a e ≡ false
    → WasBefore w k e
    → WasBefore w k (act a e)
unfolding WasBefore
keep-WasBefore w k a e t (older, newer, c, n) = (older, newer, act-keeps a e t ∙ c, n)

act_all-WasBefore :
    (w : List Point) (k : ℕ) (actions : List Action) (e : Editor)
    → k + edits actions e ≤ 11
    → WasBefore w k e
    → WasBefore w (k + edits actions e) (act_all actions e)
unfolding act_all edits
act_all-WasBefore w k [] e h b = subst (λ n. WasBefore w n e) (omega arith) b
act_all-WasBefore w k (a ∷ more) e h b = elim (Bool-cases (is_edit a e)) [
  | inl t ↦
      let n = edits more (act a e) in
      let bound : suc k + n ≤ 11 = ground (arith, h, t) in
      rw t (
        subst (λ j. WasBefore w j (act_all more (act a e))) (omega arith)
          (act_all-WasBefore w (suc k) more (act a e) bound
            (act-WasBefore w k a e t (omega arith) b)))
  | inr t ↦
      let n = edits more (act a e) in
      let bound : k + n ≤ 11 = ground (arith, h, t) in
      rw t (act_all-WasBefore w k more (act a e) bound (keep-WasBefore w k a e t b))
]

now-WasBefore : (e : Editor) → WasBefore e.working 0 e
unfolding WasBefore
now-WasBefore e = (e.history, [], refl, refl)

-- After any actions of which at most eleven changed the polyline, as many undos give back the
-- polyline that was there before the actions.
pub undo_times-act_all :
    (actions : List Action) (e : Editor)
    → edits actions e ≤ 11
    → (undo_times (edits actions e) (act_all actions e)).working ≡ e.working
undo_times-act_all actions e h =
    undo_times-WasBefore e.working (edits actions e) (act_all actions e) (
      subst (λ n. WasBefore e.working n (act_all actions e)) (omega arith)
        (act_all-WasBefore e.working 0 actions e (omega arith) (now-WasBefore e)))
