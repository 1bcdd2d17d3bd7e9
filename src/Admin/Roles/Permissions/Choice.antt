-- ===== src/Admin/Roles/Permissions/Choice.antt =====
-- What the permissions dialog of admin/src/pages/roles.tsx promises: the choice as a predicate, and as
-- a set whose order is forgotten.
use mathlib.Core.Quot
use mathlib.Core.Quot.{Quot, Quot-set}
use mansariya.Base.{
  String, Bool, true, false, not, some, List, [], ◌∷◌, map, all, str_eq, if◌then◌else◌, ◌≡◌, refl,
  sym, ap, ◌∙◌, fun_ext, arith,
}
use mansariya.Base.Sets.{member}
use mansariya.Admin.Roles.Permissions.{
  add_all, Query, loading, failed, loaded, Dialog, Event, box, family, arrived, ids_of, step, run,
  all_checked, initialize, save, can_save, is_loading,
}
use mansariya.Admin.Roles.Permissions.Laws.{
  member-toggle, member-toggle_family, member-add_all, opened,
}

-- The choice as the user sees it: whether the permissions of the role have come, and which
-- permissions are wanted.
pub record View : Type 0 where
  pub has_come : Bool
  pub wants : String → Bool

abbrev pub see : Event → View → View
see (box id) v = record v { wants = λ x. if str_eq id x then not (v.wants x) else v.wants x }
see (family ids) v = record v {
  wants = λ x. if member x ids then not (all v.wants ids) else v.wants x;
}
see (arrived ps) v =
    if v.has_come then v else record { has_come = true; wants = λ x. member x (ids_of ps) }

abbrev pub see_all : List Event → View → View
see_all [] v = v
see_all (e ∷ es) v = see_all es (see e v)

abbrev pub view : Dialog → View
view d = record { has_come = d.initialized; wants = λ x. member x d.selected_ids }

all_checked-all : (ids s : List String) → all_checked ids s ≡ all (λ x. member x s) ids
unfolding all_checked
all_checked-all [] s = refl
all_checked-all (x ∷ ids) s = ground (arith, all_checked-all ids s)

-- What an event does to the dialog is what it does to the choice as the user sees it.
wants-step :
    (x : String) (e : Event) (d : Dialog)
    → member x (step e d).selected_ids ≡ (see e (view d)).wants x
unfolding step member
wants-step x (box id) d = member-toggle x id d
wants-step x (family ids) d =
    ground (arith, member-toggle_family x ids d, all_checked-all ids d.selected_ids)
wants-step x (arrived ps) d = ground (arith, member-add_all x (ids_of ps) [])

has_come-step : (e : Event) (d : Dialog) → (step e d).initialized ≡ (see e (view d)).has_come
unfolding step
has_come-step (box id) d = refl
has_come-step (family ids) d = refl
has_come-step (arrived ps) d = ground arith

view-step : (e : Event) (d : Dialog) → view (step e d) ≡ see e (view d)
view-step e d =
    λ i. record { has_come = has_come-step e d i; wants = fun_ext (λ x. wants-step x e d) i }

view-run : (es : List Event) (d : Dialog) → view (run es d) ≡ see_all es (view d)
unfolding run
view-run [] d = refl
view-run (e ∷ es) d = view-run es (step e d) ∙ ap (see_all es) (view-step e d)

can_save-run : (es : List Event) (d : Dialog) → can_save d ≡ true → can_save (run es d) ≡ true
unfolding run step can_save
can_save-run [] d h = h
can_save-run (box id ∷ es) d h = can_save-run es (step (box id) d) h
can_save-run (family ids ∷ es) d h = can_save-run es (step (family ids) d) h
can_save-run (arrived ps ∷ es) d h = can_save-run es (step (arrived ps) d) (ground (arith, h))

-- What a dialog shows when the query has been answered.
abbrev pub first_view : Query → View
first_view (loaded ps) = record { has_come = true; wants = λ x. member x (ids_of ps) }
first_view _ = record { has_come = false; wants = λ x. false }

view-opened : (q : Query) → view (initialize (opened q)) ≡ first_view q
unfolding initialize member
view-opened loading = refl
view-opened failed = refl
view-opened (loaded ps) =
    λ i. record { has_come = true; wants = fun_ext (λ (x : String). saved x) i }
  where
    saved : (x : String) → member x (add_all (ids_of ps) []) ≡ member x (ids_of ps)
    saved x = ground (arith, member-add_all x (ids_of ps) [])

can_save-opened : (q : Query) → is_loading q ≡ false → can_save (initialize (opened q)) ≡ true
unfolding initialize can_save
can_save-opened loading h = cc
can_save-opened failed h = refl
can_save-opened (loaded ps) h = refl

-- Once the query of the role's permissions was answered, and after any clicks on the boxes of
-- permissions and of families and any further data of the query, the button saves exactly the
-- permissions that the user sees as wanted: those of the role, as the clicks changed them, whatever
-- data came later; and where the query failed, only what the clicks have chosen since, until data
-- comes and takes the place of those clicks.
pub save-run :
    (q : Query) (es : List Event)
    → is_loading q ≡ false
    → (chosen : List String) × ((save (run es (initialize (opened q)))).0 ≡ some chosen)
      × ((x : String) → member x chosen ≡ (see_all es (first_view q)).wants x)
unfolding save
save-run q es h =
    let d = initialize (opened q) in
    (
      (run es d).selected_ids,
      rw (can_save-run es d (can_save-opened q h)),
      λ x. ap (λ (v : View). v.wants x) (view-run es d ∙ ap (see_all es) (view-opened q)),
    )

abbrev pub SameMembers : List String → List String → Type 0
SameMembers s r = (x : String) → member x s ≡ member x r

-- A choice in which the order of the identifiers is forgotten.
abbrev pub Choice : Type 0
Choice = Quot SameMembers

abbrev pub choice : Dialog → Choice
choice d = Quot.mk d.selected_ids

Bool-set : IsSet Bool
Bool-set = hlevel

-- Whether a permission is in a choice.
contains : String → Choice → Bool
contains x = Quot.lift Bool-set (member x) (λ s r h. h x)

-- Whether an identifier stands in a list an odd number of times.
unfoldable pub is_odd : String → List String → Bool
is_odd x [] = false
is_odd x (id ∷ ids) = if str_eq id x then not (is_odd x ids) else is_odd x ids

wants-boxes :
    (x : String) (ids : List String) (v : View)
    → (see_all (map box ids) v).wants x ≡ (if is_odd x ids then not (v.wants x) else v.wants x)
unfolding is_odd
wants-boxes x [] v = refl
wants-boxes x (id ∷ ids) v = ground (arith, wants-boxes x ids (see (box id) v))

-- Clicks on the boxes of permissions leave a choice that depends on nothing but the choice before and
-- on which permissions were clicked an odd number of times: not on the order of the clicks, nor on
-- that in which the set lists the permissions.
pub choice-run_boxes :
    (ids others : List String) (d e : Dialog)
    → choice d ≡ choice e
    → ((x : String) → is_odd x ids ≡ is_odd x others)
    → choice (run (map box ids) d) ≡ choice (run (map box others) e)
unfolding contains
choice-run_boxes ids others d e same odd = Quot.sound λ x.
    let before : member x d.selected_ids ≡ member x e.selected_ids = ap (contains x) same in
    let wanted = λ (us : List String) (f : Dialog).
      ap (λ (v : View). v.wants x) (view-run (map box us) f) ∙ wants-boxes x us (view f) in
    wanted ids d ∙ (rw (odd x, before) refl ∙ sym (wanted others e))
