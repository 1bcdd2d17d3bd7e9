-- ===== src/Mobile/Stores/SavedLaws.antt =====
-- A route is saved at most once, and saved exactly between its addition and its removal.
use mansariya.Base.{
  String, Bool, true, false, not, ◌&&◌, ◌||◌, List, [], ◌∷◌, ◌++◌, ◌≡◌, refl, ap, ◌∙◌, subst, arith,
  str_eq, eq_iff, Bool-cases, inl, inr,
}
use mansariya.Mobile.Api.{Route}
use mansariya.Mobile.Stores.SavedStore.{
  Action, adds, removes, act, is_saved, add_route, remove_route,
}

abbrev pub HasDistinctRoutes : List Route → Type 0
HasDistinctRoutes [] = Unit
HasDistinctRoutes (r ∷ rest) = (is_saved r.id rest ≡ false) × HasDistinctRoutes rest

is_saved-append :
    (id : String) (rs : List Route) (r : Route)
    → is_saved id (rs ++ r ∷ []) ≡ (is_saved id rs || str_eq r.id id)
unfolding is_saved
is_saved-append id [] r = ground arith
is_saved-append id (x ∷ rs) r = ground (arith, is_saved-append id rs r)

is_saved-add :
    (id : String) (r : Route) (rs : List Route)
    → is_saved id (add_route r rs) ≡ (is_saved id rs || str_eq r.id id)
unfolding add_route
is_saved-add id r rs = elim (Bool-cases (is_saved r.id rs)) [
  | inl old ↦ elim (Bool-cases (str_eq r.id id)) [
    | inl same ↦
        let found : is_saved id rs ≡ true =
          subst (λ i. is_saved i rs ≡ true) ((eq_iff r.id id).0 same) old in
        rw (old, found)
    | inr other ↦ rw (old, other) (ground arith)
  ]
  | inr new ↦ rw new (is_saved-append id rs r)
]

is_saved-remove :
    (id j : String) (rs : List Route)
    → is_saved id (remove_route j rs) ≡ (is_saved id rs && not (str_eq j id))
unfolding is_saved remove_route
is_saved-remove id j [] = refl
is_saved-remove id j (r ∷ rs) =
    ground (arith, eq_iff r.id j, eq_iff r.id id, eq_iff j id, is_saved-remove id j rs)

is_saved-cons :
    (r x : Route) (rs : List Route)
    → is_saved r.id (x ∷ rs) ≡ false
    → (str_eq x.id r.id ≡ false) × (is_saved r.id rs ≡ false)
unfolding is_saved
is_saved-cons r x rs h = ground arith

add-HasDistinctRoutes :
    (r : Route) (rs : List Route)
    → is_saved r.id rs ≡ false
    → HasDistinctRoutes rs
    → HasDistinctRoutes (rs ++ r ∷ [])
add-HasDistinctRoutes r [] new h = (unfold is_saved in refl, tt)
add-HasDistinctRoutes r (x ∷ rs) new (absent, h) =
    let (other, new') = is_saved-cons r x rs new in
    (
      is_saved-append x.id rs r ∙ rw absent (ground (arith, eq_iff x.id r.id, eq_iff r.id x.id)),
      add-HasDistinctRoutes r rs new' h,
    )

remove-HasDistinctRoutes :
    (j : String) (rs : List Route) → HasDistinctRoutes rs → HasDistinctRoutes (remove_route j rs)
unfolding remove_route
remove-HasDistinctRoutes j [] h = tt
remove-HasDistinctRoutes j (r ∷ rs) (absent, h) =
    ground (arith, is_saved-remove r.id j rs, remove-HasDistinctRoutes j rs h)

add_route-HasDistinctRoutes :
    (r : Route) (rs : List Route) → HasDistinctRoutes rs → HasDistinctRoutes (add_route r rs)
unfolding add_route
add_route-HasDistinctRoutes r rs h = elim (Bool-cases (is_saved r.id rs)) [
  | inl old ↦ rw old h
  | inr new ↦ rw new (add-HasDistinctRoutes r rs new h)
]

act-HasDistinctRoutes :
    (rs : List Route) (a : Action) → HasDistinctRoutes rs → HasDistinctRoutes (act rs a)
unfolding act
act-HasDistinctRoutes rs (adds r) h = add_route-HasDistinctRoutes r rs h
act-HasDistinctRoutes rs (removes id) h = remove-HasDistinctRoutes id rs h

abbrev pub run : List Route → List Action → List Route
run rs [] = rs
run rs (a ∷ rest) = run (act rs a) rest

-- Whether a route is saved, after each call.
abbrev pub change : String → Bool → Action → Bool
change id saved (adds r) = saved || str_eq r.id id
change id saved (removes j) = saved && not (str_eq j id)

abbrev pub changes : String → Bool → List Action → Bool
changes id saved [] = saved
changes id saved (a ∷ rest) = changes id (change id saved a) rest

change_lem :
    (id : String) (rs : List Route) (a : Action)
    → is_saved id (act rs a) ≡ change id (is_saved id rs) a
unfolding act
change_lem id rs (adds r) = is_saved-add id r rs
change_lem id rs (removes j) = is_saved-remove id j rs

-- From a list without repetition, after any sequence of additions and removals no route is saved
-- twice, and a route is saved exactly if it was added since it was last removed, or was there and
-- was not removed.
pub run-is_saved :
    (id : String) (rs : List Route) (actions : List Action)
    → HasDistinctRoutes rs
    → HasDistinctRoutes (run rs actions)
      × (is_saved id (run rs actions) ≡ changes id (is_saved id rs) actions)
run-is_saved id rs [] h = (h, refl)
run-is_saved id rs (a ∷ rest) h =
    let (distinct, same) = run-is_saved id (act rs a) rest (act-HasDistinctRoutes rs a h) in
    (distinct, same ∙ ap (λ b. changes id b rest) (change_lem id rs a))
