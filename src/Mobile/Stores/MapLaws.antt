-- ===== src/Mobile/Stores/MapLaws.antt =====
-- The map keeps the latest position of each bus, and drops exactly the stale ones.
use mansariya.Base.{
  ℕ, ◌+◌, String, false, Option, none, some, List, [], ◌∷◌, ◌≡◌, refl, ap, ◌∙◌, subst, arith, leb,
  str_eq, eq_iff, if◌then◌else◌, Bool-cases, inl, inr,
}
use mansariya.Base.Dict.{lookup, insert, delete, lookup-insert, lookup-delete}
use mansariya.Mobile.Stores.MapStore.{
  BusEntry, MapState, Action, sees, leaves, clears, expires, act, update_bus, remove_bus,
  fresh_buses, remove_stale_buses,
}

-- The ids of the entries are distinct, as the keys of an object are.
abbrev pub IsAbsent : String → List (String × BusEntry) → Type 0
IsAbsent id buses = lookup id buses ≡ none

abbrev pub HasDistinctIds : List (String × BusEntry) → Type 0
HasDistinctIds [] = Unit
HasDistinctIds ((id, entry) ∷ rest) = IsAbsent id rest × HasDistinctIds rest

-- The entry under an id after an expiry at `now`.
abbrev pub if_fresh : ℕ → ℕ → Option BusEntry → Option BusEntry
if_fresh now max_age none = none
if_fresh now max_age (some entry) = if leb now (entry.last_seen + max_age) then some entry else none

lookup-fresh_buses :
    (now max_age : ℕ) (id : String) (buses : List (String × BusEntry))
    → HasDistinctIds buses
    → lookup id (fresh_buses now max_age buses) ≡ if_fresh now max_age (lookup id buses)
unfolding fresh_buses lookup
lookup-fresh_buses now max_age id [] h = refl
lookup-fresh_buses now max_age id ((j, entry) ∷ rest) (absent, h) =
    ground (arith, eq_iff j id, lookup-fresh_buses now max_age id rest h)

IsAbsent-insert :
    (j k : String) (v : BusEntry) (buses : List (String × BusEntry))
    → (str_eq k j ≡ false)
    → IsAbsent j buses
    → IsAbsent j (insert k v buses)
IsAbsent-insert j k v buses e h = ground (arith, lookup-insert k j v buses)

insert-HasDistinctIds :
    (k : String) (v : BusEntry) (buses : List (String × BusEntry))
    → HasDistinctIds buses
    → HasDistinctIds (insert k v buses)
unfolding insert
insert-HasDistinctIds k v [] h = (unfold lookup in refl, tt)
insert-HasDistinctIds k v ((j, w) ∷ rest) (absent, h) = elim (Bool-cases (str_eq j k)) [
  | inl same ↦ rw same (subst (λ i. IsAbsent i rest) ((eq_iff j k).0 same) absent, h)
  | inr other ↦ rw other (
    IsAbsent-insert j k v rest (ground (arith, eq_iff j k, eq_iff k j)) absent,
    insert-HasDistinctIds k v rest h,
  )
]

delete-HasDistinctIds :
    (k : String) (buses : List (String × BusEntry))
    → HasDistinctIds buses
    → HasDistinctIds (delete k buses)
unfolding delete
delete-HasDistinctIds k [] h = tt
delete-HasDistinctIds k ((j, w) ∷ rest) (absent, h) =
    ground (arith, lookup-delete k j rest, delete-HasDistinctIds k rest h)

fresh-HasDistinctIds :
    (now max_age : ℕ) (buses : List (String × BusEntry))
    → HasDistinctIds buses
    → HasDistinctIds (fresh_buses now max_age buses)
unfolding fresh_buses
fresh-HasDistinctIds now max_age [] h = tt
fresh-HasDistinctIds now max_age ((j, w) ∷ rest) (absent, h) =
    ground (arith, lookup-fresh_buses now max_age j rest h, fresh-HasDistinctIds now max_age rest h)

act-HasDistinctIds :
    (s : MapState) (a : Action) → HasDistinctIds s.buses → HasDistinctIds (act s a).buses
unfolding act update_bus remove_bus remove_stale_buses
act-HasDistinctIds s (sees now bus) h = insert-HasDistinctIds bus.virtual_id _ s.buses h
act-HasDistinctIds s (leaves id) h = delete-HasDistinctIds id s.buses h
act-HasDistinctIds s clears h = tt
act-HasDistinctIds s (expires now max_age) h = fresh-HasDistinctIds now max_age s.buses h

-- The abstract view: for each id, the bus that is shown.
abbrev pub view : MapState → String → Option BusEntry
view s id = lookup id s.buses

-- What each call does to the view.
abbrev pub change : Action → String → Option BusEntry → Option BusEntry
change (sees now bus) id shown =
    if str_eq bus.virtual_id id then some (record { bus = bus; last_seen = now }) else shown
change (leaves j) id shown = if str_eq j id then none else shown
change clears id shown = none
change (expires now max_age) id shown = if_fresh now max_age shown

view-act :
    (s : MapState) (a : Action) (id : String)
    → HasDistinctIds s.buses
    → view (act s a) id ≡ change a id (view s id)
unfolding act update_bus remove_bus remove_stale_buses
view-act s (sees now bus) id h = lookup-insert bus.virtual_id id _ s.buses
view-act s (leaves j) id h = lookup-delete j id s.buses
view-act s clears id h = unfold lookup in refl
view-act s (expires now max_age) id h = lookup-fresh_buses now max_age id s.buses h

abbrev pub run : MapState → List Action → MapState
run s [] = s
run s (a ∷ rest) = run (act s a) rest

abbrev pub changes : List Action → String → Option BusEntry → Option BusEntry
changes [] id shown = shown
changes (a ∷ rest) id shown = changes rest id (change a id shown)

-- From a map with distinct ids, after any sequence of calls the ids are still distinct, and each id
-- shows what its own calls say: the last position that was seen, unless the bus was removed,
-- cleared or found stale since.
pub run-view :
    (s : MapState) (actions : List Action) (id : String)
    → HasDistinctIds s.buses
    → HasDistinctIds (run s actions).buses
      × (view (run s actions) id ≡ changes actions id (view s id))
run-view s [] id h = (h, refl)
run-view s (a ∷ rest) id h =
    let (distinct, same) = run-view (act s a) rest id (act-HasDistinctIds s a h) in
    (distinct, same ∙ ap (changes rest id) (view-act s a id h))
