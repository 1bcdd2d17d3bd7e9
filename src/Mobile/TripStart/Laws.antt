-- ===== src/Mobile/TripStart/Laws.antt =====
-- What the form may send.
use mansariya.Base.{
  ℕ, ◌≤◌, String, Bool, true, false, Option, none, some, List, [], ◌∷◌, ◌==◌, All, zero, suc,
  get_elem?, str_eq, eq_iff, if◌then◌else◌, ◌≡◌, ◌≢◌, refl, arith,
}
use mansariya.Mobile.RouteSearch.{Row}
use mansariya.Mobile.TripStart.{
  Selected, selected_id, Form, initial, shown_as, to_meta, Act, typed, answered, chosen,
  number_typed, level_pressed, start_pressed, skip_pressed, choose, press, toggled, crowd_levels,
  act, run,
}

pub IsLevel : Option ℕ → Type 0
IsLevel none = Unit
IsLevel (some n) = (1 ≤ n) × (n ≤ 4)

toggled-IsLevel : (n : ℕ) (now : Option ℕ) → (1 ≤ n) × (n ≤ 4) → IsLevel (toggled n now)
unfolding IsLevel
toggled-IsLevel n none h = h
toggled-IsLevel n (some m) h = elim (m == n) as (λ b. IsLevel (if b then none else some n)) [
  | true ↦ tt
  | false ↦ h
]

crowd_levels-between : All (λ n. (1 ≤ n) × (n ≤ 4)) crowd_levels
crowd_levels-between =
    let within : (n : ℕ) → 1 ≤ n → n ≤ 4 → (1 ≤ n) × (n ≤ 4) = λ n a b. (a, b) in
    (
      within 1 (omega arith) (omega arith),
      (
        within 2 (omega arith) (omega arith),
        (within 3 (omega arith) (omega arith), (within 4 (omega arith) (omega arith), tt)),
      ),
    )

filled : (text : String) → (if str_eq text "" then none else some text) ≢ some ""
filled text = ground (arith, eq_iff text "")

module _ (P : String → Type 0) where
  -- A route that is selected satisfies `P`, and is the one in the field.
  pub IsShown : String → Option Selected → Type 0
  IsShown text none = Unit
  IsShown text (some r) = P r.id × (text ≡ shown_as r)

  Consistent : Form → Type 0
  Consistent s =
      IsShown s.route_search s.selected_route
      × IsLevel s.crowd_level
      × All (λ (r : Row). P r.id) s.search_results

  -- Every route that the database answers satisfies `P`.
  unfoldable pub Offers : Act → Type 0
  Offers (answered rows) = All (λ (r : Row). P r.id) rows
  Offers _ = Unit

  All-if :
      (b : Bool) (rows : List Row)
      → All (λ (r : Row). P r.id) rows
      → All (λ (r : Row). P r.id) (if b then [] else rows)
  All-if true rows _ = tt
  All-if false rows h = h

  choose-Consistent :
      (rows : List Row) (i : ℕ) (s : Form)
      → All (λ (r : Row). P r.id) rows
      → Consistent s
      → Consistent (choose (get_elem? rows i) s)
  unfolding Consistent IsShown
  choose-Consistent [] i s _ c = c
  choose-Consistent (row ∷ rows) zero s (p, _) (_, level, _) = ((p, refl), level, tt)
  choose-Consistent (row ∷ rows) (suc i) s (_, ps) c = choose-Consistent rows i s ps c

  press-Consistent :
      (levels : List ℕ) (i : ℕ) (s : Form)
      → All (λ n. (1 ≤ n) × (n ≤ 4)) levels
      → Consistent s
      → Consistent (press (get_elem? levels i) s)
  unfolding Consistent
  press-Consistent [] i s _ c = c
  press-Consistent (n ∷ ns) zero s (h, _) (shown, level, rows) =
      (shown, toggled-IsLevel n s.crowd_level h, rows)
  press-Consistent (n ∷ ns) (suc i) s (_, hs) c = press-Consistent ns i s hs c

  act-Consistent :
      (trim : String → String) (a : Act) (s : Form)
      → Offers a
      → Consistent s
      → Consistent (act trim a s).1
  unfolding Offers Consistent IsShown IsLevel act
  act-Consistent trim (typed query) s _ (_, level, rows) =
      (tt, level, All-if (str_eq query "") _ rows)
  act-Consistent trim (answered rows) s h (shown, level, _) = (shown, level, h)
  act-Consistent trim (chosen i) s _ (shown, level, rows) =
      choose-Consistent s.search_results i s rows (shown, level, rows)
  act-Consistent trim (number_typed text) s _ c = c
  act-Consistent trim (level_pressed i) s _ (shown, level, rows) =
      press-Consistent crowd_levels i s crowd_levels-between (shown, level, rows)
  act-Consistent trim start_pressed s _ (_, _, rows) = (tt, tt, rows)
  act-Consistent trim skip_pressed s _ (_, _, rows) = (tt, tt, rows)

  run_from-Consistent :
      (trim : String → String) (acts : List Act) (s : Form)
      → All Offers acts
      → Consistent s
      → Consistent (run trim acts s)
  unfolding run
  run_from-Consistent trim [] s _ c = c
  run_from-Consistent trim (a ∷ rest) s (h, hs) c =
      run_from-Consistent trim rest (act trim a s).1 hs (act-Consistent trim a s h c)

  pub IsSent : Option String → Type 0
  IsSent none = Unit
  IsSent (some id) = P id

  shown-IsSent : (text : String) (r : Option Selected) → IsShown text r → IsSent (selected_id r)
  unfolding IsShown IsSent
  shown-IsSent text none _ = tt
  shown-IsSent text (some r) (p, _) = p

  -- What the form would send after any acts, in which answers of the database come at any time: a
  -- route only if the database has answered it and the field shows it, a crowd level only from 1 to
  -- 4, and never an empty bus number.
  pub run-Consistent :
      (trim : String → String) (acts : List Act)
      → All Offers acts
      → let s = run trim acts initial in
        let meta = to_meta trim s in
        IsSent meta.route_id
        × IsShown s.route_search s.selected_route
        × IsLevel meta.crowd_level
        × (meta.bus_number ≢ some "")
  unfolding Consistent IsShown IsLevel to_meta
  run-Consistent trim acts offers =
      let (shown, level, _) = run_from-Consistent trim acts initial offers (tt, tt, tt) in
      (shown-IsSent _ _ shown, shown, level, filled _)
