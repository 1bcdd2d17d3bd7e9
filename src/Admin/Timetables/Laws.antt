-- ===== src/Admin/Timetables/Laws.antt =====
-- The rows of the form are told apart by their keys, and what a route that is chosen starts with.
use mansariya.Base.{
  ℕ, ◌+◌, ◌<◌, ◌≤◌, String, false, not, some, List, [], ◌∷◌, ◌++◌, str_eq, eq_iff, if◌then◌else◌,
  ◌≡◌, refl, arith, All, Bool-cases, inl, inr, subst, sym, ap, ◌∙◌,
}
use mansariya.Base.Sets.{member, member-append, member-remove}
use mansariya.Admin.Timetables.{
  Input, Entry, Form, flip_day, at_key, without_key, handle_route_change, add_entry, remove_entry,
  update_entry, toggle_day, toggle_days, Act, chosen, added, removed, updated, toggled, act, run,
  create_empty_entry, empty_input, payload,
}

-- A click on a day flips that day of the entry, and no other.
pub member-flip_day :
    (day other : String) (days : List String)
    → member other (flip_day day days)
      ≡ (if str_eq day other then not (member other days) else member other days)
unfolding flip_day member
member-flip_day day other days =
    ground
      (arith, member-append other days (day ∷ []), member-remove other day days, eq_iff day other)

module _ (uuid : ℕ → String) where
  -- The keys are draws from before `n`, each other.
  unfoldable pub Fresh : ℕ → List Entry → Type 0
  Fresh n [] = Unit
  Fresh n (e ∷ rest) =
      ((k : ℕ) × (k < n) × (e.key ≡ uuid k))
      × All (λ (o : Entry). str_eq e.key o.key ≡ false) rest
      × Fresh n rest

  Fresh-mono : (m n : ℕ) (es : List Entry) → m ≤ n → Fresh m es → Fresh n es
  unfolding Fresh
  Fresh-mono m n [] h v = tt
  Fresh-mono m n (e ∷ rest) h ((k, below, drawn), others, v) =
      ((k, omega (arith, below, h), drawn), others, Fresh-mono m n rest h v)

  Others : String → List Entry → Type 0
  Others k es = All (λ (o : Entry). str_eq k o.key ≡ false) es

  Others-at_key :
      (k key : String) (f : Input → Input) (es : List Entry)
      → Others k es
      → Others k (at_key f key es)
  unfolding Others at_key
  Others-at_key k key f [] h = tt
  Others-at_key k key f (e ∷ rest) (p, h) = (ground (arith, p), Others-at_key k key f rest h)

  Others-without_key :
      (k key : String) (es : List Entry) → Others k es → Others k (without_key key es)
  unfolding Others without_key
  Others-without_key k key [] h = tt
  Others-without_key k key (e ∷ rest) (p, h) = elim (Bool-cases (str_eq e.key key)) [
    | inl same ↦ rw (same, without_key) (Others-without_key k key rest h)
    | inr other ↦ rw (other, without_key) (p, Others-without_key k key rest h)
  ]

  Others-snoc :
      (k : String) (es : List Entry) (e : Entry)
      → Others k es
      → str_eq k e.key ≡ false
      → Others k (es ++ e ∷ [])
  unfolding Others
  Others-snoc k [] e h p = (p, tt)
  Others-snoc k (o ∷ es) e (q, h) p = (q, Others-snoc k es e h p)

  key-at_key :
      (key : String) (f : Input → Input) (e : Entry)
      → (if str_eq e.key key then record e { input = f e.input } else e).key ≡ e.key
  key-at_key key f e = ground arith

  Fresh-at_key :
      (n : ℕ) (key : String) (f : Input → Input) (es : List Entry)
      → Fresh n es
      → Fresh n (at_key f key es)
  unfolding Fresh at_key Others
  Fresh-at_key n key f [] v = tt
  Fresh-at_key n key f (e ∷ rest) ((k, below, drawn), others, v) = (
    (k, below, key-at_key key f e ∙ drawn),
    subst (λ x. Others x (at_key f key rest)) (sym (key-at_key key f e))
        (Others-at_key e.key key f rest others),
    Fresh-at_key n key f rest v,
  )

  Fresh-without_key :
      (n : ℕ) (key : String) (es : List Entry) → Fresh n es → Fresh n (without_key key es)
  unfolding Fresh without_key Others
  Fresh-without_key n key [] v = tt
  Fresh-without_key n key (e ∷ rest) (drawn, others, v) = elim (Bool-cases (str_eq e.key key)) [
    | inl same ↦ rw (same, without_key) (Fresh-without_key n key rest v)
    | inr other ↦
        rw (other, without_key)
          (drawn, Others-without_key e.key key rest others, Fresh-without_key n key rest v)
  ]

  unfoldable pub Keyed : Form → Type 0
  unfolding Fresh
  Keyed f = Fresh f.drawn f.entries

module _ (uuid : ℕ → String) (distinct : (m n : ℕ) → m < n → str_eq (uuid m) (uuid n) ≡ false) where
  Fresh-snoc :
      (n : ℕ) (r : String) (es : List Entry)
      → Fresh uuid n es
      → Fresh uuid (n + 1) (es ++ create_empty_entry uuid r n ∷ [])
  unfolding Fresh Others
  Fresh-snoc n r [] v = ((n, omega arith, refl), tt, tt)
  Fresh-snoc n r (e ∷ rest) ((k, below, drawn), others, v) = (
    (k, omega (arith, below), drawn),
    Others-snoc uuid e.key rest (create_empty_entry uuid r n) others
        (ap (λ x. str_eq x (uuid n)) drawn ∙ distinct k n below),
    Fresh-snoc n r rest v,
  )

  act-Keyed : (a : Act) (f : Form) → Keyed uuid f → Keyed uuid (act uuid a f)
  unfolding act Keyed Fresh handle_route_change add_entry remove_entry update_entry toggle_day
  act-Keyed (chosen r) f v = ((f.drawn, omega arith, refl), tt, tt)
  act-Keyed added f v = elim (Bool-cases (str_eq f.selected_route "")) [
    | inl blank ↦ rw (blank, act, add_entry) v
    | inr some_route ↦
        rw (some_route, act, add_entry) (Fresh-snoc f.drawn f.selected_route f.entries v)
  ]
  act-Keyed (removed key) f v = Fresh-without_key uuid f.drawn key f.entries v
  act-Keyed (updated key patch) f v = Fresh-at_key uuid f.drawn key patch f.entries v
  act-Keyed (toggled key day) f v = Fresh-at_key uuid f.drawn key (toggle_days day) f.entries v

  -- Where no two draws of `crypto.randomUUID` are the same: whatever is added, removed, changed or
  -- chosen, every row has its own key, one that was drawn, so a change meets one row at most.
  pub run-Keyed : (acts : List Act) (f : Form) → Keyed uuid f → Keyed uuid (run uuid acts f)
  unfolding run
  run-Keyed [] f v = v
  run-Keyed (a ∷ rest) f v = run-Keyed rest (act uuid a f) (act-Keyed a f v)

-- Whatever was there before: after a route is chosen, what a save sends for it is one departure with
-- default values.
pub payload-handle_route_change :
    (uuid : ℕ → String) (route : String) (f : Form)
    → str_eq route "" ≡ false
    → payload (handle_route_change uuid route f) ≡ some (route, empty_input route ∷ [])
unfolding payload handle_route_change
payload-handle_route_change uuid route f h = rw h
