-- ===== src/Mobile/Journey/Laws.antt =====
-- What the two fields of a journey show.
use mansariya.Base.{
  ℕ, Bool, true, false, ◌||◌, Option, none, some, List, [], ◌∷◌, ◌≡◌, refl, arith, Option-cases,
  Bool-cases, String, str_eq, inl, inr, ◌⊎◌,
}
use mansariya.Mobile.Journey.{
  End, from, to, Field, Screen, Stop, field, handle_change, pick, suggest, on_stops, select_stop,
  handle_search, search_end, suggestions,
}

abbrev pub other : End → End
other from = to
other to = from

-- A chosen stop is shown by its name as long as its text is not typed over: what the field says is
-- what is chosen.
abbrev pub Shown : Field → Type 0
Shown f = (f.selected ≡ none) ⊎ ((stop : Stop) × (f.selected ≡ some stop) × (f.text ≡ stop.name_en))

pub data Event (Result : Type 0) : Type 0 where
  typed : End → Bool → String → Event Result
  answered : ℕ → List Stop → Event Result
  chosen : End → Stop → Event Result
  searched : Event Result
  found : Option (List Result) → Event Result

module _ {Result : Type 0} where
  abbrev pub Consistent : Screen Result → Type 0
  Consistent s = Shown s.from_field × Shown s.to_field

  unfoldable pub step : Event Result → Screen Result → Screen Result
  step (typed e is_long text) s = handle_change e is_long text s
  step (answered i stops) s = on_stops i stops s
  step (chosen e stop) s = select_stop e stop s
  step searched s = (handle_search s).1
  step (found answer) s = search_end answer s

  unfoldable pub run : List (Event Result) → Screen Result → Screen Result
  run [] s = s
  run (e ∷ rest) s = run rest (step e s)

  suggest-Consistent :
      (e : End) (stops : List Stop) (s : Screen Result)
      → Consistent s
      → Consistent (suggest e stops s)
  unfolding suggest
  suggest-Consistent from stops s v = v
  suggest-Consistent to stops s v = v

  typed-Consistent :
      (e : End) (is_long : Bool) (text : String) (s : Screen Result)
      → Consistent s
      → Consistent (handle_change e is_long text s)
  unfolding handle_change
  typed-Consistent from true text s (a, b) = (inl refl, b)
  typed-Consistent from false text s (a, b) = (inl refl, b)
  typed-Consistent to true text s (a, b) = (a, inl refl)
  typed-Consistent to false text s (a, b) = (a, inl refl)

  chosen-Consistent :
      (e : End) (stop : Stop) (s : Screen Result) → Consistent s → Consistent (select_stop e stop s)
  unfolding select_stop
  chosen-Consistent from stop s (a, b) = (inr (stop, refl, refl), b)
  chosen-Consistent to stop s (a, b) = (a, inr (stop, refl, refl))

  searched-Consistent : (s : Screen Result) → Consistent s → Consistent (handle_search s).1
  unfolding handle_search
  searched-Consistent s v =
      elim (Bool-cases (str_eq s.from_field.text "" || str_eq s.to_field.text "")) [
        | inl e ↦ rw (e, handle_search) v
        | inr e ↦ rw (e, handle_search) v
      ]

  step-Consistent : (e : Event Result) (s : Screen Result) → Consistent s → Consistent (step e s)
  unfolding step on_stops search_end
  step-Consistent (typed e is_long text) s v = typed-Consistent e is_long text s v
  step-Consistent (answered i stops) s v = elim (Option-cases (pick i s.requests)) [
    | inl e ↦ rw (e, step, on_stops) v
    | inr ((e, others), h) ↦
        rw (h, step, on_stops) (suggest-Consistent e stops (record s { requests = others }) v)
  ]
  step-Consistent (chosen e stop) s v = chosen-Consistent e stop s v
  step-Consistent searched s v = searched-Consistent s v
  step-Consistent (found answer) s v = v

  -- Whatever is typed and chosen, and in whatever order the answers come: a field with a chosen stop
  -- shows that stop's name.
  pub run-Consistent :
      (events : List (Event Result)) (s : Screen Result) → Consistent s → Consistent (run events s)
  unfolding run
  run-Consistent [] s v = v
  run-Consistent (e ∷ rest) s v = run-Consistent rest (step e s) (step-Consistent e s v)

  -- A stop is chosen while a request of its field is under way: the answer opens the suggestions
  -- again, over the chosen stop.
  pub select_stop-late :
      (e : End) (stop : Stop) (stops : List Stop) (s : Screen Result)
      → s.requests ≡ e ∷ []
      → let t = on_stops 0 stops (select_stop e stop s) in
        ((field e t).selected ≡ some stop) × (t.active_field ≡ some e) × (suggestions t ≡ stops)
  unfolding on_stops pick suggest select_stop
  select_stop-late from stop stops s h = (ground (arith, h), ground (arith, h), ground (arith, h))
  select_stop-late to stop stops s h = (ground (arith, h), ground (arith, h), ground (arith, h))
