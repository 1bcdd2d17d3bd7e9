-- ===== src/Admin/LocationAutocomplete/Laws.antt =====
-- What the field shows.
use mansariya.Base.{
  ℕ, String, Bool, true, false, Option, none, some, List, [], ◌∷◌, get_elem?, ltb, if◌then◌else◌,
  ◌≡◌, arith,
}
use mansariya.Base.Texts.{text_length}
use mansariya.Admin.RouteBuilder.{NominatimResult}
use mansariya.Admin.LocationAutocomplete.{
  Field, opened, handle_change, on_timer, has_some, geocode_answer, store, without_at, on_answer,
  select_at, Act, typed, timer_fired, focused, clicked_outside, answered, threw, selected, act, run,
}

-- A list that is open has something in it.
abbrev pub IsFilled : Field → Type 0
IsFilled s = s.is_open ≡ true → has_some s.results ≡ true

on_timer-IsFilled : (s : Field) → IsFilled s → IsFilled (on_timer s)
unfolding on_timer
on_timer-IsFilled s v = ground arith

on_answer-IsFilled :
    (i : ℕ) (answer : Option (List NominatimResult)) (s : Field)
    → IsFilled s
    → IsFilled (on_answer i answer s)
unfolding on_answer
on_answer-IsFilled i none s v =
    elim (get_elem? s.searches i)
      as (λ o.
        IsFilled
          (elim o [ none ↦ s | some text ↦ record s { searches = without_at i s.searches } ])) [
            | none ↦ v
            | some t ↦ v
          ]
on_answer-IsFilled i (some rows) s v =
    elim (get_elem? s.searches i)
      as (λ o. IsFilled (elim o [
        | none ↦ s
        | some text ↦ store rows (record s { searches = without_at i s.searches })
      ])) [ none ↦ v | some t ↦ λ e. e ]

module _ (name_of : NominatimResult → String) where
  select_at-IsFilled :
      (o : Option NominatimResult) (s : Field) → IsFilled s → IsFilled (select_at name_of o s)
  select_at-IsFilled none s v = v
  select_at-IsFilled (some r) s v = λ e. cc

  act-IsFilled : (a : Act) (s : Field) → IsFilled s → IsFilled (act name_of a s)
  unfolding act handle_change
  act-IsFilled (typed text) s v = ground arith
  act-IsFilled timer_fired s v = on_timer-IsFilled s v
  act-IsFilled focused s v = ground arith
  act-IsFilled clicked_outside s v = λ e. cc
  act-IsFilled (answered i is_ok rows) s v =
      on_answer-IsFilled i (some (geocode_answer is_ok rows)) s v
  act-IsFilled (threw i) s v = on_answer-IsFilled i none s v
  act-IsFilled (selected i) s v =
      elim s.is_open
        as (λ b. IsFilled (if b then select_at name_of (get_elem? s.results i) s else s)) [
          | true ↦ select_at-IsFilled (get_elem? s.results i) s v
          | false ↦ v
        ]

  run-IsFilled : (acts : List Act) (s : Field) → IsFilled s → IsFilled (run name_of acts s)
  unfolding run
  run-IsFilled [] s v = v
  run-IsFilled (a ∷ rest) s v = run-IsFilled rest _ (act-IsFilled a s v)

-- Anything but typing a text that is long enough to be searched for.
abbrev pub is_idle : Act → Bool
is_idle (typed text) = ltb (text_length text) 2
is_idle _ = true

abbrev pub Spins : Field → Type 0
Spins s = (s.is_loading ≡ true) × (s.timer ≡ none) × (s.searches ≡ [])

module _ (name_of : NominatimResult → String) where
  -- From the first field on, whatever is typed and however the answers come, a list that is open has
  -- something in it.
  pub run-opened-IsFilled : (acts : List Act) → IsFilled (run name_of acts opened)
  run-opened-IsFilled acts = run-IsFilled name_of acts opened (λ e. cc)
