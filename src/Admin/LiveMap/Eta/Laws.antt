-- ===== src/Admin/LiveMap/Eta/Laws.antt =====
-- The next stop, the progress and the times of a bus.
use mansariya.Base.Nearest.{nearest_index-least}
use mansariya.Base.{
  ℕ, suc, ◌+◌, ◌-◌, ◌*◌, ◌/◌, ◌%◌, ◌≤◌, ◌<◌, Bool, some, List, [], ◌∷◌, length, ◌≡◌, ◌⊎◌, refl, ltb,
  leb, if◌then◌else◌, get_elem?, get_elem?-below, get_elem?-lt, ◌&&◌, select, arith, All, ap,
}
use mansariya.Admin.LiveMap.Eta.{
  Ratio, Stop, StopProgress, Result, round, hours, format_eta, percent, max, nearest,
  next_stop_index, stop_at, progress_from, progress, compute_etas, directions, bearing_to_cardinal,
}

abbrev pub WithinHundred : Ratio → Type 0
WithinHundred r = r.num ≤ 100 * r.den

percent-WithinHundred : (part whole : ℕ) → WithinHundred (percent part whole)
unfolding percent
percent-WithinHundred part whole = ground arith

behind :
    (n k : ℕ) (near : Bool)
    → k < n
    → let ahead = if ltb k (n - 1) && near then k + 1 else k in
      let r = if leb n ahead then n - 1 else ahead in (r ≡ k) ⊎ (r ≡ k + 1)
behind n k near h = ground arith

clamped : (m k : ℕ) → (if leb (suc m) k then suc m - 1 else k) < suc m
clamped m k = ground arith

abbrev pub passed_of : List StopProgress → List StopProgress
passed_of ps = select (λ (p : StopProgress). p.passed) ps

-- With a minute's tenth as the unit: from the last half minute of an hour on, the minutes read 60.
pub format_eta-sixty :
    (n : ℕ)
    → 600 ≤ n
    → 595 ≤ n % 600
    → format_eta (record { num = n; den = 10 }) ≡ hours (n / 600) 60
unfolding format_eta
format_eta-sixty n h k = ground arith

-- Every bearing has a name.
pub bearing_to_cardinal-total : (bearing : ℕ) → (d : _) × (bearing_to_cardinal bearing ≡ some d)
unfolding bearing_to_cardinal
bearing_to_cardinal-total bearing =
    get_elem?-below directions (round (record { num = bearing; den = 45 }) % 8) (omega arith)

module _ {Place : Type 0} (haversine : Place → Place → ℕ) (at_bus : Place) where
  passed_after :
      (i k : ℕ) (stops : List (Stop Place))
      → k ≤ i
      → passed_of (progress_from haversine i k stops) ≡ []
  unfolding progress_from
  passed_after i k [] h = refl
  passed_after i k (s ∷ rest) h = ground (arith, passed_after (suc i) k rest)

  length-passed :
      (i k : ℕ) (stops : List (Stop Place))
      → i ≤ k
      → k ≤ i + length stops
      → i + length (passed_of (progress_from haversine i k stops)) ≡ k
  unfolding progress_from
  length-passed i k [] h b = omega arith
  length-passed i k (s ∷ rest) h b =
      ground (arith, length-passed (suc i) k rest, passed_after (suc i) k rest)

  passed_all :
      (k : ℕ) (stops : List (Stop Place))
      → k ≤ length stops
      → length (passed_of (progress_from haversine 0 k stops)) ≡ k
  passed_all k stops h = omega (arith, length-passed 0 k stops (omega arith) (omega (arith, h)))

  next_stop_index-below :
      (s : Stop Place) (rest : List (Stop Place))
      → next_stop_index haversine at_bus s rest < length (s ∷ rest)
  unfolding next_stop_index
  next_stop_index-below s rest = clamped (length rest) _

  progress-WithinHundred :
      (n k : ℕ) (next last : Stop Place) → WithinHundred (progress haversine at_bus n k next last)
  unfolding progress
  progress-WithinHundred n k next last = ground (
    arith,
    percent-WithinHundred (next.distance_from_start - haversine at_bus next.place)
        last.distance_from_start,
    percent-WithinHundred k (max (n - 1) 1),
  )

  abbrev pub IsNearest : Stop Place → List (Stop Place) → Type 0
  IsNearest t stops =
      All (λ (u : Stop Place). haversine at_bus t.place ≤ haversine at_bus u.place) stops

  length-progress_from :
      (i k : ℕ) (stops : List (Stop Place))
      → length (progress_from haversine i k stops) ≡ length stops
  unfolding progress_from
  length-progress_from i k [] = refl
  length-progress_from i k (s ∷ rest) = ap suc (length-progress_from (suc i) k rest)

  -- The next stop is a nearest stop of the route, or the one behind it.
  next_stop_index-nearest :
      (s : Stop Place) (rest : List (Stop Place))
      → let k = nearest haversine at_bus s rest in
        let next = next_stop_index haversine at_bus s rest in
        (t : Stop Place) × (get_elem? (s ∷ rest) k ≡ some t)
        × IsNearest t (s ∷ rest)
        × ((next ≡ k) ⊎ (next ≡ k + 1))
        × (next < length (s ∷ rest))
  unfolding next_stop_index
  next_stop_index-nearest s rest =
      let (t, found, least) =
        nearest_index-least (λ (u : Stop Place). haversine at_bus u.place) s rest in
      let k = nearest haversine at_bus s rest in
      (
        t,
        found,
        least,
        behind (length (s ∷ rest)) k _ (get_elem?-lt (s ∷ rest) k t found),
        next_stop_index-below s rest,
      )

  -- Whatever the distances and the speed, a route that has stops gives a result: its next stop is a
  -- stop of the route, and is one that is nearest to the bus or the one behind that; the stops listed
  -- as passed are as many as its index says, these and the remaining ones are all the stops, and the
  -- progress is between 0 and 100 percent.
  pub compute_etas-total :
      (speed : ℕ) (s : Stop Place) (rest : List (Stop Place))
      → (r : Result) × (t : Stop Place) × (k : ℕ) × (compute_etas haversine at_bus speed (s ∷ rest)
          ≡ some r)
        × (get_elem? (s ∷ rest) k ≡ some t)
        × IsNearest t (s ∷ rest)
        × ((r.next_stop_idx ≡ k) ⊎ (r.next_stop_idx ≡ k + 1))
        × (r.next_stop_idx < r.total_stops)
        × (r.total_stops ≡ length (s ∷ rest))
        × (length (passed_of r.stops) ≡ r.next_stop_idx)
        × (length r.stops ≡ r.total_stops)
        × (r.stops_passed + r.stops_remaining ≡ r.total_stops)
        × WithinHundred r.progress_percent
  unfolding compute_etas
  compute_etas-total speed s rest =
      let n = length (s ∷ rest) in
      let next = next_stop_index haversine at_bus s rest in
      let (t, found, least, behind_it, below) = next_stop_index-nearest s rest in
      (
        _,
        t,
        nearest haversine at_bus s rest,
        refl,
        found,
        least,
        behind_it,
        below,
        refl,
        passed_all next (s ∷ rest) (omega (arith, below)),
        length-progress_from 0 next (s ∷ rest),
        omega (arith, below),
        progress-WithinHundred n next (stop_at haversine s rest next)
            (stop_at haversine s rest (n - 1)),
      )
