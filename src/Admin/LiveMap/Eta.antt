-- ===== src/Admin/LiveMap/Eta.antt =====
-- admin/src/pages/live-map.tsx: `computeETAs` and the texts of distances, times and bearings.
-- Distances are whole metres; `haversine`, the distance of two places, is a parameter. Times and
-- shares are fractions. The time of arrival, a text of the locale, is left out.
pub mod Laws
use mansariya.Base.Nearest.{nearest_index}
use mansariya.Base.{
  ℕ, zero, suc, ◌+◌, ◌-◌, ◌*◌, ◌/◌, ◌%◌, String, Bool, true, false, ◌&&◌, not, Option, none, some,
  List, [], ◌∷◌, length, ltb, leb, ◌==◌, if◌then◌else◌, get_elem?,
}

pub record Ratio : Type 0 where
  pub num : ℕ
  pub den : ℕ

-- `Math.round`, halves upwards.
abbrev pub round : Ratio → ℕ
round r = (2 * r.num + r.den) / (2 * r.den)

abbrev pub max : ℕ → ℕ → ℕ
max a b = if ltb a b then b else a

pub record Stop (Place : Type 0) : Type 0 where
  pub name_en : String
  pub place : Place
  pub distance_from_start : ℕ

pub record StopProgress : Type 0 where
  pub name : String
  pub passed : Bool
  pub is_current : Bool

-- The texts: `Math.round(km * 1000)` metres, or tenths of a kilometre.
pub data Distance : Type 0 where
  metres : ℕ → Distance
  kilometre_tenths : ℕ → Distance

pub data Time : Type 0 where
  under_one_min : Time
  min : ℕ → Time
  hours : ℕ → ℕ → Time

unfoldable pub format_dist : ℕ → Distance
format_dist m =
    if ltb m 1000 then metres m else kilometre_tenths (round (record { num = m; den = 100 }))

-- Minutes: `minutes < 1`, `minutes < 60`, and else the hours and what is left of `minutes % 60`.
unfoldable pub format_eta : Ratio → Time
format_eta r =
    if ltb r.num r.den
    then under_one_min
    else if ltb r.num (60 * r.den)
    then min (round r)
    else hours (r.num / (60 * r.den)) (round (record { num = r.num % (60 * r.den); den = r.den }))

pub record Result : Type 0 where
  pub next_stop_name : String
  pub dist_to_next_stop : Distance
  pub eta_next_stop : Time
  pub dist_to_end : Distance
  pub eta_end : Time
  pub stops_passed : ℕ
  pub stops_remaining : ℕ
  pub next_stop_idx : ℕ
  pub total_stops : ℕ
  pub progress_percent : Ratio
  pub stops : List StopProgress

-- `(distance / speedKMH) * 60` for metres.
abbrev pub eta_minutes : ℕ → ℕ → Ratio
eta_minutes m speed = record { num = m * 60; den = 1000 * speed }

-- `Math.max(0, Math.min(100, (part / whole) * 100))`
unfoldable pub percent : ℕ → ℕ → Ratio
percent part whole =
    if leb whole part
    then record { num = 100; den = 1 }
    else record { num = part * 100; den = whole }

module _ {Place : Type 0} (haversine : Place → Place → ℕ) where
  abbrev pub nearest : Place → Stop Place → List (Stop Place) → ℕ
  nearest at_bus s rest = nearest_index (λ (t : Stop Place). haversine at_bus t.place) s rest

  -- The stop with an index; the first one stands for an index that is out of range.
  abbrev pub stop_at : Stop Place → List (Stop Place) → ℕ → Stop Place
  stop_at s rest i = elim (get_elem? (s ∷ rest) i) [ none ↦ s | some t ↦ t ]

  -- `dToNearest < gapDist * 0.3`, and then the clamp.
  unfoldable pub next_stop_index : Place → Stop Place → List (Stop Place) → ℕ
  next_stop_index at_bus s rest =
      let n = length (s ∷ rest) in
      let k = nearest at_bus s rest in
      let here = stop_at s rest k in
      let gap = haversine here.place (stop_at s rest (k + 1)).place in
      let ahead =
        if ltb k (n - 1) && ltb (10 * haversine at_bus here.place) (3 * gap) then k + 1 else k in
      if leb n ahead then n - 1 else ahead

  -- `stops.map`, from the index `i`.
  unfoldable pub progress_from : ℕ → ℕ → List (Stop Place) → List StopProgress
  progress_from i next [] = []
  progress_from i next (s ∷ rest) =
      record { name = s.name_en; passed = ltb i next; is_current = i == next }
      ∷ progress_from (suc i) next rest

  -- `routeDistToEnd > 0 ? routeDistToEnd : distToEnd`, where `routeDistToEnd` is
  -- `last - (next - toNext)`.
  unfoldable pub dist_to_end : Place → Stop Place → Stop Place → ℕ
  dist_to_end at_bus next last =
      let to_next = haversine at_bus next.place in
      let sum = last.distance_from_start + to_next in
      if ltb next.distance_from_start sum
      then sum - next.distance_from_start
      else haversine at_bus last.place

  unfoldable pub progress : Place → ℕ → ℕ → Stop Place → Stop Place → Ratio
  unfolding percent
  progress at_bus n k next last =
      if ltb 0 last.distance_from_start
      then percent (next.distance_from_start - haversine at_bus next.place) last.distance_from_start
      else percent k (max (n - 1) 1)

  unfoldable pub compute_etas : Place → ℕ → List (Stop Place) → Option Result
  unfolding next_stop_index format_dist format_eta dist_to_end progress progress_from
  compute_etas at_bus speed_kmh [] = none
  compute_etas at_bus speed_kmh (s ∷ rest) =
      let n = length (s ∷ rest) in
      let k = next_stop_index at_bus s rest in
      let next = stop_at s rest k in
      let last = stop_at s rest (n - 1) in
      let to_next = haversine at_bus next.place in
      let to_end = dist_to_end at_bus next last in
      let speed = max speed_kmh 5 in
      some (record {
        next_stop_name = next.name_en;
        dist_to_next_stop = format_dist to_next;
        eta_next_stop = format_eta (eta_minutes to_next speed);
        dist_to_end = format_dist to_end;
        eta_end = format_eta (eta_minutes to_end speed);
        stops_passed = k;
        stops_remaining = n - k;
        next_stop_idx = k;
        total_stops = n;
        progress_percent = progress at_bus n k next last;
        stops = progress_from 0 k (s ∷ rest);
      })

abbrev pub directions : List String
directions = "N" ∷ "NE" ∷ "E" ∷ "SE" ∷ "S" ∷ "SW" ∷ "W" ∷ "NW" ∷ []

-- `Math.round(bearing / 45) % 8`, for a bearing in whole degrees.
unfoldable pub bearing_to_cardinal : ℕ → Option String
bearing_to_cardinal bearing = get_elem? directions (round (record { num = bearing; den = 45 }) % 8)
