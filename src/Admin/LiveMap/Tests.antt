-- ===== src/Admin/LiveMap/Tests.antt =====
-- Tests and examples of admin/src/pages/live-map.tsx.
use mansariya.Base.{ℕ, ◌+◌, ◌-◌, ◌<◌, String, some, List, [], ◌∷◌, length, get_elem?, ◌≡◌, ◌⊎◌}
use mansariya.Admin.LiveMap.{Vehicle}
use mansariya.Admin.LiveMap.Eta.{Stop, Result, compute_etas}
use mansariya.Admin.LiveMap.Eta.Laws.{WithinHundred, passed_of, IsNearest, compute_etas-total}

abbrev bus : String → String → Vehicle
bus id route = record { virtual_id = id; route_id = route }

abbrev buses : List Vehicle
buses = bus "v1" "138" ∷ bus "v2" "1" ∷ bus "v3" "1" ∷ []

-- A road: places are metres from the start.
abbrev apart : ℕ → ℕ → ℕ
apart a b = (a - b) + (b - a)

abbrev stop : String → ℕ → Stop ℕ
stop name at_metre = record { name_en = name; place = at_metre; distance_from_start = at_metre }

abbrev stops : List (Stop ℕ)
stops = stop "Borella" 2500 ∷ stop "Nugegoda" 7000 ∷ []

compute_etas-total_example :
    (r : Result) × (t : Stop ℕ) × (k : ℕ) × (compute_etas apart 2600 30 (stop "Fort" 0 ∷ stops)
      ≡ some r)
    × (get_elem? (stop "Fort" 0 ∷ stops) k ≡ some t)
    × IsNearest apart 2600 t (stop "Fort" 0 ∷ stops)
    × ((r.next_stop_idx ≡ k) ⊎ (r.next_stop_idx ≡ k + 1))
    × (r.next_stop_idx < r.total_stops)
    × (r.total_stops ≡ length (stop "Fort" 0 ∷ stops))
    × (length (passed_of r.stops) ≡ r.next_stop_idx)
    × (length r.stops ≡ r.total_stops)
    × (r.stops_passed + r.stops_remaining ≡ r.total_stops)
    × WithinHundred r.progress_percent
compute_etas-total_example = compute_etas-total apart 2600 30 (stop "Fort" 0) stops
