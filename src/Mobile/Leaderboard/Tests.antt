-- ===== src/Mobile/Leaderboard/Tests.antt =====
-- Examples of mobile/src/screens/LeaderboardScreen.tsx.
use mansariya.Base.{ℕ, zero, suc, false, List, [], ◌∷◌}
use mansariya.Mobile.Leaderboard.{
  SortKey, total_trips, total_distance_km, quality_score, Screen, Event, reached, answered, initial,
  set_sort, opened,
}
use mansariya.Mobile.Leaderboard.Shown.{page_of}

abbrev down_from : ℕ → List ℕ
down_from zero = []
down_from (suc n) = suc n ∷ down_from n

abbrev rankings : SortKey → List ℕ
rankings total_trips = down_from 60
rankings total_distance_km = 7 ∷ down_from 59
rankings quality_score = []

-- The order is changed before the list is scrolled.
abbrev by_distance : Screen ℕ
by_distance = set_sort total_distance_km (opened (page_of rankings) initial).screen

-- The end is reached twice before the request fails, and once more.
abbrev events : List Event
events = reached ∷ reached ∷ answered 0 false ∷ reached ∷ []
