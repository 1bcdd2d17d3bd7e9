-- ===== src/Mobile/Leaderboard/Laws.antt =====
-- Scrolling shows the whole ranking, each entry once.
use mansariya.Base.{ℕ, zero, suc, true, List, [], ◌∷◌}
use mansariya.Mobile.Leaderboard.{Event, reached, answered}

-- The end of the list is reached `k` times, and each time what is under way then is answered.
unfoldable pub rounds : ℕ → List Event
rounds zero = []
rounds (suc k) = reached ∷ answered 0 true ∷ rounds k
