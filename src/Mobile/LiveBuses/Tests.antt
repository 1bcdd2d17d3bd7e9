-- ===== src/Mobile/LiveBuses/Tests.antt =====
-- Tests and examples of mobile/src/hooks/useLiveBuses.ts.
use mansariya.Base.{◌≡◌, refl, [], ◌∷◌}
use mansariya.Base.Dict.{lookup}
use mansariya.Mobile.LiveBuses.{Live, on_close}

-- A route whose socket has failed to open three times.
abbrev failing : Live
failing = record { ws_refs = []; attempts = ("138", 3) ∷ []; timers = []; made = 4 }

failing_timer : (on_close ("138" ∷ []) "138" failing).timers ≡ ("138", 24000) ∷ []
unfolding on_close lookup
failing_timer = refl
