-- ===== src/Mobile/LiveBuses/Laws.antt =====
-- The delays between the attempts to reconnect, and what the clean-up leaves.
use mansariya.Base.{
  ℕ, zero, suc, ◌+◌, ◌≤◌, ◌<◌, ◌≡◌, refl, String, false, ◌&&◌, List, All, any, ltb, str_eq, arith,
  Bool-cases, inl, inr,
}
use mansariya.Base.Dict.{lookup}
use mansariya.Mobile.LiveBuses.{
  Live, attempts_of, connect_route, reconnect_delay, on_close, clean_up,
}

abbrev pub IsShort : String × ℕ → Type 0
IsShort timer = (3000 ≤ timer.1) × (timer.1 ≤ 24000)

short_delay :
    (n : ℕ) → n + 1 < 5 → (3000 ≤ reconnect_delay (n + 1)) × (reconnect_delay (n + 1) ≤ 24000)
short_delay zero h = (omega arith, omega arith)
short_delay (suc zero) h = (omega arith, omega arith)
short_delay (suc (suc zero)) h = (omega arith, omega arith)
short_delay (suc (suc (suc zero))) h = (omega arith, omega arith)
short_delay (suc (suc (suc (suc n)))) h = absurd (omega arith)

-- A socket that closes sets at most a timer whose delay lies between three and twenty-four seconds:
-- if all delays so far do, all do after it.
pub on_close-IsShort :
    (route_ids : List String) (route : String) (s : Live)
    → All IsShort s.timers
    → All IsShort (on_close route_ids route s).timers
unfolding on_close
on_close-IsShort route_ids route s h =
    elim (Bool-cases (ltb (attempts_of route s + 1) 5 && any (λ r. str_eq r route) route_ids)) [
      | inl again ↦ rw again (short_delay (attempts_of route s) (ground (arith, again)), h)
      | inr done ↦ rw done h
    ]

-- The clean-up leaves the timers, and counts the attempts anew: a timer that fires after it makes a
-- socket, although the hook is gone.
pub made-clean_up :
    (route : String) (s : Live) → (connect_route false route (clean_up s)).made ≡ s.made + 1
unfolding connect_route lookup
made-clean_up route s = refl
