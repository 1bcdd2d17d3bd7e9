-- ===== src/Mobile/Socket/Backoff.antt =====
-- The delays between attempts to reconnect.
use native.Mathlib.Nat.{pow-suc}
use mansariya.Base.{
  ℕ, zero, suc, ◌*◌, ◌^◌, ◌≤◌, ◌<◌, ◌≡◌, ltb, if◌then◌else◌, List, [], ◌∷◌, All, arith,
}
use mansariya.Mobile.Socket.{
  Manager, Event, closes, reconnect_delay, do_connect, connect, disconnect, on_open, on_text,
  on_close, on_timer, schedule_reconnect, step, run,
}

pow_pos : (n : ℕ) → 1 ≤ 2 ^ n
pow_pos zero = omega arith
pow_pos (suc n) = rw pow-suc (omega (arith, pow_pos n))

pow_big : (n : ℕ) → 5 ≤ n → 32 ≤ 2 ^ n
pow_big zero h = absurd (omega arith)
pow_big (suc zero) h = absurd (omega arith)
pow_big (suc (suc zero)) h = absurd (omega arith)
pow_big (suc (suc (suc zero))) h = absurd (omega arith)
pow_big (suc (suc (suc (suc zero)))) h = absurd (omega arith)
pow_big (suc (suc (suc (suc (suc n))))) h = simp pow-suc (omega (arith, pow_pos n))

pow_small : (n : ℕ) → n < 5 → 2 ^ n ≤ 16
pow_small zero h = omega arith
pow_small (suc zero) h = omega arith
pow_small (suc (suc zero)) h = omega arith
pow_small (suc (suc (suc zero))) h = omega arith
pow_small (suc (suc (suc (suc zero)))) h = omega arith
pow_small (suc (suc (suc (suc (suc n))))) h = absurd (omega arith)

pow_grows : (n : ℕ) → 2 ^ n ≤ 2 ^ suc n
pow_grows n = rw pow-suc (omega arith)

-- The delay doubles from one second on, up to thirty seconds, and is that from the sixth attempt.
pub reconnect_delay_bounds :
    (n : ℕ)
    → (reconnect_delay n ≡ (if ltb n 5 then 1000 * 2 ^ n else 30000))
      × (1000 ≤ reconnect_delay n)
      × (reconnect_delay n ≤ 30000)
      × (reconnect_delay n ≤ reconnect_delay (suc n))
reconnect_delay_bounds n = (
  ground (arith, pow_small n, pow_big n),
  omega (arith, pow_pos n),
  omega arith,
  omega (arith, pow_grows n),
)

abbrev pub IsDelay : ℕ → Type 0
IsDelay d = (1000 ≤ d) × (d ≤ 30000)

step-delays : (m : Manager) (e : Event) → All IsDelay m.delays → All IsDelay (step m e).delays
unfolding step connect disconnect do_connect on_open on_text on_timer on_close schedule_reconnect
step-delays m (closes i) h =
    let b = reconnect_delay_bounds m.reconnect_attempts in ground (arith, b.1, b.2)
step-delays m e h = ground arith

-- Whatever happens, every delay that is asked for lies between one and thirty seconds, if those
-- before do.
pub run-delays :
    (es : List Event) (m : Manager) → All IsDelay m.delays → All IsDelay (run m es).delays
run-delays [] m h = h
run-delays (e ∷ es) m h = run-delays es (step m e) (step-delays m e h)
