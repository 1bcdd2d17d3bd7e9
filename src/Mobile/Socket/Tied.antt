-- ===== src/Mobile/Socket/Tied.antt =====
-- Sockets that nothing more is heard of, and timers that the manager can stop.
use mansariya.Base.{
  ℕ, ◌≡◌, ◌⊎◌, inl, inr, refl, ap, ◌∙◌, true, false, Option, none, some, List, [], ◌∷◌, All,
  All-mono, All-map, any, select, not, arith, ◌==◌, ==_iff, Bool-cases,
}
use mansariya.Mobile.Socket.{closed, Socket, silence, silence_current, stop_timer}

abbrev pub IsQuiet : Socket → Type 0
IsQuiet s = (s.armed ≡ false) ⊎ (s.ready ≡ closed)

abbrev pub Tied : Option ℕ → List ℕ → Socket → Type 0
Tied ws timers s = IsQuiet s ⊎ ((ws ≡ some s.id) × (timers ≡ []))

abbrev pub IsTimer : Option ℕ → ℕ → Type 0
IsTimer timer k = timer ≡ some k

pub stop_timer-empty :
    (timer : Option ℕ) (ks : List ℕ) → All (IsTimer timer) ks → stop_timer timer ks ≡ []
stop_timer-empty none [] h = refl
stop_timer-empty none (k ∷ ks) h = cc (h.0)
stop_timer-empty (some j) [] h = refl
stop_timer-empty (some j) (k ∷ ks) h = ground (arith, stop_timer-empty (some j) ks)

pub select_other-empty :
    (timer : Option ℕ) (k : ℕ) (ks : List ℕ)
    → timer ≡ some k
    → All (IsTimer timer) ks
    → select (λ j. not (j == k)) ks ≡ []
select_other-empty timer k [] e h = refl
select_other-empty timer k (j ∷ ks) e (p, h) = ground (arith, select_other-empty timer k ks e h)

pub any-IsTimer :
    (timer : Option ℕ) (k : ℕ) (ks : List ℕ)
    → any (λ j. j == k) ks ≡ true
    → All (IsTimer timer) ks
    → timer ≡ some k
any-IsTimer timer k [] e h = cc
any-IsTimer timer k (j ∷ ks) e (p, h) = elim (Bool-cases (j == k)) [
  | inl same ↦ p ∙ ap some ((==_iff j k).0 same)
  | inr other ↦ any-IsTimer timer k ks (rw other at e) h
]

pub silence-IsQuiet :
    (ws : Option ℕ) (timers : List ℕ) (ss : List Socket)
    → All (Tied ws timers) ss
    → All IsQuiet (silence_current ws ss)
silence-IsQuiet none timers ss h = All-mono (λ s p. ground arith) ss h
silence-IsQuiet (some i) timers ss h = All-map IsQuiet (silence i) (λ s p. ground arith) ss h

pub IsQuiet-Tied :
    (ws : Option ℕ) (timers : List ℕ) (ss : List Socket) → All IsQuiet ss → All (Tied ws timers) ss
IsQuiet-Tied ws timers ss h = All-mono (λ s p. inl p) ss h
