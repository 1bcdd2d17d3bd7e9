-- ===== src/Base/Nearest.antt =====
-- The loop that looks for the least distance: the first element always beats `Infinity`, and later
-- ones only if they are nearer.
use Prim.Native.Nat.{ℕ, suc, ◌+◌, ◌≤◌}
use mathlib.Core.Path.{◌≡◌, refl, ap, ◌∙◌, subst}
use mathlib.Core.Logic.{◌⊎◌, inl, inr}
use mathlib.Core.Bool.{Bool, true, false}
use mathlib.Core.Option.{some}
use mathlib.Core.List.{List, [], ◌∷◌}
use native.Mathlib.Omega.{arith}
use mansariya.Base.Compare.{ltb, if◌then◌else◌}
use mansariya.Base.Lists.{All, get_elem?}

plus_none : (i : ℕ) → i ≡ i + 0
plus_none i = omega arith

one_plus : (j : ℕ) → 1 + j ≡ suc j
one_plus j = omega arith

module _ {ℓ} {A : Type ℓ} (d : A → ℕ) where
  -- `i` counts, `best` is the least distance so far with its index.
  unfoldable pub best_from : ℕ → ℕ × ℕ → List A → ℕ × ℕ
  best_from i best [] = best
  best_from i best (a ∷ rest) = best_from (suc i) (if ltb (d a) best.0 then (d a, i) else best) rest

  -- The index of the nearest element of a list that has a first one.
  abbrev pub nearest_index : A → List A → ℕ
  nearest_index a rest = (best_from 1 (d a, 0) rest).1

  best_from-le : (i : ℕ) (best : ℕ × ℕ) (rest : List A) → (best_from i best rest).0 ≤ best.0
  unfolding best_from
  best_from-le i best [] = omega arith
  best_from-le i best (a ∷ rest) =
      let next : ℕ × ℕ = if ltb (d a) best.0 then (d a, i) else best in
      ground (arith, best_from-le (suc i) next rest)

  best_from-least :
      (i : ℕ) (best : ℕ × ℕ) (rest : List A) → All (λ a. (best_from i best rest).0 ≤ d a) rest
  unfolding best_from
  best_from-least i best [] = tt
  best_from-least i best (a ∷ rest) =
      let next : ℕ × ℕ = if ltb (d a) best.0 then (d a, i) else best in
      (ground (arith, best_from-le (suc i) next rest), best_from-least (suc i) next rest)

  -- The index is that of an element with the distance; `j` counts from the elements that are left.
  abbrev Found : ℕ → ℕ × ℕ → List A → Type ℓ
  Found i r rest = (j : ℕ) × (a : A) × (r.1 ≡ i + j) × (get_elem? rest j ≡ some a) × (r.0 ≡ d a)

  Found-next :
      (i : ℕ) (a : A) (rest : List A) (best r : ℕ × ℕ) (less : Bool)
      → (r ≡ (if less then (d a, i) else best)) ⊎ Found (suc i) r rest
      → (r ≡ best) ⊎ Found i r (a ∷ rest)
  Found-next i a rest best r true (inl e) =
      inr (0, a, ap (λ (x : ℕ × ℕ). x.1) e ∙ plus_none i, refl, ap (λ (x : ℕ × ℕ). x.0) e)
  Found-next i a rest best r false (inl e) = inl e
  Found-next i a rest best r less (inr (j, b, c, g, k)) = inr (suc j, b, omega (arith, c), g, k)

  best_from-Found :
      (i : ℕ) (best : ℕ × ℕ) (rest : List A)
      → (best_from i best rest ≡ best) ⊎ Found i (best_from i best rest) rest
  unfolding best_from
  best_from-Found i best [] = inl refl
  best_from-Found i best (a ∷ rest) =
      let less = ltb (d a) best.0 in
      let next : ℕ × ℕ = if less then (d a, i) else best in
      Found-next i a rest best (best_from (suc i) next rest) less
        (best_from-Found (suc i) next rest)

  -- The index is that of an element, and no element is nearer.
  pub nearest_index-least :
      (a : A) (rest : List A)
      → (b : A) × (get_elem? (a ∷ rest) (nearest_index a rest) ≡ some b)
        × All (λ c. d b ≤ d c) (a ∷ rest)
  nearest_index-least a rest =
      let best : ℕ × ℕ = (d a, 0) in
      let le = best_from-le 1 best rest in
      let below = best_from-least 1 best rest in
      elim (best_from-Found 1 best rest) [
        | inl e ↦ (
          a,
          ap (λ (x : ℕ × ℕ). get_elem? (a ∷ rest) x.1) e,
          subst (λ k. All (λ c. k ≤ d c) (a ∷ rest)) (ap (λ (x : ℕ × ℕ). x.0) e) (le, below),
        )
        | inr (j, b, c, g, k) ↦ (
          b,
          ap (get_elem? (a ∷ rest)) (c ∙ one_plus j) ∙ g,
          subst (λ e. All (λ c. e ≤ d c) (a ∷ rest)) k (le, below),
        )
      ]
