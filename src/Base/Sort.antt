-- ===== src/Base/Sort.antt =====
-- `Array.prototype.sort` by a comparison: a stable sort, as an insertion from the right.
use mathlib.Core.Path.{◌≡◌}
use mathlib.Core.Bool.{Bool, true, false}
use mathlib.Core.List.{List, [], ◌∷◌, Perm}
use mathlib.Core.List.Perm
use mathlib.Core.Logic.{inl, inr}
use mansariya.Base.Lists.{All}
use mansariya.Base.Compare.{if◌then◌else◌, Bool-cases}

-- `lt y x`: the comparison puts `y` before `x`.
module _ {ℓ} {A : Type ℓ} (lt : A → A → Bool) where
  unfoldable pub place : A → List A → List A
  place x [] = x ∷ []
  place x (y ∷ ys) = let rest = place x ys in if lt y x then y ∷ rest else x ∷ y ∷ ys

  unfoldable pub sort : List A → List A
  unfolding place
  sort [] = []
  sort (x ∷ xs) = place x (sort xs)

  -- No neighbour comes before the one in front of it.
  abbrev pub InOrderFrom : A → List A → Type 0
  InOrderFrom x [] = Unit
  InOrderFrom x (y ∷ ys) = (lt y x ≡ false) × InOrderFrom y ys

  abbrev pub InOrder : List A → Type 0
  InOrder [] = Unit
  InOrder (x ∷ xs) = InOrderFrom x xs

  pub place-perm : (x : A) (xs : List A) → Perm (place x xs) (x ∷ xs)
  unfolding place
  place-perm x [] = Perm.rfl
  place-perm x (y ∷ ys) = elim (Bool-cases (lt y x)) [
    | inl before ↦
        rw (before, place) (Perm.trans (Perm.cons y (place-perm x ys)) (Perm.swap x y ys))
    | inr behind ↦ rw (behind, place) Perm.rfl
  ]

  -- The result has the elements of the input.
  pub sort-perm : (xs : List A) → Perm (sort xs) xs
  unfolding sort
  sort-perm [] = Perm.rfl
  sort-perm (x ∷ xs) = Perm.trans (place-perm x (sort xs)) (Perm.cons x (sort-perm xs))

  module _ (asym : (a b : A) → lt a b ≡ true → lt b a ≡ false) where
    place-InOrderFrom :
        (z x : A) (xs : List A) → lt x z ≡ false → InOrderFrom z xs → InOrderFrom z (place x xs)
    unfolding place
    place-InOrderFrom z x [] h tt = (h, tt)
    place-InOrderFrom z x (y ∷ ys) h (k, o) = elim (Bool-cases (lt y x)) [
      | inl before ↦ rw (before, place) (k, place-InOrderFrom y x ys (asym y x before) o)
      | inr behind ↦ rw (behind, place) (h, (behind, o))
    ]

    place-InOrder : (x : A) (xs : List A) → InOrder xs → InOrder (place x xs)
    unfolding place
    place-InOrder x [] o = tt
    place-InOrder x (y ∷ ys) o = elim (Bool-cases (lt y x)) [
      | inl before ↦ rw (before, place) (place-InOrderFrom y x ys (asym y x before) o)
      | inr behind ↦ rw (behind, place) (behind, o)
    ]

    pub sort-InOrder : (xs : List A) → InOrder (sort xs)
    unfolding sort
    sort-InOrder [] = tt
    sort-InOrder (x ∷ xs) = place-InOrder x (sort xs) (sort-InOrder xs)

module _ {ℓ κ} {A : Type ℓ} (P : A → Type κ) (lt : A → A → Bool) where
  All-swapped :
      (x y : A) (ys placed : List A) (before : Bool)
      → (All P placed → P x × All P ys)
      → All P (if before then y ∷ placed else x ∷ y ∷ ys)
      → P x × All P (y ∷ ys)
  All-swapped x y ys placed true f (p, r) = let (q, rest) = f r in (q, (p, rest))
  All-swapped x y ys placed false f h = h

  All-place : (x : A) (xs : List A) → All P (place lt x xs) → P x × All P xs
  unfolding place
  All-place x [] h = h
  All-place x (y ∷ ys) h = All-swapped x y ys (place lt x ys) (lt y x) (All-place x ys) h

  -- What holds of everything in the sorted list holds of everything in the list.
  pub All-sort : (xs : List A) → All P (sort lt xs) → All P xs
  unfolding sort
  All-sort [] h = tt
  All-sort (x ∷ xs) h = let (p, rest) = All-place x (sort lt xs) h in (p, All-sort xs rest)
