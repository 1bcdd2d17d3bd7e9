-- ===== src/Admin/Polyline/Selection/Indices.antt =====
-- Sets of indices below a bound, and the lengths of an edited polyline.
use mansariya.Base.{
  ℕ, zero, suc, ◌+◌, ◌-◌, ◌≤◌, ◌<◌, min, Bool, List, [], ◌∷◌, length, set, take, drop,
  length-append, length-take, length-drop, select, All, All-append, All-mono, Bool-cases, ◌≡◌, inl,
  inr, refl, ap, arith,
}
use mansariya.Admin.Polyline.{
  Point, has, set_add, largest, max, add_range, insert_at, Rect, inside, indices_inside, add_all,
}

abbrev pub Below : ℕ → List ℕ → Type 0
Below n s = All (λ i. i < n) s

pub Below-mono : (m n : ℕ) (s : List ℕ) → m ≤ n → Below m s → Below n s
Below-mono m n s le v = All-mono (λ i h. omega (arith, h, le)) s v

pub Below-select : (n : ℕ) (p : ℕ → Bool) (s : List ℕ) → Below n s → Below n (select p s)
Below-select n p [] v = tt
Below-select n p (i ∷ s) (h, v) = elim (Bool-cases (p i)) [
  | inl kept ↦ rw kept (h, Below-select n p s v)
  | inr gone ↦ rw gone (Below-select n p s v)
]

pub Below-add : (n i : ℕ) (s : List ℕ) → i < n → Below n s → Below n (set_add i s)
Below-add n i s h v = elim (Bool-cases (has s i)) [
  | inl old ↦ rw old v
  | inr new ↦ rw new (All-append (λ j. j < n) s (i ∷ []) v (h, tt))
]

pub Below-add_range : (n k i : ℕ) (s : List ℕ) → i + k ≤ n → Below n s → Below n (add_range k i s)
unfolding add_range
Below-add_range n zero i s h v = v
Below-add_range n (suc k) i s h v =
    Below-add_range n k (i + 1) (set_add i s) (omega (arith, h))
      (Below-add n i s (omega (arith, h)) v)

pub Below-largest : (n m : ℕ) (s : List ℕ) → m < n → Below n s → largest m s < n
Below-largest n m [] h v = h
Below-largest n m (i ∷ s) h (k, v) = Below-largest n (max m i) s (ground (arith, h, k)) v

pub Below-add_all : (n : ℕ) (is s : List ℕ) → Below n is → Below n s → Below n (add_all is s)
Below-add_all n [] s h v = v
Below-add_all n (i ∷ is) s (h, hs) v = Below-add_all n is (set_add i s) hs (Below-add n i s h v)

pub Below-inside :
    (n : ℕ) (project : Point → Point) (r : Rect) (i : ℕ) (ps : List Point)
    → i + length ps ≤ n
    → Below n (indices_inside project r i ps)
unfolding indices_inside
Below-inside n project r i [] h = tt
Below-inside n project r i (p ∷ ps) h = elim (Bool-cases (inside r (project p))) [
  | inl yes_inside ↦
      rw (yes_inside, indices_inside)
        (omega (arith, h), Below-inside n project r (i + 1) ps (omega (arith, h)))
  | inr outside ↦
      rw (outside, indices_inside) (Below-inside n project r (i + 1) ps (omega (arith, h)))
]

pub length-set : (ps : List Point) (i : ℕ) (p : Point) → length (set ps i p) ≡ length ps
length-set [] i p = refl
length-set (q ∷ ps) zero p = refl
length-set (q ∷ ps) (suc i) p = ap suc (length-set ps i p)

pub length-insert_at : (i : ℕ) (p : Point) (ps : List Point) → length ps ≤ length (insert_at i p ps)
unfolding insert_at
length-insert_at i p ps =
    omega (arith, length-append (take i ps) (p ∷ drop i ps), length-take i ps, length-drop i ps)

range_within :
    (n i j : ℕ) (s : List ℕ)
    → i < n
    → Below n (j ∷ s)
    → let last = largest j s in
      Below n (add_range (max last i + 1 - min last i) (min last i) (j ∷ s))
range_within n i j s h (k, v) =
    let below = Below-largest n j s k v in
    let last = largest j s in
    let fits : min last i + (max last i + 1 - min last i) ≤ n = ground (arith, below, h) in
    Below-add_range n (max last i + 1 - min last i) (min last i) (j ∷ s) fits (k, v)

pub extended_within :
    (n i : ℕ) (s : List ℕ)
    → i < n
    → Below n s
    → Below n (elim s [
      | [] ↦ i ∷ []
      | j ∷ r ↦
          let last = largest j r in
          let start = min last i in add_range (max last i + 1 - start) start (j ∷ r)
    ])
extended_within n i [] below v = (below, tt)
extended_within n i (j ∷ s) below v = range_within n i j s below v
