-- ===== src/Admin/Polyline/Nearest.antt =====
-- Adding a point to the polyline: where it goes, and what the selection then denotes.
use mansariya.Base.{
  ℕ, zero, suc, ◌+◌, ◌≤◌, ◌<◌, ◌≡◌, refl, sym, ap, ◌∙◌, subst, ◌⊎◌, inl, inr, none, some, List, [],
  ◌∷◌, ◌++◌, length, get_elem?, ltb, arith, All, Bool-cases,
}
use mansariya.Admin.Polyline.{
  Editor, Point, distance, nearest, insert_at, take_last, push_history, handle_add_point,
}

-- q is at r in ps, and nothing of ps is nearer to p.
unfoldable pub IsNearestAt : Point → List Point → ℕ → Point → Type 0
IsNearestAt p ps r q =
    (before : List Point) × (after : List Point) × (ps ≡ before ++ q ∷ after)
    × (r ≡ length before)
    × All (λ s. distance q p ≤ distance s p) ps

-- Every point of ps is at least m away, and the answer is the one before, or a point of ps is
-- nearer than m and nearest among them.
Outcome : Point → ℕ → ℕ → ℕ → List Point → ℕ → Type 0
Outcome p best m i ps r =
    ((r ≡ best) × All (λ s. m ≤ distance s p) ps)
    ⊎ ((j : ℕ) × (q : Point) × (r ≡ i + j) × (distance q p < m) × IsNearestAt p ps j q)

nearer-cons :
    (p s q : Point) (ps : List Point) (j : ℕ)
    → distance q p ≤ distance s p
    → IsNearestAt p ps j q
    → IsNearestAt p (s ∷ ps) (suc j) q
unfolding IsNearestAt
nearer-cons p s q ps j h (before, after, c, n, all) =
    (s ∷ before, after, ap (s ∷◌) c, omega arith, (h, all))

-- The search that starts with s, which is at i.
first-Outcome :
    (p s : Point) (i : ℕ) (ps : List Point) (r : ℕ)
    → Outcome p i (distance s p) (i + 1) ps r
    → (j : ℕ) × (q : Point) × (r ≡ i + j)
      × (distance q p ≤ distance s p)
      × IsNearestAt p (s ∷ ps) j q
unfolding Outcome IsNearestAt
first-Outcome p s i ps r (inl (e, all)) =
    (0, s, omega arith, omega arith, ([], ps, refl, refl, (omega arith, all)))
first-Outcome p s i ps r (inr (j, q, e, lt, n)) =
    (suc j, q, omega arith, omega arith, nearer-cons p s q ps j (omega arith) n)

nearest-Outcome :
    (p : Point) (best m i : ℕ) (ps : List Point)
    → Outcome p best m i ps (nearest p best (some m) i ps)
unfolding nearest Outcome
nearest-Outcome p best m i [] = inl (refl, tt)
nearest-Outcome p best m i (s ∷ ps) = elim (Bool-cases (ltb (distance s p) m)) [
  | inl t ↦
      let (j, q, e, le, n) =
        first-Outcome p s i ps _ (nearest-Outcome p i (distance s p) (i + 1) ps) in
      rw t (inr (j, q, e, ground (arith, t, le), n))
  | inr t ↦ rw t (elim (nearest-Outcome p best m (i + 1) ps) [
    | inl (e, all) ↦ inl (e, (ground (arith, t), all))
    | inr (j, q, e, lt, n) ↦
        inr (suc j, q, omega arith, lt, nearer-cons p s q ps j (ground (arith, t, lt)) n)
  ])
]

pub nearest-IsNearestAt :
    (p s : Point) (ps : List Point)
    → (q : Point) × IsNearestAt p (s ∷ ps) (nearest p 0 none 0 (s ∷ ps)) q
unfolding nearest
nearest-IsNearestAt p s ps =
    let (j, q, e, le, n) = first-Outcome p s 0 ps _ (nearest-Outcome p 0 (distance s p) 1 ps) in
    let same : j ≡ nearest p 0 (some (distance s p)) 1 ps = omega arith in
    (q, subst (λ r. IsNearestAt p (s ∷ ps) r q) same n)

insert_at-next :
    (before : List Point) (q p : Point) (after : List Point) (n : ℕ)
    → n ≡ length before + 1
    → insert_at n p (before ++ q ∷ after) ≡ before ++ q ∷ p ∷ after
unfolding insert_at
insert_at-next [] q p after zero e = absurd (omega arith)
insert_at-next [] q p after (suc zero) e = refl
insert_at-next [] q p after (suc (suc n)) e = absurd (omega arith)
insert_at-next (b ∷ bs) q p after zero e = absurd (omega arith)
insert_at-next (b ∷ bs) q p after (suc n) e =
    ap (b ∷◌) (insert_at-next bs q p after n (omega arith))

-- On a polyline with points, a point is added directly after one of those that are nearest to it,
-- the order of the others is kept, and the polyline that was there is put in the history.
pub handle_add_point-nearest :
    (p s : Point) (ps : List Point) (e : Editor)
    → e.working ≡ s ∷ ps
    → (before : List Point) × (q : Point) × (after : List Point) × (e.working ≡ before ++ q ∷ after)
      × ((handle_add_point p e).working ≡ before ++ q ∷ p ∷ after)
      × All (λ t. distance q p ≤ distance t p) e.working
      × ((handle_add_point p e).history ≡ take_last 10 e.history ++ e.working ∷ [])
unfolding handle_add_point insert_at IsNearestAt push_history
handle_add_point-nearest p s ps e h =
    let (q, (before, after, c, n, all)) = nearest-IsNearestAt p s ps in
    (
      before,
      q,
      after,
      h ∙ c,
      rw (h, c)
          (insert_at-next before q p after (nearest p 0 none 0 (before ++ q ∷ after) + 1)
            (rw (sym c) (omega arith))),
      subst (All (λ t. distance q p ≤ distance t p)) (sym h) all,
      refl,
    )

get_elem?-insert_at :
    (n j : ℕ) (p : Point) (ps : List Point)
    → n ≤ j
    → get_elem? (insert_at n p ps) (suc j) ≡ get_elem? ps j
unfolding insert_at
get_elem?-insert_at zero j p ps h = refl
get_elem?-insert_at (suc n) j p [] h = refl
get_elem?-insert_at (suc n) zero p (x ∷ xs) h = absurd (omega arith)
get_elem?-insert_at (suc n) (suc j) p (x ∷ xs) h = get_elem?-insert_at n j p xs (omega arith)

-- When a point is added, every point behind it has its index raised by one, and the selected
-- indices stay as they are.
pub handle_add_point-shift :
    (p : Point) (e : Editor) (j : ℕ)
    → nearest p 0 none 0 e.working < j
    → (get_elem? (handle_add_point p e).working (suc j) ≡ get_elem? e.working j)
      × ((handle_add_point p e).selected_points ≡ e.selected_points)
unfolding handle_add_point
handle_add_point-shift p e j h =
    (get_elem?-insert_at (nearest p 0 none 0 e.working + 1) j p e.working (omega arith), refl)
