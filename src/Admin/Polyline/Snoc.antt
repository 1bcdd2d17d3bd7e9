-- ===== src/Admin/Polyline/Snoc.antt =====
-- Lists taken apart at their end.
use mansariya.Base.{
  suc, ◌-◌, ◌≡◌, refl, sym, ap, ◌∙◌, List, [], ◌∷◌, ◌++◌, length, drop, take_last, length-append,
  drop-append, arith, ◌⊎◌, inl, inr,
}
use mansariya.Admin.Polyline.{unsnoc}

pub unsnoc-append {ℓ} :
    {A : Type ℓ} (x : A) (xs : List A) → (unsnoc x xs).0 ++ (unsnoc x xs).1 ∷ [] ≡ x ∷ xs
unsnoc-append x [] = refl
unsnoc-append x (y ∷ ys) = ap (x ∷◌) (unsnoc-append y ys)

abbrev pub front {ℓ} : {A : Type ℓ} → List A → List A
front [] = []
front (x ∷ xs) = (unsnoc x xs).0

unsnoc-snoc {ℓ} : {A : Type ℓ} (x : A) (xs : List A) (y : A) → (unsnoc x (xs ++ y ∷ [])).0 ≡ x ∷ xs
unsnoc-snoc x [] y = refl
unsnoc-snoc x (z ∷ zs) y = ap (x ∷◌) (unsnoc-snoc z zs y)

pub front-snoc {ℓ} : {A : Type ℓ} (xs : List A) (y : A) → front (xs ++ y ∷ []) ≡ xs
front-snoc [] y = refl
front-snoc (x ∷ xs) y = unsnoc-snoc x xs y

unsnoc-append_mid {ℓ} :
    {A : Type ℓ} (x : A) (xs : List A) (y : A) (ys : List A)
    → (unsnoc x (xs ++ y ∷ ys)).0 ≡ x ∷ xs ++ front (y ∷ ys)
unsnoc-append_mid x [] y ys = refl
unsnoc-append_mid x (z ∷ zs) y ys = ap (x ∷◌) (unsnoc-append_mid z zs y ys)

pub front-append {ℓ} :
    {A : Type ℓ} (xs : List A) (y : A) (ys : List A) → front (xs ++ y ∷ ys) ≡ xs ++ front (y ∷ ys)
front-append [] y ys = refl
front-append (x ∷ xs) y ys = unsnoc-append_mid x xs y ys

pub length-unsnoc {ℓ} : {A : Type ℓ} (x : A) (xs : List A) → length (unsnoc x xs).0 ≡ length xs
length-unsnoc x [] = refl
length-unsnoc x (y ∷ ys) = ap suc (length-unsnoc y ys)

abbrev pub final {ℓ} : {A : Type ℓ} → A → List A → A
final d [] = d
final d (x ∷ xs) = final x xs

pub final-snoc {ℓ} : {A : Type ℓ} (d : A) (xs : List A) (y : A) → final d (xs ++ y ∷ []) ≡ y
final-snoc d [] y = refl
final-snoc d (x ∷ xs) y = final-snoc x xs y

pub take_last-snoc {ℓ} :
    {A : Type ℓ} (xs : List A) (x : A) → take_last 10 xs ++ x ∷ [] ≡ take_last 11 (xs ++ x ∷ [])
take_last-snoc xs x =
    let n = length (xs ++ x ∷ []) - 11 in
    let e : length xs - 10 ≡ n = omega (arith, length-append xs (x ∷ [])) in
    ap (λ k. drop k xs ++ x ∷ []) e
    ∙ sym (drop-append n xs (x ∷ []) (omega (arith, length-append xs (x ∷ []))))

pub List-cases {ℓ} : {A : Type ℓ} (l : List A) → (l ≡ []) ⊎ ((x : A) × (xs : List A) × (l ≡ x ∷ xs))
List-cases [] = inl refl
List-cases (x ∷ xs) = inr (x, xs, refl)
