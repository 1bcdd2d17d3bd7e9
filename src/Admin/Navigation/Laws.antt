-- ===== src/Admin/Navigation/Laws.antt =====
-- The item found is the longest that fits.
use mansariya.Base.{
  ◌≤◌, String, true, false, Option, some, List, [], ◌∷◌, ◌≡◌, ◌⊎◌, inl, inr, arith, if◌then◌else◌,
  Bool-cases, subst, All, All-mono,
}
use mansariya.Base.Sort.{sort, InOrder, InOrderFrom, All-sort, sort-InOrder}
use mansariya.Admin.Navigation.{NavItem, longer, is_nav_item_active, find_item, matched_item}
use mansariya.Base.Texts.{text_length}

longer-asym : (a b : NavItem) → longer a b ≡ true → longer b a ≡ false
longer-asym a b h = ground arith

-- A list with the longest path first.
front-longest :
    (x : NavItem) (xs : List NavItem)
    → InOrderFrom longer x xs
    → All (λ (i : NavItem). text_length i.url ≤ text_length x.url) xs
front-longest x [] o = tt
front-longest x (y ∷ ys) (h, o) =
    let le : text_length y.url ≤ text_length x.url = ground (arith, h) in
    (le, All-mono (λ i k. omega (arith, k, le)) ys (front-longest y ys o))

InOrderFrom-tail : (x : NavItem) (xs : List NavItem) → InOrderFrom longer x xs → InOrder longer xs
InOrderFrom-tail x [] o = tt
InOrderFrom-tail x (y ∷ ys) (h, o) = o

module _ (pathname : String) where
  -- The item does not fit, or the one that is found fits and has no shorter path.
  abbrev pub Yields : Option NavItem → NavItem → Type 0
  Yields found i =
      (is_nav_item_active pathname i.url ≡ false)
      ⊎ ((j : NavItem) × (found ≡ some j)
          × (is_nav_item_active pathname j.url ≡ true)
          × (text_length i.url ≤ text_length j.url))

  find_item-Yields :
      (xs : List NavItem) → InOrder longer xs → All (Yields (find_item pathname xs)) xs
  unfolding find_item
  find_item-Yields [] o = tt
  find_item-Yields (x ∷ xs) o = elim (Bool-cases (is_nav_item_active pathname x.url)) [
    | inl fits ↦
        let found : (if is_nav_item_active pathname x.url then some x else find_item pathname xs)
            ≡ some x =
          ground (arith, fits) in
        (
          inr (x, found, fits, omega arith),
          All-mono (λ i le. inr (x, found, fits, le)) xs (front-longest x xs o),
        )
    | inr out ↦
        let same : find_item pathname xs
            ≡ (if is_nav_item_active pathname x.url then some x else find_item pathname xs) =
          ground (arith, out) in
        (
          inl out,
          subst (λ f. All (Yields f) xs) same (find_item-Yields xs (InOrderFrom-tail x xs o)),
        )
  ]

  -- Of the items of a menu, in whatever order, that fit the path, the one that is found has the
  -- longest path; where one fits, one is found.
  pub matched_item-Yields :
      (items : List NavItem) → All (Yields (matched_item pathname items)) items
  unfolding matched_item
  matched_item-Yields items =
      All-sort (Yields (find_item pathname (sort longer items))) longer items
        (find_item-Yields (sort longer items) (sort-InOrder longer longer-asym items))
