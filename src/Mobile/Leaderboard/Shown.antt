-- ===== src/Mobile/Leaderboard/Shown.antt =====
-- What the list shows: the beginning of the ranking, in any order of reaching its end and of answers.
use mansariya.Base.{
  ℕ, zero, suc, ◌+◌, ◌≤◌, min, true, false, List, [], ◌∷◌, ◌++◌, length, take, drop, leb, ◌≡◌, refl,
  ap, sym, ◌∙◌, subst, arith, length-take, Bool-cases, inl, inr, Bool, none, some, ◌⊎◌,
}
use mansariya.Mobile.Leaderboard.{
  SortKey, Request, Page, page_size, Screen, load, on_page, handle_load_more, more_end, Scrolling,
  Event, reached, answered, step, run,
}

module _ {ℓ} {A : Type ℓ} where
  pub take_all : (n : ℕ) (xs : List A) → length xs ≤ n → take n xs ≡ xs
  take_all zero [] h = refl
  take_all (suc n) [] h = refl
  take_all zero (x ∷ xs) h = absurd (omega (arith, h))
  take_all (suc n) (x ∷ xs) h = ap (◌∷◌ x) (take_all n xs (omega (arith, h)))

  drop_none : (xs : List A) → drop 0 xs ≡ xs
  drop_none xs = refl

  -- The page behind a prefix makes a longer prefix.
  take-append-page :
      (n m : ℕ) (xs : List A) → n ≤ length xs → take n xs ++ take m (drop n xs) ≡ take (n + m) xs
  take-append-page zero m xs h = ground arith
  take-append-page (suc n) m [] h = absurd (omega (arith, h))
  take-append-page (suc n) m (x ∷ xs) h =
      let e : suc (n + m) ≡ suc n + m = omega arith in
      ap (◌∷◌ x) (take-append-page n m xs (omega (arith, h))) ∙ ap (λ k. take k (x ∷ xs)) e

  prefix_stays : (n k : ℕ) (xs : List A) → length xs ≤ n → n ≤ k → take n xs ≡ take k xs
  prefix_stays n k xs h l = take_all n xs h ∙ sym (take_all k xs (omega (arith, h, l)))

module _ {ℓ} {Entry : Type ℓ} (rankings : SortKey → List Entry) where
  -- The page that a request asks for: at most fifty entries of the ranking by its order.
  abbrev pub page_of : Request → Page Entry
  page_of r = record {
    leaderboard = take page_size (drop r.offset (rankings r.sort));
    total = length (rankings r.sort);
  }

  -- No request is under way, or one is, for the page behind the entries that are shown.
  abbrev pub Waits : SortKey → Screen Entry → List Request → Type 0
  Waits key s pending =
      ((pending ≡ []) × (s.loading_more ≡ false))
      ⊎ ((pending ≡ record { sort = key; offset = length s.entries; append = true } ∷ [])
          × (s.loading_more ≡ true)
          × (leb s.total (length s.entries) ≡ false))

  -- The screen shows the first `n` entries of the ranking by its order.
  pub record Shows (key : SortKey) (n : ℕ) (w : Scrolling Entry) : Type ℓ where
    pub sorted : w.screen.sort ≡ key
    pub prefix : w.screen.entries ≡ take n (rankings key)
    pub counted : w.screen.total ≡ length (rankings key)
    pub waits : Waits key w.screen w.pending

  shown :
      (key : SortKey) (n : ℕ) (w : Scrolling Entry)
      → Shows key n w
      → length w.screen.entries ≡ min n (length (rankings key))
  shown key n w v = ap length v.prefix ∙ length-take n (rankings key)

  end_of : (n l m total : ℕ) → total ≡ l → m ≡ min n l → leb total m ≡ true → l ≤ n
  end_of n l m total e f h = ground arith

  more_of : (n l m total : ℕ) → total ≡ l → m ≡ min n l → leb total m ≡ false → (n ≤ l) × (m ≡ n)
  more_of n l m total e f h = ground arith

  whole-Shows :
      (key : SortKey) (n : ℕ) (w : Scrolling Entry)
      → Shows key n w
      → leb w.screen.total (length w.screen.entries) ≡ true
      → Shows key (n + 50) w
  whole-Shows key n w v h =
      let whole = end_of n (length (rankings key)) _ _ v.counted (shown key n w v) h in
      record {
        sorted = v.sorted;
        prefix = v.prefix ∙ prefix_stays n (n + 50) (rankings key) whole (omega arith);
        counted = v.counted;
        waits = v.waits;
      }

  -- The end of the list is reached: either the whole ranking is shown, or one request is under way.
  reached-busy : (w : Scrolling Entry) → w.screen.loading_more ≡ true → step page_of reached w ≡ w
  unfolding step handle_load_more
  reached-busy w h = ground (arith, h)

  reached-whole :
      (w : Scrolling Entry)
      → leb w.screen.total (length w.screen.entries) ≡ true
      → step page_of reached w ≡ w
  unfolding step handle_load_more
  reached-whole w h = ground (arith, h)

  reached-asks :
      (w : Scrolling Entry)
      → w.screen.loading_more ≡ false
      → leb w.screen.total (length w.screen.entries) ≡ false
      → step page_of reached w ≡ record {
        screen = record w.screen { loading_more = true };
        pending = w.pending ++ load (length w.screen.entries) true w.screen ∷ [];
      }
  unfolding step handle_load_more
  reached-asks w idle h = ground (arith, idle, h)

  -- Whether the whole ranking is shown, or a request is under way.
  abbrev Asked : SortKey → ℕ → Scrolling Entry → Type ℓ
  Asked key n w =
      Shows key n w
      × ((leb w.screen.total (length w.screen.entries) ≡ true)
          ⊎ (leb w.screen.total (length w.screen.entries) ≡ false) × (w.screen.loading_more ≡ true))

  reached-Shows :
      (key : SortKey) (n : ℕ) (w : Scrolling Entry)
      → Shows key n w
      → Asked key n (step page_of reached w)
  reached-Shows key n w v = elim v.waits [
    | inl (none_pending, idle) ↦ elim (Bool-cases (leb w.screen.total (length w.screen.entries))) [
      | inl h ↦ subst (Asked key n) (sym (reached-whole w h)) (v, inl h)
      | inr h ↦ subst (Asked key n) (sym (reached-asks w idle h)) (
        record {
          sorted = v.sorted;
          prefix = v.prefix;
          counted = v.counted;
          waits = inr (
            ap (λ ps. ps ++ load (length w.screen.entries) true w.screen ∷ []) none_pending
                ∙ ap
                    (λ o. record { sort = o; offset = length w.screen.entries; append = true } ∷ [])
                    v.sorted,
            refl,
            h,
          );
        },
        inr (h, refl),
      )
    ]
    | inr (one, busy, h) ↦ subst (Asked key n) (sym (reached-busy w busy)) (v, inr (h, busy))
  ]

  abbrev further : SortKey → Screen Entry → Request
  further key s = record { sort = key; offset = length s.entries; append = true }

  -- The page comes.
  page-Shows :
      (key : SortKey) (n : ℕ) (s : Screen Entry)
      → Shows key n (record { screen = s; pending = further key s ∷ [] })
      → leb s.total (length s.entries) ≡ false
      → Shows key (n + 50) (record {
        screen = more_end (further key s) (some (page_of (further key s))) s;
        pending = [];
      })
  unfolding more_end on_page
  page-Shows key n s v h =
      let w : Scrolling Entry = record { screen = s; pending = further key s ∷ [] } in
      let (below, len) = more_of n (length (rankings key)) _ _ v.counted (shown key n w v) h in
      record {
        sorted = v.sorted;
        prefix =
            ap (λ k. s.entries ++ take 50 (drop k (rankings key))) len
            ∙ ap (λ es. es ++ take 50 (drop n (rankings key))) v.prefix
            ∙ take-append-page n 50 (rankings key) below;
        counted = refl;
        waits = inl (refl, refl);
      }

  -- The request fails.
  failure-Shows :
      (key : SortKey) (n : ℕ) (s : Screen Entry) (r : Request) (pending : List Request)
      → Shows key n (record { screen = s; pending = pending })
      → Shows key n (record { screen = more_end r none s; pending = [] })
  unfolding more_end on_page
  failure-Shows key n s r pending v = record {
    sorted = v.sorted;
    prefix = v.prefix;
    counted = v.counted;
    waits = inl (refl, refl);
  }

  -- At least the first `n` entries are shown.
  abbrev pub ShowsFrom : SortKey → ℕ → Scrolling Entry → Type ℓ
  ShowsFrom key n w = (m : ℕ) × (n ≤ m) × Shows key m w

  answer_none-Shows :
      (key : SortKey) (n i : ℕ) (ok : Bool) (s : Screen Entry)
      → Shows key n (record { screen = s; pending = [] })
      → ShowsFrom key n (step page_of (answered i ok) (record { screen = s; pending = [] }))
  unfolding step
  answer_none-Shows key n i ok s v = (n, omega arith, v)

  answer_one-Shows :
      (key : SortKey) (n i : ℕ) (ok : Bool) (s : Screen Entry)
      → Shows key n (record { screen = s; pending = further key s ∷ [] })
      → leb s.total (length s.entries) ≡ false
      → ShowsFrom key n
          (step page_of (answered i ok) (record { screen = s; pending = further key s ∷ [] }))
  unfolding step
  answer_one-Shows key n zero true s v h = (n + 50, omega arith, page-Shows key n s v h)
  answer_one-Shows key n zero false s v h =
      (n, omega arith, failure-Shows key n s (further key s) (further key s ∷ []) v)
  answer_one-Shows key n (suc i) ok s v h = (n, omega arith, v)

  answer-Shows :
      (key : SortKey) (n i : ℕ) (ok : Bool) (s : Screen Entry) (pending : List Request)
      → Shows key n (record { screen = s; pending = pending })
      → ShowsFrom key n (step page_of (answered i ok) (record { screen = s; pending = pending }))
  answer-Shows key n i ok s pending v = elim v.waits [
    | inl (e, idle) ↦
        subst
          (λ ps.
            ShowsFrom key n (step page_of (answered i ok) (record { screen = s; pending = ps })))
          (sym e)
          (answer_none-Shows key n i ok s
            (subst (λ ps. Shows key n (record { screen = s; pending = ps })) e v))
    | inr (e, busy, h) ↦
        subst
          (λ ps.
            ShowsFrom key n (step page_of (answered i ok) (record { screen = s; pending = ps })))
          (sym e)
          (answer_one-Shows key n i ok s
            (subst (λ ps. Shows key n (record { screen = s; pending = ps })) e v) h)
  ]

  step-Shows :
      (key : SortKey) (n : ℕ) (e : Event) (w : Scrolling Entry)
      → Shows key n w
      → ShowsFrom key n (step page_of e w)
  step-Shows key n reached w v = (n, omega arith, (reached-Shows key n w v).0)
  step-Shows key n (answered i ok) w v = answer-Shows key n i ok w.screen w.pending v

  pub run-Shows :
      (key : SortKey) (es : List Event) (n : ℕ) (w : Scrolling Entry)
      → Shows key n w
      → ShowsFrom key n (run page_of es w)
  unfolding run
  run-Shows key [] n w v = (n, omega arith, v)
  run-Shows key (e ∷ es) n w v =
      let (m, le, u) = step-Shows key n e w v in
      let (k, le', u') = run-Shows key es m (step page_of e w) u in (k, omega arith, u')

  -- The end of the list is reached, and what is then under way is answered by its page.
  answered-Shows :
      (key : SortKey) (n : ℕ) (w : Scrolling Entry)
      → Asked key n w
      → ShowsFrom key (n + 50) (step page_of (answered 0 true) w)
  unfolding step
  answered-Shows key n w (v, inl h) =
      step-Shows key (n + 50) (answered 0 true) w (whole-Shows key n w v h)
  answered-Shows key n w (v, inr (h, busy)) = elim v.waits [
    | inl (_, idle) ↦ absurd cc
    | inr (e, _, _) ↦
        subst
          (λ ps.
            ShowsFrom key (n + 50)
              (step page_of (answered 0 true) (record { screen = w.screen; pending = ps })))
          (sym e)
          (
            n + 50,
            omega arith,
            page-Shows key n w.screen
                (subst (λ ps. Shows key n (record { screen = w.screen; pending = ps })) e v) h,
          )
  ]

  pub round-Shows :
      (key : SortKey) (n : ℕ) (w : Scrolling Entry)
      → Shows key n w
      → ShowsFrom key (n + 50) (step page_of (answered 0 true) (step page_of reached w))
  round-Shows key n w v = answered-Shows key n (step page_of reached w) (reached-Shows key n w v)
