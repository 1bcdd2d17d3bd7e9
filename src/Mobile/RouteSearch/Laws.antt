-- ===== src/Mobile/RouteSearch/Laws.antt =====
-- The spinner and the results of the search.
use mansariya.Base.{
  ℕ, Bool, true, false, ◌||◌, Option, none, some, List, [], ◌∷◌, ◌++◌, map, ◌≡◌, ◌⊎◌, inl, inr,
  refl, arith, Option-cases,
}
use mansariya.Mobile.RouteSearch.{
  Request, online, offline, Route, Row, to_route, Search, Answer, found, rows, failed, search, fire,
  pick, settle, answer, Event, typed, fired, answered, step, run,
}

module _ {ℓ} {Query : Type ℓ} where
  has_timer : Option Query → Bool
  has_timer none = false
  has_timer (some q) = true

  has_requests : List (Request Query) → Bool
  has_requests [] = false
  has_requests (r ∷ rest) = true

  -- Something is still to come: the timer, or an answer.
  pub pending : Search Query → Bool
  pending s = has_timer s.timer || has_requests s.requests

  -- The spinner is shown only while something is still to come.
  abbrev pub Spins : Search Query → Type 0
  Spins s = (s.loading ≡ false) ⊎ (pending s ≡ true)

  has_requests-snoc :
      (rs : List (Request Query)) (r : Request Query) → has_requests (rs ++ r ∷ []) ≡ true
  unfolding has_requests
  has_requests-snoc [] r = refl
  has_requests-snoc (x ∷ rs) r = refl

  settle-Spins : (r : Request Query) (a : Answer) (s : Search Query) → Spins (settle r a s)
  unfolding settle pending
  settle-Spins (online q) (found rs) s = inl refl
  settle-Spins (online q) (rows rs) s =
      inr (ground (arith, has_requests-snoc s.requests (offline q)))
  settle-Spins (online q) failed s = inr (ground (arith, has_requests-snoc s.requests (offline q)))
  settle-Spins (offline q) (found rs) s = inl refl
  settle-Spins (offline q) (rows rs) s = inl refl
  settle-Spins (offline q) failed s = inl refl

  answer-Spins : (i : ℕ) (a : Answer) (s : Search Query) → Spins s → Spins (answer i a s)
  unfolding answer
  answer-Spins i a s v = elim (Option-cases (pick i s.requests)) [
    | inl e ↦ rw (e, answer) v
    | inr ((r, others), e) ↦ rw (e, answer) (settle-Spins r a (record s { requests = others }))
  ]

  fire-Spins : (s : Search Query) → Spins s → Spins (fire s)
  unfolding fire pending has_timer
  fire-Spins s v = elim (Option-cases s.timer) [
    | inl e ↦ ground (arith, e)
    | inr (q, e) ↦ ground (arith, e, has_requests-snoc s.requests (online q))
  ]

  module _ (is_blank : Query → Bool) where
    search-Spins : (q : Query) (s : Search Query) → Spins (search is_blank q s)
    unfolding search pending has_timer
    search-Spins q s = ground arith

    step-Spins : (e : Event Query) (s : Search Query) → Spins s → Spins (step is_blank e s)
    unfolding step
    step-Spins (typed q) s v = search-Spins q s
    step-Spins fired s v = fire-Spins s v
    step-Spins (answered i a) s v = answer-Spins i a s v

    -- Whatever is typed, and in whatever order the answers of the server and of the database come,
    -- or fail: the search never spins with nothing more to come.
    pub run-Spins :
        (events : List (Event Query)) (s : Search Query) → Spins s → Spins (run is_blank events s)
    unfolding run
    run-Spins [] s v = v
    run-Spins (e ∷ rest) s v = run-Spins rest (step is_blank e s) (step-Spins e s v)

    -- From a search with nothing under way: a query that is not blank, whose timer fires, shows what
    -- the server finds for it; and where the server fails, what the database finds, marked as
    -- offline; and an error where both fail.
    pub search-results :
        (q : Query) (s : Search Query) (rs : List Route) (qs : List Row)
        → is_blank q ≡ false
        → s.requests ≡ []
        → let t = fire (search is_blank q s) in
          (answer 0 (found rs) t ≡ record s {
            results = rs;
            loading = false;
            error = false;
            is_offline = false;
            timer = none;
            requests = [];
          })
          × (answer 0 (rows qs) (answer 0 failed t) ≡ record s {
            results = map to_route qs;
            loading = false;
            error = false;
            is_offline = true;
            timer = none;
            requests = [];
          })
          × (answer 0 failed (answer 0 failed t) ≡ record s {
            results = [];
            loading = false;
            error = true;
            timer = none;
            requests = [];
          })
    unfolding search fire answer pick settle
    search-results q s rs qs text none_yet = (
      ground (arith, text, none_yet),
      ground (arith, text, none_yet),
      ground (arith, text, none_yet),
    )

    -- The query is cleared while its request is under way: the answer shows its routes all the same.
    pub search-cleared :
        (q blank : Query) (s : Search Query) (rs : List Route)
        → is_blank q ≡ false
        → is_blank blank ≡ true
        → s.requests ≡ []
        → let t = search is_blank blank (fire (search is_blank q s)) in
          (t.results ≡ []) × ((answer 0 (found rs) t).results ≡ rs)
    unfolding search fire answer pick settle
    search-cleared q blank s rs text cleared none_yet =
        (ground (arith, text, cleared), ground (arith, text, cleared, none_yet))
