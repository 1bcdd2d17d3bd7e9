-- ===== src/Mobile/RouteSearch.antt =====
-- mobile/src/hooks/useRouteSearch.ts: the debounced search for routes, first at the server, then in
-- the offline database.
pub mod Laws
mod Tests
use mansariya.Base.{
  ℕ, zero, suc, String, Bool, true, false, Option, none, some, List, [], ◌∷◌, ◌++◌, map,
  if◌then◌else◌,
}

-- A search that waits for the server, or for the database.
pub data Request {ℓ} (Query : Type ℓ) : Type ℓ where
  online : Query → Request Query
  offline : Query → Request Query

pub record Route : Type 0 where
  pub id : String
  pub name_en : String
  pub name_si : String
  pub name_ta : String
  pub operator : Option String
  pub service_type : Option String
  pub fare_lkr : Option ℕ
  pub frequency_minutes : Option ℕ
  pub is_active : Bool

-- A row of the database; its other names may be missing.
pub record Row : Type 0 where
  pub id : String
  pub name_en : String
  pub name_si : Option String
  pub name_ta : Option String
  pub operator : Option String
  pub service_type : Option String
  pub fare_lkr : Option ℕ
  pub frequency_minutes : Option ℕ

abbrev or_empty : Option String → String
or_empty none = ""
or_empty (some s) = s

unfoldable pub to_route : Row → Route
to_route r = record {
  id = r.id;
  name_en = r.name_en;
  name_si = or_empty r.name_si;
  name_ta = or_empty r.name_ta;
  operator = r.operator;
  service_type = r.service_type;
  fare_lkr = r.fare_lkr;
  frequency_minutes = r.frequency_minutes;
  is_active = true;
}

pub record Search {ℓ} (Query : Type ℓ) : Type ℓ where
  pub results : List Route
  pub loading : Bool
  pub error : Bool
  pub is_offline : Bool
  pub timer : Option Query
  pub requests : List (Request Query)

-- An answer of the server or of the database, or a failure; an answer of the other one counts as
-- a failure.
pub data Answer : Type 0 where
  found : List Route → Answer
  rows : List Row → Answer
  failed : Answer

module _ {ℓ} {Query : Type ℓ} where
  abbrev pub initial : Search Query
  initial = record {
    results = [];
    loading = false;
    error = false;
    is_offline = false;
    timer = none;
    requests = [];
  }

  module _ (is_blank : Query → Bool) where
    -- `search`
    unfoldable pub search : Query → Search Query → Search Query
    search q s =
        if is_blank q
        then record s { timer = none; results = []; loading = false; is_offline = false }
        else record s { timer = some q; loading = true; error = false }

  unfoldable pub fire : Search Query → Search Query
  fire s = elim s.timer [
    | none ↦ s
    | some q ↦ record s { timer = none; requests = s.requests ++ online q ∷ [] }
  ]

  -- Taking out the i-th request.
  unfoldable pub pick : ℕ → List (Request Query) → Option (Request Query × List (Request Query))
  pick i [] = none
  pick zero (r ∷ rest) = some (r, rest)
  pick (suc i) (r ∷ rest) = elim (pick i rest) [
    | none ↦ none
    | some (x, others) ↦ some (x, r ∷ others)
  ]

  -- What an answer does to the search that has lost its request. A failure of the server leads to
  -- the database, where the search goes on loading.
  unfoldable pub settle : Request Query → Answer → Search Query → Search Query
  unfolding to_route
  settle (online q) (found rs) s = record s { results = rs; is_offline = false; loading = false }
  settle (online q) (rows rs) s = record s { requests = s.requests ++ offline q ∷ [] }
  settle (online q) failed s = record s { requests = s.requests ++ offline q ∷ [] }
  settle (offline q) (rows rs) s = record s {
    results = map to_route rs;
    is_offline = true;
    loading = false;
  }
  settle (offline q) (found rs) s = record s { results = []; error = true; loading = false }
  settle (offline q) failed s = record s { results = []; error = true; loading = false }

  unfoldable pub answer : ℕ → Answer → Search Query → Search Query
  unfolding pick settle
  answer i a s = elim (pick i s.requests) [
    | none ↦ s
    | some (r, others) ↦ settle r a (record s { requests = others })
  ]

pub data Event {ℓ} (Query : Type ℓ) : Type ℓ where
  typed : Query → Event Query
  fired : Event Query
  answered : ℕ → Answer → Event Query

module _ {ℓ} {Query : Type ℓ} (is_blank : Query → Bool) where
  unfoldable pub step : Event Query → Search Query → Search Query
  step (typed q) s = search is_blank q s
  step fired s = fire s
  step (answered i a) s = answer i a s

  unfoldable pub run : List (Event Query) → Search Query → Search Query
  run [] s = s
  run (e ∷ rest) s = run rest (step e s)
