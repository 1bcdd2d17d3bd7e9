-- ===== src/Mobile/Leaderboard.antt =====
-- mobile/src/screens/LeaderboardScreen.tsx: the list of contributors, loaded page by page. A request
-- keeps the order that its closure has.
pub mod Shown
pub mod Laws
mod Tests
use mansariya.Base.{
  ℕ, suc, Bool, true, false, ◌||◌, not, Option, none, some, List, [], ◌∷◌, ◌++◌, length, leb, take,
  drop, get_elem?, if◌then◌else◌,
}

pub data SortKey : Type 0 where
  total_trips total_distance_km quality_score : SortKey

abbrev pub page_size : ℕ
page_size = 50

pub record Request : Type 0 where
  pub sort : SortKey
  pub offset : ℕ
  pub append : Bool

pub record Page {ℓ} (Entry : Type ℓ) : Type ℓ where
  pub leaderboard : List Entry
  pub total : ℕ

pub record Screen {ℓ} (Entry : Type ℓ) : Type ℓ where
  pub entries : List Entry
  pub total : ℕ
  pub sort : SortKey
  pub loading : Bool
  pub loading_more : Bool

-- The screen, and the requests for further pages that are under way.
pub record Scrolling {ℓ} (Entry : Type ℓ) : Type ℓ where
  pub screen : Screen Entry
  pub pending : List Request

pub data Event : Type 0 where
  reached : Event
  answered : ℕ → Bool → Event

module _ {ℓ} {Entry : Type ℓ} where
  abbrev pub initial : Screen Entry
  initial = record {
    entries = [];
    total = 0;
    sort = total_trips;
    loading = true;
    loading_more = false;
  }

  -- `load` up to its request, and what it does with the answer; `none` is a failure, which is
  -- ignored.
  abbrev pub load : ℕ → Bool → Screen Entry → Request
  load offset append s = record { sort = s.sort; offset = offset; append = append }

  unfoldable pub on_page : Request → Option (Page Entry) → Screen Entry → Screen Entry
  on_page r none s = s
  on_page r (some page) s = record s {
    entries = if r.append then s.entries ++ page.leaderboard else page.leaderboard;
    total = page.total;
  }

  -- The effect on `[load]`, that is on the order.
  unfoldable pub effect : Screen Entry → Request × Screen Entry
  effect s = (load 0 false s, record s { loading = true })

  unfoldable pub effect_end : Request → Option (Page Entry) → Screen Entry → Screen Entry
  unfolding on_page
  effect_end r answer s = record (on_page r answer s) { loading = false }

  unfoldable pub handle_load_more : Screen Entry → Option Request × Screen Entry
  handle_load_more s =
      if s.loading_more || leb s.total (length s.entries)
      then (none, s)
      else (some (load (length s.entries) true s), record s { loading_more = true })

  unfoldable pub more_end : Request → Option (Page Entry) → Screen Entry → Screen Entry
  unfolding on_page
  more_end r answer s = record (on_page r answer s) { loading_more = false }

  -- A tap on an order: the effect runs again where it is another one.
  abbrev pub set_sort : SortKey → Screen Entry → Screen Entry
  set_sort key s = record s { sort = key }

  -- The end of the list is reached, and a request for a further page is put under way, if one is made;
  -- the request with the given number ends, by its page or by a failure.
  unfoldable pub step : (Request → Page Entry) → Event → Scrolling Entry → Scrolling Entry
  unfolding handle_load_more more_end
  step server reached w =
      let (request, s) = handle_load_more w.screen in
      record {
        screen = s;
        pending = elim request [ none ↦ w.pending | some r ↦ w.pending ++ r ∷ [] ];
      }
  step server (answered i ok) w = elim (get_elem? w.pending i) [
    | none ↦ w
    | some r ↦ record {
      screen = more_end r (if ok then some (server r) else none) w.screen;
      pending = take i w.pending ++ drop (suc i) w.pending;
    }
  ]

  unfoldable pub run : (Request → Page Entry) → List Event → Scrolling Entry → Scrolling Entry
  run server [] w = w
  run server (e ∷ es) w = run server es (step server e w)

  -- The screen is opened, or another order is chosen, and the first page comes.
  unfoldable pub opened : (Request → Page Entry) → Screen Entry → Scrolling Entry
  unfolding effect effect_end
  opened server s =
      let (r, s') = effect s in record { screen = effect_end r (some (server r)) s'; pending = [] }
