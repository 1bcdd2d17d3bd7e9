-- ===== src/Mobile/LiveBuses.antt =====
-- mobile/src/hooks/useLiveBuses.ts: one socket for each route that is shown. The sockets and timers
-- are numbered; what the network and the clock do are calls of the handlers.
pub mod Laws
mod Tests
use mansariya.Base.{
  ℕ, ◌+◌, ◌-◌, ◌*◌, ◌^◌, String, Bool, true, false, ◌&&◌, Option, none, some, List, [], ◌∷◌, any,
  leb, ltb, str_eq, if◌then◌else◌,
}
use mansariya.Base.Dict.{lookup, insert, delete}
use mansariya.Mobile.Api.{BusPosition}
use mansariya.Mobile.Stores.MapStore.{MapState, update_bus}

abbrev pub max_reconnect_attempts : ℕ
max_reconnect_attempts = 5

abbrev pub reconnect_base_ms : ℕ
reconnect_base_ms = 3000

-- `wsRefs`, with whether each socket is open, and `attemptsRef`; then the timers that were set, with
-- their routes and delays, newest first, and the number of sockets that were made.
pub record Live : Type 0 where
  pub ws_refs : List (String × Bool)
  pub attempts : List (String × ℕ)
  pub timers : List (String × ℕ)
  pub made : ℕ

abbrev pub attempts_of : String → Live → ℕ
attempts_of route s = elim (lookup route s.attempts) [ none ↦ 0 | some n ↦ n ]

abbrev pub is_open : String → Live → Bool
is_open route s = elim (lookup route s.ws_refs) [ none ↦ false | some o ↦ o ]

-- `invalid`: the constructor throws.
unfoldable pub connect_route : Bool → String → Live → Live
connect_route invalid route s =
    if is_open route s
    then s
    else if leb max_reconnect_attempts (attempts_of route s)
    then s
    else if invalid
    then s
    else record s { ws_refs = insert route false s.ws_refs; made = s.made + 1 }

-- `onopen` and `onclose` of the socket that `wsRefs` holds for the route.
unfoldable pub on_open : String → Live → Live
on_open route s = record s {
  ws_refs = insert route true s.ws_refs;
  attempts = insert route 0 s.attempts;
}

-- A text that does not parse is ignored.
abbrev pub on_message : ℕ → Option BusPosition → MapState → MapState
on_message now none m = m
on_message now (some bus) m = update_bus now bus m

abbrev pub reconnect_delay : ℕ → ℕ
reconnect_delay next = reconnect_base_ms * 2 ^ (next - 1)

unfoldable pub on_close : List String → String → Live → Live
on_close route_ids route s =
    let next = attempts_of route s + 1 in
    let s1 : Live = record s {
      ws_refs = delete route s.ws_refs;
      attempts = insert route next s.attempts;
    } in
    if ltb next max_reconnect_attempts && any (λ r. str_eq r route) route_ids
    then record s1 { timers = (route, reconnect_delay next) ∷ s1.timers }
    else s1

-- The effect: the attempts are counted anew, and every route is connected.
abbrev pub connect_all : List String → Live → Live
connect_all [] s = s
connect_all (r ∷ rs) s = connect_all rs (connect_route false r s)

abbrev pub start : List String → Live → Live
start route_ids s = connect_all route_ids (record s { attempts = [] })

-- The clean-up: no socket calls its `onclose` any more. The timers stay.
abbrev pub clean_up : Live → Live
clean_up s = record s { ws_refs = []; attempts = [] }
