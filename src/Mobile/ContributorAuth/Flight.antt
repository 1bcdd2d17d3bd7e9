-- ===== src/Mobile/ContributorAuth/Flight.antt =====
-- Requests whose token has expired share one refresh, and each of them is made in the end.
use mansariya.Base.{
  ℕ, ◌+◌, ◌≤◌, ◌≡◌, refl, ap, String, true, false, Option, none, some, List, [], ◌∷◌, ◌++◌, length,
  length-append, arith, if◌then◌else◌, Bool-cases, inl, inr,
}
use mansariya.Mobile.Identity.{existing}
use mansariya.Mobile.Stores.ContributorStore.{AuthTokens}
use mansariya.Mobile.ContributorAuth.{
  Auth, refresh_begin, refresh_end, release, send_all, on_request, on_refreshed,
}

pub data Event : Type 0 where
  request : ℕ → String → ℕ → Event
  refreshed : Option AuthTokens → Event

module _ (parse_date : String → Option ℕ) where
  unfoldable pub step : Auth → Event → Auth
  step s (request i url now) = on_request parse_date i url now s
  step s (refreshed outcome) = on_refreshed outcome s

  abbrev pub run : Auth → List Event → Auth
  run s [] = s
  run s (e ∷ es) = run (step s e) es

abbrev pub requests : List Event → ℕ
requests [] = 0
requests (request i url now ∷ es) = requests es + 1
requests (refreshed outcome ∷ es) = requests es

abbrev pub answers : List Event → ℕ
answers [] = 0
answers (request i url now ∷ es) = answers es
answers (refreshed outcome ∷ es) = answers es + 1

-- The requests that were made, and those that wait.
abbrev pub made : Auth → ℕ
made s = length s.sent + length s.joined

send_all-sent :
    (is : List ℕ) (token : Option String) (s : Auth)
    → (length (send_all is token s).sent ≡ length s.sent + length is)
      × ((send_all is token s).joined ≡ s.joined)
      × ((send_all is token s).refreshes ≡ s.refreshes)
      × ((send_all is token s).is_refreshing ≡ s.is_refreshing)
send_all-sent [] token s = (omega arith, refl, refl, refl)
send_all-sent (i ∷ is) token s =
    let (n, j, r, b) = send_all-sent is token (record s { sent = (i, existing token) ∷ s.sent }) in
    (omega arith, j, r, b)

-- A release makes all that wait.
release-made :
    (token : Option String) (s : Auth)
    → (length (release token s).sent ≡ made s)
      × ((release token s).joined ≡ [])
      × ((release token s).refreshes ≡ s.refreshes)
      × ((release token s).is_refreshing ≡ false)
unfolding release
release-made token s =
    send_all-sent s.joined token (record s { joined = []; is_refreshing = false })

-- What is left of the one refresh at a time.
abbrev pub budget : Auth → ℕ
budget s = length s.refreshes + (if s.is_refreshing then 0 else 1)

request-made :
    (parse_date : String → Option ℕ) (i : ℕ) (url : String) (now : ℕ) (s : Auth)
    → (made (on_request parse_date i url now s) ≡ made s + 1)
      × (budget (on_request parse_date i url now s) ≤ budget s)
unfolding on_request refresh_begin
request-made parse_date i url now s = ground (
  arith,
  length-append s.joined (i ∷ []),
  release-made none (record s { joined = s.joined ++ i ∷ []; is_refreshing = true }),
)

refresh_end_keeps :
    (outcome : Option AuthTokens) (s : Auth)
    → ((refresh_end outcome s).1.sent ≡ s.sent)
      × ((refresh_end outcome s).1.joined ≡ s.joined)
      × ((refresh_end outcome s).1.refreshes ≡ s.refreshes)
unfolding refresh_end
refresh_end_keeps none s = (refl, refl, refl)
refresh_end_keeps (some tokens) s = (refl, refl, refl)

refreshed-made :
    (outcome : Option AuthTokens) (s : Auth)
    → (made (on_refreshed outcome s) ≡ made s) × (budget (on_refreshed outcome s) ≤ budget s + 1)
unfolding on_refreshed
refreshed-made outcome s = elim (Bool-cases s.is_refreshing) [
  | inr idle ↦ ground (arith, idle)
  | inl busy ↦
      let u = (refresh_end outcome s).1 in
      let token = (refresh_end outcome s).0 in
      let (sent, joined, refreshes) = refresh_end_keeps outcome s in
      let (n, j, r, b) = release-made token u in
      let count : made (release token u) ≡ made s =
        omega (arith, n, ap length j, ap length sent, ap length joined) in
      let cost : budget (release token u) ≤ budget s + 1 =
        ground (arith, ap length r, ap length refreshes, b) in
      ground (arith, busy, count, cost)
]

run-budget :
    (parse_date : String → Option ℕ) (es : List Event) (s : Auth)
    → (made (run parse_date s es) ≡ made s + requests es)
      × (budget (run parse_date s es) ≤ budget s + answers es)
unfolding step
run-budget parse_date [] s = (omega arith, omega arith)
run-budget parse_date (request i url now ∷ es) s =
    let (n, b) = run-budget parse_date es (on_request parse_date i url now s) in
    let (n1, b1) = request-made parse_date i url now s in (omega arith, omega arith)
run-budget parse_date (refreshed outcome ∷ es) s =
    let (n, b) = run-budget parse_date es (on_refreshed outcome s) in
    let (n1, b1) = refreshed-made outcome s in (omega arith, omega arith)

-- Whatever the order of the requests and of the answers to the shared refresh: the requests that
-- were made and those that wait for the refresh are as many as there were, and at most one more
-- refresh is asked for than answers came.
pub run-made :
    (parse_date : String → Option ℕ) (es : List Event) (s : Auth)
    → (made (run parse_date s es) ≡ made s + requests es)
      × (length (run parse_date s es).refreshes ≤ length s.refreshes + 1 + answers es)
run-made parse_date es s = let (n, b) = run-budget parse_date es s in (n, ground (arith, b))

-- While a shared refresh is under way, its answer, good or bad, makes every request that waited and
-- leaves none waiting.
pub on_refreshed-joined :
    (outcome : Option AuthTokens) (s : Auth)
    → s.is_refreshing ≡ true
    → ((on_refreshed outcome s).joined ≡ [])
      × (length (on_refreshed outcome s).sent ≡ length s.sent + length s.joined)
      × ((on_refreshed outcome s).is_refreshing ≡ false)
unfolding on_refreshed
on_refreshed-joined outcome s busy =
    let (sent, joined, refreshes) = refresh_end_keeps outcome s in
    let (n, j, r, b) = release-made (refresh_end outcome s).0 (refresh_end outcome s).1 in
    ground (arith, busy, n, j, b, ap length sent, ap length joined)
