-- ===== src/Mobile/ContributorAuth/Tests.antt =====
-- Tests and examples of mobile/src/services/contributorAuth.ts.
use mansariya.Base.{
  ℕ, ◌+◌, ◌≤◌, ◌≡◌, refl, String, true, false, Option, none, some, List, [], ◌∷◌, length,
  if◌then◌else◌, str_eq,
}
use mansariya.Base.Texts.{take_text, text_length}
use mansariya.Mobile.Stores.ContributorStore
use mansariya.Mobile.Stores.ContributorStore.{Contributor, AuthTokens, claimed}
use mansariya.Mobile.ContributorAuth.{Auth, includes, needs_auth, restore_session}
use mansariya.Mobile.ContributorAuth.Flight.{Event, request, refreshed, run, made, run-made}
use mansariya.Mobile.ContributorAuth.Laws.{restore_session-is_authenticated}

-- Dates are seconds after noon here.
abbrev parse_date : String → Option ℕ
parse_date text = if str_eq text "noon" then some 0 else none

abbrev contributor : Contributor
contributor = record {
  id = "1";
  contributor_id = "c9";
  display_name = none;
  status = claimed;
  claimed_at = none;
  last_seen_at = none;
  created_at = "noon";
  updated_at = "noon";
}

abbrev tokens : AuthTokens
tokens = record {
  contributor = contributor;
  access_token = "a2";
  refresh_token = "r2";
  expires_at = "noon";
}

abbrev signed_in : Auth
signed_in = record {
  access_token = some "a1";
  refresh_token = some "r1";
  expires_at = some "noon";
  contributor = ContributorStore.initial;
  is_refreshing = false;
  joined = [];
  refreshes = [];
  sent = [];
  rejected = [];
}

abbrev me : String
me = "/api/v1/contributor/me"

me-needs_auth : needs_auth me ≡ true
unfolding includes text_length take_text
me-needs_auth = refl

buses_public : needs_auth "/api/v1/buses" ≡ false
unfolding includes text_length take_text
buses_public = refl

abbrev events : List Event
events = request 0 me 5 ∷ request 1 me 6 ∷ refreshed (some tokens) ∷ []

run-made_example :
    (made (run parse_date signed_in events) ≡ 0 + 2)
    × (length (run parse_date signed_in events).refreshes ≤ 0 + 1 + 1)
run-made_example = run-made parse_date events signed_in

abbrev refreshing : Auth
refreshing = record signed_in { is_refreshing = true; joined = 0 ∷ 1 ∷ []; refreshes = "r1" ∷ [] }

restore_session-is_authenticated_example :
    let u = restore_session parse_date (some tokens) none 5 signed_in in
    (u.contributor.is_loading ≡ false) × (u.contributor.is_authenticated ≡ false)
restore_session-is_authenticated_example =
    restore_session-is_authenticated parse_date (some tokens) none 5 signed_in refl refl refl
