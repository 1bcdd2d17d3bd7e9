-- ===== src/Mobile/Account/Tests.antt =====
-- Examples of the forms of a contributor.
use mansariya.Base.{true, false, none, some, [], ◌≡◌, refl}
use mansariya.Mobile.ContributorAuth.{is_logged_in}
use mansariya.Mobile.Stores.ContributorStore.{AuthTokens, Contributor, claimed, initial}
use mansariya.Mobile.Account.{Screen, done, on_profile, login_end, handle_logout}

abbrev contributor : Contributor
contributor = record {
  id = "1";
  contributor_id = "c9";
  display_name = some "nimal";
  status = claimed;
  claimed_at = none;
  last_seen_at = none;
  created_at = "noon";
  updated_at = "noon";
}

abbrev tokens : AuthTokens
tokens = record {
  contributor = contributor;
  access_token = "a";
  refresh_token = "r";
  expires_at = "noon";
}

abbrev screen : Screen
screen = record {
  auth = record {
    access_token = none;
    refresh_token = none;
    expires_at = none;
    contributor = initial;
    is_refreshing = false;
    joined = [];
    refreshes = [];
    sent = [];
    rejected = [];
  };
  error = none;
  loading = true;
  is_left = false;
}

-- A login without a profile, and a logout.
login_then_logout :
    let t = login_end (done tokens) (λ a. (a, none)) screen in
    let (sent, u) = handle_logout t in
    (is_logged_in t.auth ≡ true)
    × (t.auth.contributor.is_authenticated ≡ true)
    × (sent ≡ some "r")
    × (is_logged_in u.auth ≡ false)
    × (u.auth.contributor ≡ initial)
unfolding login_end on_profile handle_logout
login_then_logout = (refl, refl, refl, refl, refl)
