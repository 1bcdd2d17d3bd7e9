-- ===== src/Mobile/ContributorAuth/Laws.antt =====
-- What a refresh and the restoration of a session leave behind.
use mansariya.Base.{
  ℕ, ◌≡◌, String, Bool, true, false, ◌&&◌, ◌||◌, not, Option, none, some, ◌∷◌, arith, if◌then◌else◌,
}
use mansariya.Mobile.Identity.{existing}
use mansariya.Mobile.Stores.ContributorStore.{Contributor, ContributionStats, AuthTokens}
use mansariya.Mobile.ContributorAuth.{
  Auth, needs_auth, is_unauthorized, is_token_expired, is_present, is_logged_in, refresh_begin,
  refresh_end, on_error, on_error_refreshed, restore_session, restore_profile,
}

abbrev pub came {ℓ} : {A : Type ℓ} → Option A → Bool
came none = false
came (some a) = true

-- The backend gives no empty access token.
abbrev pub GivesTokens : Option AuthTokens → Type 0
GivesTokens none = Unit
GivesTokens (some tokens) = is_present (some tokens.access_token) ≡ true

-- Where the backend gives no empty token, restoring a session for which a token is stored ends the
-- loading on every branch, and leaves the contributor, who was not authenticated before,
-- authenticated exactly if the profile came, and the token had not expired or could be refreshed.
pub restore_session-is_authenticated :
    (parse_date : String → Option ℕ) (outcome : Option AuthTokens)
    (profile : Option (Contributor × ContributionStats)) (now : ℕ) (s : Auth)
    → is_present s.access_token ≡ true
    → s.contributor.is_authenticated ≡ false
    → GivesTokens outcome
    → let u = restore_session parse_date outcome profile now s in
      (u.contributor.is_loading ≡ false)
      × (u.contributor.is_authenticated ≡ (
          came profile
          && (not (is_token_expired parse_date now s)
              || (is_present s.refresh_token && came outcome))))
unfolding restore_session refresh_begin refresh_end restore_profile
restore_session-is_authenticated parse_date outcome profile now s h off tokens = ground arith

-- Where the backend gives no empty token, after the restoration of a session for which a token is
-- stored, the contributor has a token still, except when the profile was asked for and did not
-- come, or the refresh was asked for and failed.
pub restore_session-is_logged_in :
    (parse_date : String → Option ℕ) (outcome : Option AuthTokens)
    (profile : Option (Contributor × ContributionStats)) (now : ℕ) (s : Auth)
    → is_present s.access_token ≡ true
    → GivesTokens outcome
    → let expired = is_token_expired parse_date now s in
      let asked = expired && is_present s.refresh_token in
      is_logged_in (restore_session parse_date outcome profile now s)
      ≡ ((expired && not asked) || (came profile && (not asked || came outcome)))
unfolding restore_session refresh_begin refresh_end restore_profile
restore_session-is_logged_in parse_date outcome profile now s h tokens = ground arith

-- A request is repeated after an error exactly if the status is 401, the path needs the token, the
-- request was not repeated before and a refresh token is at hand, and is rejected else.
pub on_error-retried :
    (i : ℕ) (url : String) (status : Option ℕ) (retried : Bool) (s : Auth)
    → let again =
        is_unauthorized status && needs_auth url && not retried && is_present s.refresh_token in
      ((on_error i url status retried s).0 ≡ again)
      × ((on_error i url status retried s).1.rejected
          ≡ (if again then s.rejected else i ∷ s.rejected))
unfolding on_error refresh_begin
on_error-retried i url status retried s = ground arith

-- With a refresh token stored, two requests on a path that needs the token, both refused with 401
-- before the first refresh is answered, both send the same refresh token; when the first refresh
-- gives a token and the second one fails, the new tokens are cleared and the contributor is logged
-- out.
pub on_error-twice :
    (i j : ℕ) (url : String) (rt : String) (tokens : AuthTokens) (s : Auth)
    → needs_auth url ≡ true
    → existing s.refresh_token ≡ some rt
    → GivesTokens (some tokens)
    → let t = (on_error j url (some 401) false (on_error i url (some 401) false s).1).1 in
      let u = on_error_refreshed (some tokens) i t in
      let v = on_error_refreshed none j u.1 in
      (t.refreshes ≡ rt ∷ rt ∷ s.refreshes)
      × (u.0 ≡ true)
      × (is_logged_in u.1 ≡ true)
      × (is_logged_in v.1 ≡ false)
      × (v.1.contributor.is_authenticated ≡ false)
unfolding on_error on_error_refreshed refresh_begin refresh_end
on_error-twice i j url rt tokens s path token given = ground arith
