-- ===== src/Mobile/Account.antt =====
-- mobile/src/screens/ContributorLoginScreen.tsx, ContributorClaimScreen.tsx and
-- ContributorProfileScreen.tsx: the forms of a contributor, the tokens and the store together.
-- `trim` is a parameter.
pub mod Laws
mod Tests
use mansariya.Base.{
  ℕ, String, Bool, true, false, ◌||◌, not, Option, none, some, List, [], ◌∷◌, ltb, str_eq,
  if◌then◌else◌,
}
use mansariya.Base.Texts.{text_length}
use mansariya.Mobile.Identity.{existing}
use mansariya.Mobile.ContributorAuth.{Auth, save_tokens, clear_tokens}
use mansariya.Mobile.Stores.ContributorStore.{
  Contributor, ContributionStats, AuthTokens, set_contributor, set_stats, set_authenticated, clear,
}

pub data Message : Type 0 where
  login_failed not_claimed name_too_short password_too_short password_mismatch : Message
  name_taken already_claimed claim_failed : Message

pub record Screen : Type 0 where
  pub auth : Auth
  pub error : Option Message
  pub loading : Bool
  pub is_left : Bool

-- A failed request, with the code of its answer, if any.
pub data Reply (A : Type 0) : Type 0 where
  done : A → Reply A
  failed : Option String → Reply A

abbrev has_code : String → Option String → Bool
has_code c none = false
has_code c (some d) = str_eq d c

module _ (trim : String → String) where
  -- `handleLogin` up to its request.
  unfoldable pub login_begin : String → String → Screen → Option (String × String) × Screen
  login_begin display_name password s =
      if str_eq (trim display_name) "" || str_eq password ""
      then (none, record s { error = some login_failed })
      else (some (trim display_name, password), record s { error = none; loading = true })

  -- `handleClaim` up to its request.
  unfoldable pub claim_begin : String → String → String → Screen → Option (String × String) × Screen
  unfolding text_length
  claim_begin display_name password confirm_password s =
      if ltb (text_length (trim display_name)) 3
      then (none, record s { error = some name_too_short })
      else if ltb (text_length password) 8
      then (none, record s { error = some password_too_short })
      else if not (str_eq password confirm_password)
      then (none, record s { error = some password_mismatch })
      else (some (trim display_name, password), record s { error = none; loading = true })

-- The profile, whose failure is ignored.
unfoldable pub on_profile : Auth × Option (Contributor × ContributionStats) → Auth
on_profile (a, none) = a
on_profile (a, some (c, stats)) = record a {
  contributor = set_stats stats (set_contributor c a.contributor);
}

-- `fetch_profile` is the request of the profile, with what its interceptors do to the tokens.
unfoldable pub login_end :
    Reply AuthTokens → (Auth → Auth × Option (Contributor × ContributionStats)) → Screen → Screen
unfolding on_profile
login_end (done tokens) fetch_profile s =
    let a = save_tokens tokens.access_token tokens.refresh_token tokens.expires_at s.auth in
    let stored : Auth = record a {
      contributor = set_authenticated true (set_contributor tokens.contributor a.contributor);
    } in
    record s { auth = on_profile (fetch_profile stored); loading = false; is_left = true }
login_end (failed code) fetch_profile s = record s {
  error = some (if has_code "not_claimed" code then not_claimed else login_failed);
  loading = false;
}

unfoldable pub claim_end : Reply Contributor → Screen → Screen
claim_end (done c) s = record s {
  auth = record s.auth { contributor = set_contributor c s.auth.contributor };
  loading = false;
  is_left = true;
}
claim_end (failed code) s = record s {
  error = some (
      if has_code "display_name_taken" code
      then name_taken
      else if has_code "already_claimed" code
      then already_claimed
      else claim_failed);
  loading = false;
}

-- `handleLogout`: the token that is sent to the server, whose answer does not matter, and the rest.
unfoldable pub handle_logout : Screen → Option String × Screen
handle_logout s = (
  existing s.auth.refresh_token,
  record s {
    auth = record (clear_tokens s.auth) { contributor = clear s.auth.contributor };
    is_left = true;
  },
)
