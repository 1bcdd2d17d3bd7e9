-- ===== src/Admin/Auth/Laws.antt =====
-- What the restoration of a session and its end leave behind.
use mansariya.Base.{ℕ, ◌≡◌, refl, String, false, ◌&&◌, ◌||◌, Option, none, arith}
use mansariya.Admin.Auth.{
  AuthState, TokenState, Me, load_stored_auth, refresh_session, restore_on_mount, logout, has,
  is_authenticated, has_permission, get_access_token,
}

-- The state in which the provider is mounted.
pub record IsFresh (s : AuthState) : Type 0 where
  pub user : s.user ≡ none
  pub tokens : s.tokens ≡ none

-- Where nobody is signed in yet, restoring a session ends the loading whatever the backend answers,
-- and authenticates the user exactly if tokens were stored that have not expired and that the
-- backend knows, or that it refreshes and then knows.
pub restore_on_mount-is_authenticated :
    (parse_date : String → Option ℕ) (first : Option Me) (fresh : Option TokenState)
    (again : Option Me) (now : ℕ) (s : AuthState)
    → IsFresh s
    → let u = restore_on_mount parse_date first fresh again now s in
      (u.is_loading ≡ false)
      × (is_authenticated u
          ≡ (has (load_stored_auth parse_date now s).0 && (has first || (has fresh && has again))))
unfolding restore_on_mount load_stored_auth refresh_session
restore_on_mount-is_authenticated parse_date first fresh again now s f =
    ground (arith, f.user, f.tokens)

-- After a logout nobody is authenticated, no permission is left, and a restoration at any time, for
-- any answers of the backend, authenticates nobody.
pub restore_on_mount-logout :
    (parse_date : String → Option ℕ) (first : Option Me) (fresh : Option TokenState)
    (again : Option Me) (now : ℕ) (p : String) (s : AuthState)
    → (is_authenticated (logout s) ≡ false)
      × (has_permission p (logout s) ≡ false)
      × (get_access_token parse_date now (logout s) ≡ none)
      × (is_authenticated (restore_on_mount parse_date first fresh again now (logout s)) ≡ false)
unfolding restore_on_mount load_stored_auth refresh_session logout
restore_on_mount-logout parse_date first fresh again now p s = (refl, refl, refl, refl)
