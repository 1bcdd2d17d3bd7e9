-- ===== src/Admin/Auth/Tests.antt =====
-- Tests and examples of admin/src/lib/auth.tsx.
use mansariya.Base.{ℕ, ◌≡◌, refl, String, true, false, Option, none, some, [], ◌∷◌}
use mansariya.Admin.Auth.{
  TokenState, AuthState, Me, tokens_stored, restore_on_mount, is_authenticated, load_stored_auth,
}
use mansariya.Admin.Auth.Laws.{IsFresh, restore_on_mount-is_authenticated}

-- Every date is at 9.
abbrev parse_date : String → Option ℕ
parse_date text = some 9

abbrev tokens : TokenState
tokens = record { access_token = "a"; refresh_token = "r"; expires_at = "nine" }

abbrev me : Me
me = record {
  user = record { id = "1"; email = "e"; display_name = "n"; status = "active"; roles = [] };
  permissions = some ("routes:read" ∷ []);
}

abbrev fresh_state : AuthState
fresh_state = record {
  user = none;
  permissions = [];
  tokens = none;
  is_loading = true;
  storage = tokens_stored tokens;
  logged_out = [];
}

fresh_state-IsFresh : IsFresh fresh_state
fresh_state-IsFresh = record { user = refl; tokens = refl }

restore_on_mount-is_authenticated_example :
    let u = restore_on_mount parse_date none (some tokens) (some me) 5 fresh_state in
    (u.is_loading ≡ false) × (is_authenticated u ≡ true)
unfolding load_stored_auth
restore_on_mount-is_authenticated_example =
    restore_on_mount-is_authenticated parse_date none (some tokens) (some me) 5 fresh_state
      fresh_state-IsFresh

abbrev signed_in : AuthState
signed_in = record fresh_state { user = some me.user; tokens = some tokens }
