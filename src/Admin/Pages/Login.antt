-- ===== src/Admin/Pages/Login.antt =====
-- admin/src/pages/login.tsx: signing in.
use mansariya.Base.{
  String, Bool, true, false, Option, none, some, List, [], ◌∷◌, if◌then◌else◌, ◌≡◌, refl,
}
use mansariya.Admin.Auth.{AuthState, Login, Me, login as auth_login, is_authenticated, has}
use mansariya.Admin.Pages.{dashboard, Router, shown, follow}
use mansariya.Admin.Pages.Laws.{follow_inside-dashboard, follow_inside-login}

-- The form, with the session and the path that the browser shows. `failed` is the text of the error.
pub record LoginScreen : Type 0 where
  pub auth : AuthState
  pub error : String
  pub is_submitting : Bool
  pub path : List String

unfoldable pub submit_begin : LoginScreen → LoginScreen
submit_begin s = record s { error = ""; is_submitting = true }

-- `answer` is that to the login, and `me` that to the question who the user is; `failed` is the text
-- of the error that is thrown.
unfoldable pub submit_end : Option Login → Option Me → String → LoginScreen → LoginScreen
submit_end answer me failed s =
    let (threw, auth) = auth_login answer me s.auth in
    record s {
      auth = auth;
      error = if threw then failed else s.error;
      is_submitting = false;
      path = if threw then s.path else [];
    }

-- Once the login is answered the wheel is off, the user is signed in and the dashboard is shown. That
-- is so too where the second question fails and the form has an error to show, which is not seen.
pub submit_end-follow :
    (router : Router) (answer : Login) (me : Option Me) (failed : String) (s : LoginScreen)
    → s.auth.is_loading ≡ false
    → s.path ≡ "login" ∷ []
    → let t = submit_end (some answer) me failed (submit_begin s) in
      (t.is_submitting ≡ false)
      × (is_authenticated t.auth ≡ true)
      × (t.error ≡ (if has me then "" else failed))
      × (follow router 2 t.auth t.path ≡ some (shown dashboard))
unfolding submit_end submit_begin auth_login
submit_end-follow router answer none failed s restored here = (
  refl,
  refl,
  refl,
  rw here (
      follow_inside-login router (submit_end (some answer) none failed (submit_begin s)).auth
        restored refl 0),
)
submit_end-follow router answer (some me) failed s restored here = (
  refl,
  refl,
  refl,
  follow_inside-dashboard router (submit_end (some answer) (some me) failed (submit_begin s)).auth
      restored refl 1,
)
