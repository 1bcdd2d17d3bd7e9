-- ===== src/Admin/Auth.antt =====
-- admin/src/lib/auth.tsx: the session of the console. A part between two answers of the backend is a
-- function; an answer that fails, by the network, the status or the parser, is `none`.
pub mod Laws
mod Tests
use mansariya.Base.{
  ℕ, String, Bool, true, false, ◌&&◌, ◌||◌, not, Option, none, some, List, [], ◌∷◌, any, ltb,
  str_eq, if◌then◌else◌,
}
use mansariya.Mobile.Identity.{existing}

pub record Role : Type 0 where
  pub id : String
  pub slug : String
  pub name : String

pub record AuthUser : Type 0 where
  pub id : String
  pub email : String
  pub display_name : String
  pub status : String
  pub roles : List Role

pub record TokenState : Type 0 where
  pub access_token : String
  pub refresh_token : String
  pub expires_at : String

-- The item `mansariya_auth` of the local storage.
pub data Stored : Type 0 where
  nothing : Stored
  malformed : Stored
  tokens_stored : TokenState → Stored

-- The state of the provider, with the storage, and the refresh tokens whose end was asked for.
pub record AuthState : Type 0 where
  pub user : Option AuthUser
  pub permissions : List String
  pub tokens : Option TokenState
  pub is_loading : Bool
  pub storage : Stored
  pub logged_out : List String

-- The answers of `/auth/me`, `/auth/refresh` and `/auth/login`.
pub record Me : Type 0 where
  pub user : AuthUser
  pub permissions : Option (List String)

pub record Login : Type 0 where
  pub user : AuthUser
  pub tokens : TokenState

-- `new Date(text)`; a text that is no date is before nothing.
module _ (parse_date : String → Option ℕ) where
  abbrev pub is_past : ℕ → String → Bool
  is_past now text = elim (parse_date text) [ none ↦ false | some t ↦ ltb t now ]

  unfoldable pub load_stored_auth : ℕ → AuthState → Option TokenState × AuthState
  load_stored_auth now s = elim s.storage [
    | nothing ↦ (none, s)
    | malformed ↦ (none, record s { storage = nothing })
    | tokens_stored t ↦
        if is_past now t.expires_at then (none, record s { storage = nothing }) else (some t, s)
  ]

  abbrev pub get_access_token : ℕ → AuthState → Option String
  get_access_token now s = elim (load_stored_auth now s).0 [
    | none ↦ none
    | some t ↦ some t.access_token
  ]

abbrev pub store_auth : TokenState → AuthState → AuthState
store_auth t s = record s { storage = tokens_stored t }

abbrev pub clear_stored_auth : AuthState → AuthState
clear_stored_auth s = record s { storage = nothing }

-- `permissions || []`
abbrev pub or_none : Option (List String) → List String
or_none none = []
or_none (some ps) = ps

abbrev pub set_me : Me → AuthState → AuthState
set_me me s = record s { user = some me.user; permissions = or_none me.permissions }

-- The catch of the first call: the refresh, and the call with the new token.
unfoldable pub refresh_session : Option TokenState → Option Me → AuthState → AuthState
refresh_session none again s = clear_stored_auth s
refresh_session (some fresh) none s =
    clear_stored_auth (record (store_auth fresh s) { tokens = some fresh })
refresh_session (some fresh) (some me) s =
    set_me me (record (store_auth fresh s) { tokens = some fresh })

-- The effect on mount: `first` is the answer with the stored token, `fresh` that to the refresh and
-- `again` that with the new token.
unfoldable pub restore_on_mount :
    (String → Option ℕ) → Option Me → Option TokenState → Option Me → ℕ → AuthState → AuthState
unfolding load_stored_auth refresh_session
restore_on_mount parse_date first fresh again now s =
    let (found, s1) = load_stored_auth parse_date now s in
    elim found [
      | none ↦ record s1 { is_loading = false }
      | some stored ↦ elim first [
        | some me ↦ record (set_me me s1) { tokens = some stored; is_loading = false }
        | none ↦ record (refresh_session fresh again s1) { is_loading = false }
      ]
    ]

-- The flag says whether `login` throws.
unfoldable pub login : Option Login → Option Me → AuthState → Bool × AuthState
login none me s = (true, s)
login (some l) none s =
    (true, record (store_auth l.tokens s) { tokens = some l.tokens; user = some l.user })
login (some l) (some me) s = (
  false,
  record (store_auth l.tokens s) {
    tokens = some l.tokens;
    user = some l.user;
    permissions = or_none me.permissions;
  },
)

unfoldable pub logout : AuthState → AuthState
logout s =
    let told : List String = elim s.tokens [
      | none ↦ s.logged_out
      | some t ↦ if str_eq t.refresh_token "" then s.logged_out else t.refresh_token ∷ s.logged_out
    ] in
    record (clear_stored_auth s) { user = none; permissions = []; tokens = none; logged_out = told }

abbrev pub has_permission : String → AuthState → Bool
has_permission p s = any (λ q. str_eq q p) s.permissions

abbrev pub has {ℓ} : {A : Type ℓ} → Option A → Bool
has none = false
has (some a) = true

abbrev pub is_authenticated : AuthState → Bool
is_authenticated s = has s.user && has s.tokens
