-- ===== src/Admin/Api.antt =====
-- admin/src/lib/api.ts: the headers of a request, its errors, and the queries of the lists. A token
-- and the answers of the backend are arguments.
pub mod Types
mod Tests
use mansariya.Base.{
  ℕ, String, Bool, true, false, not, Option, none, some, List, [], ◌∷◌, ◌++◌, ◌==◌, str_eq,
  if◌then◌else◌,
}
use mansariya.Mobile.Identity.{existing}
use mansariya.Admin.Auth.{AuthState, clear_stored_auth}

pub data Header : Type 0 where
  accept_json content_json : Header
  bearer : String → Header
  api_key : String → Header

-- `token` is what `getAccessToken` gives.
unfoldable pub auth_headers : String → Option String → Bool → List Header
auth_headers admin_api_key token false = accept_json ∷ []
auth_headers admin_api_key token true = elim (existing token) [
  | some t ↦ accept_json ∷ bearer t ∷ []
  | none ↦ accept_json ∷ api_key admin_api_key ∷ []
]

-- An answer: its status, whether that is a good one, and the value of the body; or the error text
-- of the body.
pub record Response {ℓ} (A : Type ℓ) : Type ℓ where
  pub status : ℕ
  pub is_ok : Bool
  pub value : Option A
  pub error_message : Option String

-- The error that is thrown: the session has ended, a text of the backend, or the status.
pub data ApiError : Type 0 where
  session_expired : ApiError
  backend_error : String → ApiError
  request_failed : ℕ → ApiError
  bad_body : ApiError

-- The session of the console, and the path that the browser shows.
pub record Browser : Type 0 where
  pub auth : AuthState
  pub pathname : String

module _ {ℓ} {A : Type ℓ} where
  unfoldable pub parse_api_error : Response A → Browser → ApiError × Browser
  parse_api_error r b =
      if r.status == 401
      then (
        session_expired,
        record b {
          auth = clear_stored_auth b.auth;
          pathname = if str_eq b.pathname "/login" then b.pathname else "/login";
        },
      )
      else (elim (existing r.error_message) [
        | some text ↦ (backend_error text, b)
        | none ↦ (request_failed r.status, b)
      ])

  -- `apiGet` and `apiMutate` on the answer.
  unfoldable pub api_answer : Response A → Browser → (Option A × Option ApiError) × Browser
  unfolding parse_api_error
  api_answer r b =
      if r.is_ok
      then (elim r.value [ some v ↦ ((some v, none), b) | none ↦ ((none, some bad_body), b) ])
      else (let (e, b') = parse_api_error r b in ((none, some e), b'))

pub data QueryValue : Type 0 where
  text : String → QueryValue
  number : ℕ → QueryValue

abbrev pub Query : Type 0
Query = List (String × QueryValue)

-- `if (params?.x) q.set("x", params.x)`: an absent value, the empty text and zero set nothing.
abbrev pub set_text : String → Option String → Query
set_text key v = elim (existing v) [ none ↦ [] | some t ↦ (key, text t) ∷ [] ]

abbrev pub set_number : String → Option ℕ → Query
set_number key none = []
set_number key (some n) = if n == 0 then [] else (key, number n) ∷ []

pub record AdminRoutesParams : Type 0 where
  pub q : Option String
  pub operator : Option String
  pub service_type : Option String
  pub is_active : Option String
  pub sort_by : Option String
  pub sort_dir : Option String
  pub page : Option ℕ
  pub per_page : Option ℕ

-- The query of `fetchAdminRoutes`.
unfoldable pub admin_routes_query : AdminRoutesParams → Query
admin_routes_query p =
    set_text "q" p.q
    ++ (set_text "operator" p.operator
        ++ (set_text "service_type" p.service_type
            ++ (set_text "is_active" p.is_active
                ++ (set_text "sort_by" p.sort_by
                    ++ (set_text "sort_dir" p.sort_dir
                        ++ (set_number "page" p.page ++ set_number "per_page" p.per_page))))))

pub record AdminStopsParams : Type 0 where
  pub search : Option String
  pub source : Option String
  pub sort_by : Option String
  pub sort_dir : Option String
  pub limit : Option ℕ
  pub offset : Option ℕ

-- The query of `fetchAdminStops`.
unfoldable pub admin_stops_query : AdminStopsParams → Query
admin_stops_query p =
    set_text "search" p.search
    ++ (set_text "source" p.source
        ++ (set_text "sort_by" p.sort_by
            ++ (set_text "sort_dir" p.sort_dir
                ++ (set_number "limit" p.limit ++ set_number "offset" p.offset))))

pub record SimulationsParams : Type 0 where
  pub search : Option String
  pub status : Option String
  pub sort_by : Option String
  pub sort_dir : Option String
  pub limit : Option ℕ
  pub offset : Option ℕ

-- The query of `fetchSimulations`.
unfoldable pub simulations_query : SimulationsParams → Query
simulations_query p =
    set_text "search" p.search
    ++ (set_text "status" p.status
        ++ (set_text "sort_by" p.sort_by
            ++ (set_text "sort_dir" p.sort_dir
                ++ (set_number "limit" p.limit ++ set_number "offset" p.offset))))
