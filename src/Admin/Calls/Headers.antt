-- ===== src/Admin/Calls/Headers.antt =====
-- admin/src/lib/api.ts: the headers of a call.
use Prim.Native.String.{◌++◌}
use package.text.Mathlib.Text.{starts_with}
use package.text.Mathlib.TextLemmas.{append_assoc}
use package.text.Mathlib.TextPositions.{starts_with-append}
use mansariya.Base.{
  String, Bool, true, false, Option, List, [], ◌∷◌, ◌++◌ as append, ◌≡◌, refl, sym, subst, ap, ◌∙◌,
  arith,
}
use mansariya.Admin.Api.{Header, content_json, bearer, api_key, auth_headers}
use mansariya.Admin.Calls.{Request, path_text, under_admin}
use mansariya.Admin.Calls.Mutations.{
  Mutation, delete_route, change_simulation, start, mutation_request,
}
use mansariya.Admin.Calls.Fetches.{
  Fetch, fetch_active_buses, fetch_active_buses_detail, fetch_health, fetch_nearby_stops,
  fetch_leaderboard, fetch_request,
}

pub data Call : Type 0 where
  read : Fetch → Call
  change : Mutation → Call

abbrev pub call_request : Call → Request
call_request (read f) = fetch_request f
call_request (change m) = mutation_request m

-- What `apiGet` and `apiMutate` send; `token` is what `getAccessToken` gives.
unfoldable pub call_headers : String → Option String → Call → List Header
call_headers admin_api_key token (read f) = auth_headers admin_api_key token (fetch_request f).admin
call_headers admin_api_key token (change m) =
    append (auth_headers admin_api_key token true) (content_json ∷ [])

-- Whether a token or the key is among the headers.
unfoldable pub has_credential : List Header → Bool
has_credential [] = false
has_credential (bearer _ ∷ rest) = true
has_credential (api_key _ ∷ rest) = true
has_credential (_ ∷ rest) = has_credential rest

under_admin-append :
    (segments : List String) → "/api/v1/admin" ++ path_text segments ≡ under_admin segments
unfolding path_text
under_admin-append segments =
    let rest = path_text segments in
    append_assoc "/" "api/v1/admin" rest
    ∙ ap (λ t. "/" ++ t)
        (append_assoc "api" "/v1/admin" rest
          ∙ ap (λ t. "api" ++ t)
              (append_assoc "/" "v1/admin" rest
                ∙ ap (λ t. "/" ++ t)
                    (append_assoc "v1" "/admin" rest
                      ∙ ap (λ t. "v1" ++ t) (append_assoc "/" "admin" rest))))

IsAdmin : String → Bool → Type 0
IsAdmin path admin = admin ≡ starts_with path "/api/v1/admin"

under_admin-IsAdmin : (segments : List String) → IsAdmin (under_admin segments) true
unfolding IsAdmin
under_admin-IsAdmin segments =
    subst (λ path. true ≡ starts_with path "/api/v1/admin") (under_admin-append segments)
      (sym (starts_with-append "/api/v1/admin" (path_text segments)))

public_paths :
    IsAdmin (path_text ("api" ∷ "v1" ∷ "buses" ∷ "active" ∷ [])) false
    × IsAdmin (path_text ("" ∷ [])) false
    × IsAdmin (path_text ("api" ∷ "v1" ∷ "stops" ∷ "nearby" ∷ [])) false
    × IsAdmin (path_text ("api" ∷ "v1" ∷ "contributor" ∷ "leaderboard" ∷ [])) false
unfolding IsAdmin path_text
public_paths = (refl, refl, refl, refl)

credential_iff :
    (key : String) (token : Option String) (admin : Bool)
    → has_credential (auth_headers key token admin) ≡ admin
unfolding has_credential auth_headers
credential_iff key token false = refl
credential_iff key token true = ground arith

change_credential :
    (key : String) (token : Option String)
    → has_credential (append (auth_headers key token true) (content_json ∷ [])) ≡ true
unfolding has_credential auth_headers
change_credential key token = ground arith

fetch-IsAdmin : (f : Fetch) → IsAdmin (fetch_request f).path (fetch_request f).admin
unfolding fetch_request
fetch-IsAdmin fetch_active_buses = public_paths.0
fetch-IsAdmin fetch_active_buses_detail = public_paths.0
fetch-IsAdmin fetch_health = public_paths.1
fetch-IsAdmin fetch_nearby_stops = public_paths.2
fetch-IsAdmin (fetch_leaderboard _ _ _) = public_paths.3
fetch-IsAdmin f = under_admin-IsAdmin _

change-IsAdmin : (m : Mutation) → IsAdmin (mutation_request m).path true
unfolding mutation_request
change-IsAdmin (delete_route id) = under_admin-IsAdmin _
change-IsAdmin (change_simulation start id) = under_admin-IsAdmin _
change-IsAdmin m = under_admin-IsAdmin _

-- A read or a change of `Call`, that is a call that admin/src/lib/api.ts makes through `apiGet` or
-- `apiMutate`, carries a token or the key exactly if its path is one of the administration.
pub call_headers-has_credential :
    (key : String) (token : Option String) (c : Call)
    → has_credential (call_headers key token c) ≡ starts_with (call_request c).path "/api/v1/admin"
unfolding call_headers IsAdmin
call_headers-has_credential key token (read f) =
    credential_iff key token (fetch_request f).admin ∙ fetch-IsAdmin f
call_headers-has_credential key token (change m) = change_credential key token ∙ change-IsAdmin m
