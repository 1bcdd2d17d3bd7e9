-- ===== src/Admin/Calls/Tests.antt =====
-- Examples of the calls of the console.
use package.text.Mathlib.Text.{starts_with}
use mansariya.Base.{none, some, [], ◌∷◌, ◌≡◌, refl}
use mansariya.Admin.Api.{accept_json, content_json, api_key, auth_headers}
use mansariya.Admin.Calls.{path_text}
use mansariya.Admin.Calls.Mutations.{Mutation, remove_user_role, mutation_request}
use mansariya.Admin.Calls.Headers.{
  change, call_headers, has_credential, call_headers-has_credential,
}
use mansariya.Admin.Calls.Paths.{is_plain}
use mansariya.Admin.Calls.Laws.{path_ids, mutation_request-injective}

abbrev removal : Mutation
removal = remove_user_role "7" "r2"

removal_request : (mutation_request removal).path ≡ "/api/v1/admin/users/7/roles/r2"
unfolding mutation_request path_text
removal_request = refl

removal_headers :
    call_headers "key" none (change removal) ≡ accept_json ∷ api_key "key" ∷ content_json ∷ []
unfolding call_headers auth_headers
removal_headers = refl

mutation_request-injective_example : removal ≡ remove_user_role "7" "r2"
unfolding path_ids is_plain
mutation_request-injective_example =
    mutation_request-injective removal (remove_user_role "7" "r2") (refl, (refl, tt))
      (refl, (refl, tt)) refl

call_headers-has_credential_example :
    has_credential (call_headers "key" (some "t") (change removal))
    ≡ starts_with (mutation_request removal).path "/api/v1/admin"
call_headers-has_credential_example = call_headers-has_credential "key" (some "t") (change removal)
