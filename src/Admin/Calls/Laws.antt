-- ===== src/Admin/Calls/Laws.antt =====
-- The calls that change something can be read back from their requests.
use mansariya.Base.{
  String, Option, none, some, List, [], ◌∷◌, str_eq, if◌then◌else◌, ◌≡◌, refl, sym, ap, ◌∙◌,
}
use mansariya.Admin.Calls.{
  Method, post, put, delete, text, texts, flag, entries, Body, Request, under_admin,
}
use mansariya.Admin.Calls.Changes.{active, disabled}
use mansariya.Admin.Calls.Paths.{split, is_plain, AllPlain, split-path_text}
use mansariya.Admin.Calls.Mutations.{
  Mutation, delete_route, set_route_active, set_timetable, change_simulation, delete_simulation,
  invite_user, update_user_status, assign_user_role, remove_user_role, revoke_user_session,
  revoke_all_user_sessions, delete_user, create_role, update_role, delete_role,
  set_role_permissions, Transition, start, pause, resume, stop, mutation_request,
}

-- A reader of the calls, by the number of segments, some of them, and the shape of the body.
read_delete : List String → Option Mutation
read_delete (kind ∷ id ∷ []) = some (
    if str_eq kind "routes"
    then delete_route id
    else if str_eq kind "simulations"
    then delete_simulation id
    else if str_eq kind "users"
    then delete_user id
    else delete_role id)
read_delete (kind ∷ id ∷ part ∷ []) = some (revoke_all_user_sessions id)
read_delete (kind ∷ id ∷ part ∷ other ∷ []) =
    some (if str_eq part "roles" then remove_user_role id other else revoke_user_session id other)
read_delete _ = none

read_put : List String → Body → Option Mutation
read_put (kind ∷ id ∷ []) ((_, text name) ∷ (_, text description) ∷ []) =
    some (update_role id name description)
read_put (kind ∷ id ∷ part ∷ []) ((_, flag b) ∷ []) = some (set_route_active id b)
read_put (kind ∷ id ∷ part ∷ []) ((_, entries rows) ∷ []) = some (set_timetable id rows)
read_put (kind ∷ id ∷ part ∷ []) ((_, texts ids) ∷ []) = some (set_role_permissions id ids)
read_put (kind ∷ id ∷ part ∷ []) ((_, text t) ∷ []) =
    some (update_user_status id (if str_eq t "active" then active else disabled))
read_put _ _ = none

read_transition : String → Transition
read_transition t =
    if str_eq t "start"
    then start
    else if str_eq t "pause"
    then pause
    else if str_eq t "resume"
    then resume
    else stop

read_post : List String → Body → Option Mutation
read_post (kind ∷ []) ((_, text slug) ∷ (_, text name) ∷ (_, text description) ∷ []) =
    some (create_role slug name description)
read_post (kind ∷ part ∷ []) ((_, text email) ∷ (_, text name) ∷ (_, texts ids) ∷ []) =
    some (invite_user email name ids)
read_post (kind ∷ id ∷ part ∷ []) [] = some (change_simulation (read_transition part) id)
read_post (kind ∷ id ∷ part ∷ []) ((_, text role_id) ∷ []) = some (assign_user_role id role_id)
read_post _ _ = none

read_at : Method → List String → Body → Option Mutation
read_at post (_ ∷ _ ∷ _ ∷ segments) body = read_post segments body
read_at put (_ ∷ _ ∷ _ ∷ segments) body = read_put segments body
read_at delete (_ ∷ _ ∷ _ ∷ segments) body = read_delete segments
read_at _ _ _ = none

read : Request → Option Mutation
read r = read_at r.method (split r.path).1 r.body

-- The identifiers that a call puts into its path.
unfoldable pub path_ids : Mutation → List String
path_ids (delete_route id) = id ∷ []
path_ids (set_route_active id _) = id ∷ []
path_ids (set_timetable id _) = id ∷ []
path_ids (change_simulation _ id) = id ∷ []
path_ids (delete_simulation id) = id ∷ []
path_ids (update_user_status id _) = id ∷ []
path_ids (assign_user_role id _) = id ∷ []
path_ids (remove_user_role id role_id) = id ∷ role_id ∷ []
path_ids (revoke_user_session id session_id) = id ∷ session_id ∷ []
path_ids (revoke_all_user_sessions id) = id ∷ []
path_ids (delete_user id) = id ∷ []
path_ids (update_role id _ _) = id ∷ []
path_ids (delete_role id) = id ∷ []
path_ids (set_role_permissions id _) = id ∷ []
path_ids _ = []

read-segments :
    (r : Request) (segments : List String)
    → r.path ≡ under_admin segments
    → AllPlain segments
    → read r ≡ read_at r.method ("api" ∷ "v1" ∷ "admin" ∷ segments) r.body
unfolding read is_plain
read-segments r segments e plain =
    ap (λ path. read_at r.method (split path).1 r.body) e
    ∙ ap (λ (w : String × List String). read_at r.method w.1 r.body)
        (split-path_text ("api" ∷ "v1" ∷ "admin" ∷ segments) (refl, (refl, (refl, plain))))

read-mutation_request : (m : Mutation) → AllPlain (path_ids m) → read (mutation_request m) ≡ some m
unfolding mutation_request path_ids read_at read_delete read_put read_transition read_post is_plain
read-mutation_request (delete_route id) (p, _) =
    read-segments _ ("routes" ∷ id ∷ []) refl (refl, (p, tt))
read-mutation_request (set_route_active id b) (p, _) =
    read-segments _ ("routes" ∷ id ∷ "status" ∷ []) refl (refl, (p, (refl, tt)))
read-mutation_request (set_timetable id rows) (p, _) =
    read-segments _ ("routes" ∷ id ∷ "timetable" ∷ []) refl (refl, (p, (refl, tt)))
read-mutation_request (change_simulation start id) (p, _) =
    read-segments _ ("simulations" ∷ id ∷ "start" ∷ []) refl (refl, (p, (refl, tt)))
read-mutation_request (change_simulation pause id) (p, _) =
    read-segments _ ("simulations" ∷ id ∷ "pause" ∷ []) refl (refl, (p, (refl, tt)))
read-mutation_request (change_simulation resume id) (p, _) =
    read-segments _ ("simulations" ∷ id ∷ "resume" ∷ []) refl (refl, (p, (refl, tt)))
read-mutation_request (change_simulation stop id) (p, _) =
    read-segments _ ("simulations" ∷ id ∷ "stop" ∷ []) refl (refl, (p, (refl, tt)))
read-mutation_request (delete_simulation id) (p, _) =
    read-segments _ ("simulations" ∷ id ∷ []) refl (refl, (p, tt))
read-mutation_request (invite_user email name ids) _ =
    read-segments _ ("users" ∷ "invite" ∷ []) refl (refl, (refl, tt))
read-mutation_request (update_user_status id active) (p, _) =
    read-segments _ ("users" ∷ id ∷ "status" ∷ []) refl (refl, (p, (refl, tt)))
read-mutation_request (update_user_status id disabled) (p, _) =
    read-segments _ ("users" ∷ id ∷ "status" ∷ []) refl (refl, (p, (refl, tt)))
read-mutation_request (assign_user_role id role_id) (p, _) =
    read-segments _ ("users" ∷ id ∷ "roles" ∷ []) refl (refl, (p, (refl, tt)))
read-mutation_request (remove_user_role id role_id) (p, (q, _)) =
    read-segments _ ("users" ∷ id ∷ "roles" ∷ role_id ∷ []) refl (refl, (p, (refl, (q, tt))))
read-mutation_request (revoke_user_session id other) (p, (q, _)) =
    read-segments _ ("users" ∷ id ∷ "sessions" ∷ other ∷ []) refl (refl, (p, (refl, (q, tt))))
read-mutation_request (revoke_all_user_sessions id) (p, _) =
    read-segments _ ("users" ∷ id ∷ "sessions" ∷ []) refl (refl, (p, (refl, tt)))
read-mutation_request (delete_user id) (p, _) =
    read-segments _ ("users" ∷ id ∷ []) refl (refl, (p, tt))
read-mutation_request (create_role slug name description) _ =
    read-segments _ ("roles" ∷ []) refl (refl, tt)
read-mutation_request (update_role id name description) (p, _) =
    read-segments _ ("roles" ∷ id ∷ []) refl (refl, (p, tt))
read-mutation_request (delete_role id) (p, _) =
    read-segments _ ("roles" ∷ id ∷ []) refl (refl, (p, tt))
read-mutation_request (set_role_permissions id ids) (p, _) =
    read-segments _ ("roles" ∷ id ∷ "permissions" ∷ []) refl (refl, (p, (refl, tt)))

-- Two calls that change something and make the same request are the same call, where the identifiers
-- in their paths hold no slash.
pub mutation_request-injective :
    (m n : Mutation)
    → AllPlain (path_ids m)
    → AllPlain (path_ids n)
    → mutation_request m ≡ mutation_request n
    → m ≡ n
mutation_request-injective m n hm hn e =
    let same : some m ≡ some n =
      sym (read-mutation_request m hm) ∙ (ap read e ∙ read-mutation_request n hn) in
    cc
