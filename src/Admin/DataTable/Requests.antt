-- ===== src/Admin/DataTable/Requests.antt =====
-- The requests of the pages that have a table: admin/src/pages and the query strings of
-- admin/src/lib/api.ts.
pub mod Laws
use mansariya.Base.{
  ℕ, ◌+◌, ◌*◌, String, Bool, true, false, Option, none, some, List, [], ◌∷◌, ◌++◌, str_eq,
  if◌then◌else◌,
}
use mansariya.Admin.Api.{
  Query, set_text, set_number, AdminRoutesParams, AdminStopsParams, SimulationsParams,
  admin_routes_query, admin_stops_query, simulations_query,
}
use mansariya.Admin.DataTable.{State, ColumnSort, ColumnFilter, Pagination}

pub record AdminUsersParams : Type 0 where
  pub search : Option String
  pub status : Option String
  pub sort_by : Option String
  pub sort_dir : Option String
  pub limit : Option ℕ
  pub offset : Option ℕ

pub record AdminRolesParams : Type 0 where
  pub search : Option String
  pub sort_by : Option String
  pub sort_dir : Option String
  pub limit : Option ℕ
  pub offset : Option ℕ

pub record AuditLogsParams : Type 0 where
  pub action : Option String
  pub actor_email : Option String
  pub target_type : Option String
  pub search : Option String
  pub sort_by : Option String
  pub sort_dir : Option String
  pub limit : Option ℕ
  pub offset : Option ℕ

-- The four that most lists share, in the order in which they are set.
abbrev sort_and_page : Option String → Option String → Option ℕ → Option ℕ → Query
sort_and_page sort_by sort_dir limit offset =
    set_text "sort_by" sort_by
    ++ (set_text "sort_dir" sort_dir ++ (set_number "limit" limit ++ set_number "offset" offset))

unfoldable pub admin_users_query : AdminUsersParams → Query
admin_users_query p =
    set_text "search" p.search
    ++ (set_text "status" p.status ++ sort_and_page p.sort_by p.sort_dir p.limit p.offset)

unfoldable pub admin_contributors_query : AdminUsersParams → Query
admin_contributors_query p =
    set_text "search" p.search
    ++ (set_text "status" p.status ++ sort_and_page p.sort_by p.sort_dir p.limit p.offset)

unfoldable pub admin_roles_query : AdminRolesParams → Query
admin_roles_query p =
    set_text "search" p.search ++ sort_and_page p.sort_by p.sort_dir p.limit p.offset

unfoldable pub audit_logs_query : AuditLogsParams → Query
audit_logs_query p =
    set_text "action" p.action
    ++ (set_text "actor_email" p.actor_email
        ++ (set_text "target_type" p.target_type
            ++ (set_text "search" p.search ++ sort_and_page p.sort_by p.sort_dir p.limit p.offset)))

-- `sorting[0]`
abbrev sort_by_of : List ColumnSort → Option String
sort_by_of [] = none
sort_by_of (c ∷ rest) = some c.id

abbrev sort_dir_of : List ColumnSort → Option String
sort_dir_of [] = none
sort_dir_of (c ∷ rest) = some (if c.desc then "desc" else "asc")

-- An empty text is not set.
abbrev unless_empty : String → Option String
unless_empty s = if str_eq s "" then none else some s

abbrev or_earlier : Option String → Option String → Option String
or_earlier none earlier = earlier
or_earlier (some v) earlier = some v

-- The loop over the column filters: the last one for a column, among those that are not empty.
unfoldable pub filter_value : String → List ColumnFilter → Option String
filter_value id [] = none
filter_value id (f ∷ rest) =
    or_earlier (filter_value id rest) (if str_eq f.id id then unless_empty f.value else none)

abbrev pub limit_of : State → Option ℕ
limit_of s = some s.pagination.page_size

abbrev pub offset_of : State → Option ℕ
offset_of s = some (s.pagination.page_index * s.pagination.page_size)

unfoldable pub users_params : State → AdminUsersParams
unfolding filter_value
users_params s = record {
  search = unless_empty s.global_filter;
  status = filter_value "status" s.column_filters;
  sort_by = sort_by_of s.sorting;
  sort_dir = sort_dir_of s.sorting;
  limit = limit_of s;
  offset = offset_of s;
}

unfoldable pub contributors_params : State → AdminUsersParams
unfolding filter_value
contributors_params s = record {
  search = unless_empty s.global_filter;
  status = filter_value "status" s.column_filters;
  sort_by = sort_by_of s.sorting;
  sort_dir = sort_dir_of s.sorting;
  limit = limit_of s;
  offset = offset_of s;
}

unfoldable pub simulations_params : State → SimulationsParams
unfolding filter_value
simulations_params s = record {
  search = unless_empty s.global_filter;
  status = filter_value "status" s.column_filters;
  sort_by = sort_by_of s.sorting;
  sort_dir = sort_dir_of s.sorting;
  limit = limit_of s;
  offset = offset_of s;
}

unfoldable pub stops_params : State → AdminStopsParams
unfolding filter_value
stops_params s = record {
  search = unless_empty s.global_filter;
  source = filter_value "source" s.column_filters;
  sort_by = sort_by_of s.sorting;
  sort_dir = sort_dir_of s.sorting;
  limit = limit_of s;
  offset = offset_of s;
}

unfoldable pub roles_params : State → AdminRolesParams
roles_params s = record {
  search = unless_empty s.global_filter;
  sort_by = sort_by_of s.sorting;
  sort_dir = sort_dir_of s.sorting;
  limit = limit_of s;
  offset = offset_of s;
}

unfoldable pub audit_params : State → AuditLogsParams
unfolding filter_value
audit_params s = record {
  action = filter_value "action" s.column_filters;
  actor_email = filter_value "actor_email" s.column_filters;
  target_type = filter_value "target_type" s.column_filters;
  search = unless_empty s.global_filter;
  sort_by = sort_by_of s.sorting;
  sort_dir = sort_dir_of s.sorting;
  limit = limit_of s;
  offset = offset_of s;
}

-- The routes count their pages from one.
unfoldable pub routes_params : State → AdminRoutesParams
unfolding filter_value
routes_params s = record {
  q = unless_empty s.global_filter;
  operator = filter_value "operator" s.column_filters;
  service_type = filter_value "service_type" s.column_filters;
  is_active = filter_value "is_active" s.column_filters;
  sort_by = sort_by_of s.sorting;
  sort_dir = sort_dir_of s.sorting;
  page = some (s.pagination.page_index + 1);
  per_page = some s.pagination.page_size;
}
