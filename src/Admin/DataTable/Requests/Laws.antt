-- ===== src/Admin/DataTable/Requests/Laws.antt =====
-- A change of what a table shows starts over at its first page.
use mansariya.Base.{ℕ, ◌+◌, ◌*◌, ◌<◌, String, true, some, List, [], ◌≡◌, refl, arith}
use mansariya.Admin.Api.{set_number}
use mansariya.Admin.DataTable.{
  State, Pagination, ColumnSort, ColumnFilter, on_sorting_change, on_column_filters_change,
  on_global_filter_change, on_pagination_change, page_count, start_row,
}
use mansariya.Admin.DataTable.Pages.{page_rows}
use mansariya.Admin.DataTable.Requests.{
  users_params, contributors_params, simulations_params, stops_params, routes_params, offset_of,
  roles_params, audit_params,
}

-- What the table of a page can be asked for.
pub data Change : Type 0 where
  sorted : List ColumnSort → Change
  filtered : List ColumnFilter → Change
  searched : String → Change

unfoldable pub change : Change → State → State
unfolding on_sorting_change on_column_filters_change on_global_filter_change
change (sorted next) s = on_sorting_change true next s
change (filtered next) s = on_column_filters_change true next s
change (searched next) s = on_global_filter_change true next s

change-page_index : (c : Change) (s : State) → (change c s).pagination.page_index ≡ 0
unfolding change on_sorting_change on_column_filters_change on_global_filter_change
change-page_index (sorted next) s = refl
change-page_index (filtered next) s = refl
change-page_index (searched next) s = refl

-- After a change of the order, of the filters or of the search of a table whose server cuts the
-- pages, every list asks for its first page: no offset is sent, and for the routes page one.
pub change-first_page :
    (c : Change) (s : State)
    → let t = change c s in
      (set_number "offset" (users_params t).offset ≡ [])
      × (set_number "offset" (contributors_params t).offset ≡ [])
      × (set_number "offset" (simulations_params t).offset ≡ [])
      × (set_number "offset" (stops_params t).offset ≡ [])
      × (set_number "offset" (roles_params t).offset ≡ [])
      × (set_number "offset" (audit_params t).offset ≡ [])
      × ((routes_params t).page ≡ some 1)
unfolding users_params contributors_params simulations_params stops_params roles_params audit_params
    routes_params
change-first_page c s =
    let none_sent : set_number "offset" (offset_of (change c s)) ≡ [] =
      ground (arith, change-page_index c s) in
    (
      none_sent,
      none_sent,
      none_sent,
      none_sent,
      none_sent,
      none_sent,
      ground (arith, change-page_index c s),
    )

-- A page of a list other than the routes asks for the rows from its first one on.
pub users-page_rows :
    (rows index : ℕ) (s : State)
    → 0 < s.pagination.page_size
    → index < page_count rows s.pagination.page_size
    → let p : Pagination = record { page_index = index; page_size = s.pagination.page_size } in
      let t = on_pagination_change p s in
      (o : ℕ) × ((users_params t).offset ≡ some o) × (start_row rows p ≡ o + 1) × (o < rows)
unfolding users_params
users-page_rows rows index s positive h =
    let (starts, ordered, within, counted) =
      page_rows rows s.pagination.page_size positive index h in
    (index * s.pagination.page_size, refl, starts, omega (arith, starts, ordered, within))
