-- ===== src/Admin/DataTable.antt =====
-- admin/src/components/shared/data-table: the state of a table and its page buttons. `on_server`
-- says that the server sorts, filters and cuts the pages; the table's own row models are those of
-- the table library.
pub mod Pages
pub mod Requests
mod Tests
use mansariya.Base.{
  ℕ, zero, suc, ◌+◌, ◌-◌, ◌*◌, ◌/◌, String, Bool, true, false, ◌||◌, Option, none, some, List, [],
  ◌∷◌, min, ltb, leb, str_eq, if◌then◌else◌,
}

pub record Pagination : Type 0 where
  pub page_index : ℕ
  pub page_size : ℕ

-- A column and whether it is sorted downwards.
pub record ColumnSort : Type 0 where
  pub id : String
  pub desc : Bool

pub record ColumnFilter : Type 0 where
  pub id : String
  pub value : String

-- What a table keeps for itself, or its page for it.
pub record State : Type 0 where
  pub sorting : List ColumnSort
  pub column_filters : List ColumnFilter
  pub global_filter : String
  pub pagination : Pagination

abbrev first_page : State → State
first_page s = record s { pagination = record s.pagination { page_index = 0 } }

module _ (on_server : Bool) where
  unfoldable pub on_sorting_change : List ColumnSort → State → State
  on_sorting_change next s =
      let s' : State = record s { sorting = next } in if on_server then first_page s' else s'

  unfoldable pub on_column_filters_change : List ColumnFilter → State → State
  on_column_filters_change next s =
      let s' : State = record s { column_filters = next } in if on_server then first_page s' else s'

  unfoldable pub on_global_filter_change : String → State → State
  on_global_filter_change next s =
      let s' : State = record s { global_filter = next } in if on_server then first_page s' else s'

abbrev pub on_pagination_change : Pagination → State → State
on_pagination_change next s = record s { pagination = next }

-- `Math.ceil(rowCount / pageSize)`, for a page size that is not zero.
abbrev pub page_count : ℕ → ℕ → ℕ
page_count rows size = (rows + (size - 1)) / size

abbrev pub start_row : ℕ → Pagination → ℕ
start_row rows p = if ltb 0 rows then p.page_index * p.page_size + 1 else 0

abbrev pub end_row : ℕ → Pagination → ℕ
end_row rows p = min ((p.page_index + 1) * p.page_size) rows

-- How many buttons there are, and the page of the i-th one.
abbrev pub button_count : ℕ → ℕ
button_count pages = min pages 5

unfoldable pub page_num : ℕ → ℕ → ℕ → ℕ
page_num pages index i =
    if leb pages 5
    then i
    else if ltb index 3
    then i
    else if ltb (pages - 4) index
    then (pages - 5) + i
    else (index - 2) + i

-- `booleanFilter`: an empty value lets every row through.
abbrev bool_eq : Bool → Bool → Bool
bool_eq true b = b
bool_eq false true = false
bool_eq false false = true

unfoldable pub boolean_filter : Bool → String → Bool
boolean_filter cell value = str_eq value "" || bool_eq cell (str_eq value "true")
