-- ===== src/Admin/DataTable/Pages.antt =====
-- The pages of a table and its buttons.
use mansariya.Base.{ℕ, ◌+◌, ◌-◌, ◌*◌, ◌/◌, ◌≤◌, ◌<◌, ltb, leb, if◌then◌else◌, ◌≡◌, arith}
use native.Mathlib.Nat.{le-div_iff_mul-le, div-mul-le_self, lt-div-mul-add}
use mansariya.Admin.DataTable.{Pagination, page_count, start_row, end_row, button_count, page_num}

-- Every button is for a page that there is, and different buttons are for different pages.
pub page_num-below :
    (pages index i j : ℕ)
    → index < pages
    → i < j
    → j < button_count pages
    → (page_num pages index i < page_num pages index j) × (page_num pages index j < pages)
unfolding page_num
page_num-below pages index i j h k l = ground arith

-- One of the buttons is for the page that is shown.
pub page_num-current :
    (pages index : ℕ)
    → index < pages
    → (i : ℕ) × (i < button_count pages) × (page_num pages index i ≡ index)
unfolding page_num
page_num-current pages index h =
    let i : ℕ =
      if leb pages 5
      then index
      else if ltb index 3
      then index
      else if ltb (pages - 4) index
      then index - (pages - 5)
      else 2 in
    (i, ground arith, ground arith)

module _ (rows size : ℕ) (positive : 0 < size) where
  in_pages : (index : ℕ) → index < page_count rows size → index * size < rows
  in_pages index h =
      let b : (index + 1) * size ≤ rows + (size - 1) =
        (le-div_iff_mul-le {k = size} {x = index + 1} {y = rows + (size - 1)} positive).0
          (omega (arith, h)) in
      omega (arith, b, positive)

  -- A page that there is begins at a row that there is, and its rows are counted within all rows:
  -- from one behind the offset of its request.
  pub page_rows :
      (index : ℕ)
      → index < page_count rows size
      → let p : Pagination = record { page_index = index; page_size = size } in
        (start_row rows p ≡ index * size + 1)
        × (start_row rows p ≤ end_row rows p)
        × (end_row rows p ≤ rows)
        × (end_row rows p ≤ index * size + size)
  page_rows index h =
      let below = in_pages index h in
      (ground (arith, below), ground (arith, below, positive), ground arith, ground arith)

  -- Each row is on a page that there is.
  pub row_page :
      (row : ℕ)
      → row < rows
      → let p : Pagination = record { page_index = row / size; page_size = size } in
        (row / size < page_count rows size)
        × (start_row rows p ≤ row + 1)
        × (row + 1 ≤ end_row rows p)
  row_page row h =
      let low = div-mul-le_self row size in
      let high = lt-div-mul-add {a = row} {b = size} positive in
      let c : row / size + 1 ≤ page_count rows size =
        (le-div_iff_mul-le {k = size} {x = row / size + 1} {y = rows + (size - 1)} positive).1
          (omega (arith, low, h, positive)) in
      (omega (arith, c), ground (arith, low), ground (arith, high, h))
