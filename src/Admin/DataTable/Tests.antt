-- ===== src/Admin/DataTable/Tests.antt =====
-- Tests and examples of the tables of the admin portal.
use mansariya.Base.{[], ◌≡◌, refl}
use mansariya.Admin.DataTable.{State, page_num}

-- The seventh of twelve pages: the buttons are for the fifth to the ninth.
first_button : page_num 12 6 0 ≡ 4
unfolding page_num
first_button = refl

abbrev state : State
state = record {
  sorting = [];
  column_filters = [];
  global_filter = "";
  pagination = record { page_index = 2; page_size = 15 };
}
