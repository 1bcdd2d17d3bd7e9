-- ===== src/Admin/Navigation.antt =====
-- admin/src/lib/navigation.ts: which item of the menu a path belongs to.
pub mod Laws
mod Tests
use mansariya.Base.{
  ℕ, ◌+◌, String, Bool, true, false, ◌||◌, Option, none, some, List, [], ◌∷◌, ◌++◌, ltb, str_eq,
  if◌then◌else◌,
}
use mansariya.Base.Sort.{sort}
use Prim.Native.String.{◌++◌ as append}
use mansariya.Base.Texts.{text_length, starts_with}

pub record NavItem : Type 0 where
  pub title : String
  pub url : String

abbrev item : String → String → NavItem
item title url = record { title = title; url = url }

abbrev primary_nav_items : List NavItem
primary_nav_items =
    item "Dashboard" "/" ∷ item "Contributors" "/contributors" ∷ item "Live Map" "/live-map" ∷ []

abbrev management_nav_items : List NavItem
management_nav_items =
    item "Routes" "/routes" ∷ item "Stops" "/stops" ∷ item "Timetables" "/timetables" ∷ []

abbrev tools_nav_items : List NavItem
tools_nav_items =
    item "Route Builder" "/route-builder"
    ∷ item "Simulations" "/simulations"
    ∷ item "Import/Export" "/data"
    ∷ []

abbrev admin_nav_items : List NavItem
admin_nav_items =
    item "Users" "/users" ∷ item "Roles" "/roles" ∷ item "Audit Logs" "/audit-logs" ∷ []

abbrev secondary_nav_items : List NavItem
secondary_nav_items = item "Settings" "/settings" ∷ []

abbrev pub all_nav_items : List NavItem
all_nav_items =
    primary_nav_items ++ management_nav_items ++ tools_nav_items ++ admin_nav_items
    ++ secondary_nav_items

unfoldable pub is_nav_item_active : String → String → Bool
is_nav_item_active pathname url =
    if str_eq url "/"
    then str_eq pathname "/"
    else str_eq pathname url || starts_with pathname (append url "/")

-- `right.url.length - left.url.length`
abbrev pub longer : NavItem → NavItem → Bool
longer a b = ltb (text_length b.url) (text_length a.url)

unfoldable pub find_item : String → List NavItem → Option NavItem
find_item pathname [] = none
find_item pathname (i ∷ rest) =
    let later = find_item pathname rest in
    if is_nav_item_active pathname i.url then some i else later

unfoldable pub matched_item : String → List NavItem → Option NavItem
unfolding find_item
matched_item pathname items = find_item pathname (sort longer items)

unfoldable pub get_page_title : String → String
unfolding matched_item
get_page_title pathname = elim (matched_item pathname all_nav_items) [
  | none ↦ "Dashboard"
  | some i ↦ i.title
]
