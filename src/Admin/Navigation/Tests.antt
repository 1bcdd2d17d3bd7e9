-- ===== src/Admin/Navigation/Tests.antt =====
-- Tests and examples of admin/src/lib/navigation.ts.
use mansariya.Base.{All, ◌≡◌, refl}
use mansariya.Base.Sort.{sort, place}
use mansariya.Base.Texts.{text_length, take_text}
use mansariya.Admin.Navigation.{
  all_nav_items, is_nav_item_active, find_item, matched_item, get_page_title,
}
use mansariya.Admin.Navigation.Laws.{Yields, matched_item-Yields}

route_builder_title : get_page_title "/route-builder/new" ≡ "Route Builder"
unfolding get_page_title matched_item find_item is_nav_item_active sort place text_length take_text
route_builder_title = refl

matched_item-Yields_example :
    All (Yields "/routes/138" (matched_item "/routes/138" all_nav_items)) all_nav_items
matched_item-Yields_example = matched_item-Yields "/routes/138" all_nav_items
