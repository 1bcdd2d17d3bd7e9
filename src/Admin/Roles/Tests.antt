-- ===== src/Admin/Roles/Tests.antt =====
-- Tests and examples of admin/src/pages/roles.tsx.
use mansariya.Base.{
  String, true, false, ◌+◌, none, some, List, [], ◌∷◌, ◌≡◌, refl, if◌then◌else◌, map, arith,
}
use mansariya.Base.Sets.{member}
use mansariya.Admin.Roles.Slug.{
  Text, between, name_to_slug, is_slug, name_to_slug-is_slug, hyphenate, trim_start, trim_end,
}
use mansariya.Admin.Roles.Form.{
  Form, Event as FormEvent, idle, opened, named, fired, replied, used, suggested, run,
}
use mansariya.Admin.Roles.Form.Laws.{run-name_to_slug}
use mansariya.Admin.Roles.Permissions.{
  Permission, Dialog, failed, loaded, save, can_save, initialize, Event, box, family, arrived,
  run as run_dialog,
}
use mansariya.Admin.Roles.Permissions.Choice.{
  choice, is_odd, choice-run_boxes, save-run, see_all, first_view,
}
use mansariya.Admin.Roles.Permissions.Laws.{opened as opened_dialog}

-- `toLowerCase` for ASCII.
abbrev lower : Text → Text
lower t = map (λ c. if between 65 90 c then c + 32 else c) t

-- "Bus  Ops!"
abbrev bus_ops : Text
bus_ops = 66 ∷ 117 ∷ 115 ∷ 32 ∷ 32 ∷ 79 ∷ 112 ∷ 115 ∷ 33 ∷ []

-- "bus-ops"
abbrev bus_ops_slug : Text
bus_ops_slug = 98 ∷ 117 ∷ 115 ∷ 45 ∷ 111 ∷ 112 ∷ 115 ∷ []

slug_of_bus_ops : name_to_slug lower bus_ops ≡ bus_ops_slug
unfolding name_to_slug hyphenate trim_start trim_end
slug_of_bus_ops = refl

name_to_slug-is_slug_example : is_slug (name_to_slug lower bus_ops) ≡ true
name_to_slug-is_slug_example = name_to_slug-is_slug lower bus_ops

abbrev new_role : Form
new_role = record {
  editing_role = none;
  name = [];
  slug = [];
  slug_manual = false;
  slug_status = idle;
  slug_suggestion = [];
  description = [];
  timer = none;
  checks = [];
}

-- A role is created by a suggestion, and then the form is opened again.
abbrev form_events : List FormEvent
form_events =
    opened none
    ∷ named bus_ops
    ∷ fired
    ∷ replied 0 (used (98 ∷ []))
    ∷ suggested
    ∷ opened none
    ∷ named bus_ops
    ∷ fired
    ∷ []

run-name_to_slug_example :
    let g = run lower form_events new_role in g.slug ≡ name_to_slug lower g.name
run-name_to_slug_example = run-name_to_slug lower refl form_events new_role refl

abbrev permission : String → String → Permission
permission id group = record { id = id; family = group; name = id }

abbrev all : List Permission
all = permission "p1" "map" ∷ permission "p2" "routes" ∷ permission "p3" "map" ∷ []

abbrev dialog : Dialog
dialog = record {
  query = loaded all;
  selected_ids = "p2" ∷ "p1" ∷ [];
  initialized = true;
  saving = false;
}

-- The query fails, a box is clicked, data comes and takes its place, and two more boxes are clicked.
abbrev after_failure : List Event
after_failure = box "p9" ∷ arrived all ∷ family ("p1" ∷ "p3" ∷ []) ∷ box "p4" ∷ []

save-run_example :
    (chosen : List String) × ((save
        (run_dialog after_failure (initialize (opened_dialog failed)))).0
      ≡ some chosen)
    × ((x : String) → member x chosen ≡ (see_all after_failure (first_view failed)).wants x)
save-run_example = save-run failed after_failure refl

-- The empty choice is what a failure leaves where nothing is clicked.
save_after_failure : (save (initialize (opened_dialog failed))).0 ≡ some []
unfolding save initialize can_save
save_after_failure = refl

-- Two permissions in either order, and a third one there and back.
some_clicks_agree : (x : String) → is_odd x ("a" ∷ "b" ∷ []) ≡ is_odd x ("b" ∷ "c" ∷ "a" ∷ "c" ∷ [])
unfolding is_odd
some_clicks_agree x = ground arith

choice-run_boxes_example :
    choice (run_dialog (map box ("a" ∷ "b" ∷ [])) dialog)
    ≡ choice (run_dialog (map box ("b" ∷ "c" ∷ "a" ∷ "c" ∷ [])) dialog)
choice-run_boxes_example =
    choice-run_boxes ("a" ∷ "b" ∷ []) ("b" ∷ "c" ∷ "a" ∷ "c" ∷ []) dialog dialog refl
      some_clicks_agree
