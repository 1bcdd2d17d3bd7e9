-- ===== src/Admin/Theme/Tests.antt =====
-- Examples of the theme.
use mansariya.Base.{String, false, none, some, List, [], ◌∷◌, ◌≡◌, refl}
use mansariya.Admin.Theme.{
  system, initial_theme, mount, KeyboardEvent, Act, key_pressed, written_elsewhere, run,
}
use mansariya.Admin.Theme.Shown.{Shows}
use mansariya.Admin.Theme.Laws.{run-mount}

abbrev key_d : KeyboardEvent
key_d = record { key = "d"; is_repeat = false; has_modifier = false; is_editable_target = false }

-- The key in a light system, and then another tab that chooses the system.
abbrev acts : List Act
acts = key_pressed key_d ∷ written_elsewhere "theme" (some "system") ∷ []

abbrev lower : String → String
lower t = t

run-key_d :
    (run lower system "theme"
      (key_pressed key_d ∷ [])
      (mount system none ("app" ∷ []) false)).class_list
    ≡ "app" ∷ "dark" ∷ []
unfolding run mount
run-key_d = refl

run-mount_example :
    let s = run lower system "theme" acts (mount system none ("app" ∷ []) false) in
    Shows ("app" ∷ []) s × (initial_theme system s.stored ≡ s.theme)
run-mount_example = run-mount lower system "theme" none ("app" ∷ []) false acts refl
