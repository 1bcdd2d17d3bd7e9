-- ===== src/Admin/Theme.antt =====
-- admin/src/components/theme-provider.tsx: the theme of the console, in the page, in the storage of
-- the browser and across its tabs. `toLowerCase` is a parameter.
pub mod Shown
pub mod Laws
mod Tests
use mansariya.Base.{
  String, Bool, true, false, ◌||◌, ◌&&◌, not, Option, none, some, List, [], ◌∷◌, ◌++◌, select,
  str_eq, if◌then◌else◌,
}

pub data Theme : Type 0 where
  dark light system : Theme

pub data ResolvedTheme : Type 0 where
  dark light : ResolvedTheme

-- What is stored for the storage key, the classes of the root element, what the system prefers, and
-- whether the provider listens to that.
pub record Page : Type 0 where
  pub theme : Theme
  pub stored : Option String
  pub class_list : List String
  pub system_dark : Bool
  pub is_listening : Bool

abbrev pub theme_text : Theme → String
theme_text Theme.dark = "dark"
theme_text Theme.light = "light"
theme_text system = "system"

abbrev pub resolved_text : ResolvedTheme → String
resolved_text ResolvedTheme.dark = "dark"
resolved_text ResolvedTheme.light = "light"

-- `isTheme`, with the theme that the value is.
unfoldable pub to_theme : Option String → Option Theme
to_theme none = none
to_theme (some v) =
    if str_eq v "dark"
    then some Theme.dark
    else if str_eq v "light"
    then some Theme.light
    else if str_eq v "system"
    then some system
    else none

abbrev pub get_system_theme : Bool → ResolvedTheme
get_system_theme true = ResolvedTheme.dark
get_system_theme false = ResolvedTheme.light

abbrev pub resolve : Bool → Theme → ResolvedTheme
resolve system_dark Theme.dark = ResolvedTheme.dark
resolve system_dark Theme.light = ResolvedTheme.light
resolve system_dark system = get_system_theme system_dark

abbrev pub is_other_class : String → Bool
is_other_class c = not (str_eq c "light" || str_eq c "dark")

-- `applyTheme`
unfoldable pub apply_theme : Theme → Page → Page
apply_theme next s = record s {
  class_list =
      select is_other_class s.class_list ++ resolved_text (resolve s.system_dark next) ∷ [];
}

abbrev pub is_system : Theme → Bool
is_system system = true
is_system _ = false

abbrev pub same_theme : Theme → Theme → Bool
same_theme Theme.dark Theme.dark = true
same_theme Theme.light Theme.light = true
same_theme system system = true
same_theme _ _ = false

-- The effect of a theme: its class, and the listener for the system.
unfoldable pub on_theme : Page → Page
unfolding apply_theme
on_theme s = record (apply_theme s.theme s) { is_listening = is_system s.theme }

-- A state that is set runs the effect if it is another one.
unfoldable pub set_theme_state : Theme → Page → Page
unfolding on_theme
set_theme_state next s = if same_theme s.theme next then s else on_theme (record s { theme = next })

module _ (default_theme : Theme) where
  -- The theme that a page starts with.
  unfoldable pub initial_theme : Option String → Theme
  unfolding to_theme
  initial_theme stored = elim (to_theme stored) [ none ↦ default_theme | some t ↦ t ]

  unfoldable pub mount : Option String → List String → Bool → Page
  unfolding on_theme initial_theme
  mount stored class_list system_dark = on_theme (record {
    theme = initial_theme stored;
    stored = stored;
    class_list = class_list;
    system_dark = system_dark;
    is_listening = false;
  })

-- `setTheme`
unfoldable pub set_theme : Theme → Page → Page
unfolding set_theme_state
set_theme next s = set_theme_state next (record s { stored = some (theme_text next) })

pub record KeyboardEvent : Type 0 where
  pub key : String
  pub is_repeat : Bool
  pub has_modifier : Bool
  pub is_editable_target : Bool

abbrev pub resolved_theme : ResolvedTheme → Theme
resolved_theme ResolvedTheme.dark = Theme.dark
resolved_theme ResolvedTheme.light = Theme.light

abbrev pub opposite : ResolvedTheme → Theme
opposite ResolvedTheme.dark = Theme.light
opposite ResolvedTheme.light = Theme.dark

-- The theme after the key: dark and light change, and the system's becomes the other one.
unfoldable pub next_theme : Bool → Theme → Theme
next_theme system_dark Theme.dark = Theme.light
next_theme system_dark Theme.light = Theme.dark
next_theme system_dark system = opposite (get_system_theme system_dark)

module _ (to_lower_case : String → String) where
  unfoldable pub handle_key_down : KeyboardEvent → Page → Page
  unfolding set_theme next_theme
  handle_key_down e s =
      if e.is_repeat
        || (e.has_modifier || (e.is_editable_target || not (str_eq (to_lower_case e.key) "d")))
      then s
      else set_theme (next_theme s.system_dark s.theme) s

-- `handleStorageChange`, where the event is one of the local storage.
unfoldable pub handle_storage_change : Theme → String → Option String → Option String → Page → Page
unfolding set_theme_state initial_theme
handle_storage_change default_theme storage_key none new_value s = s
handle_storage_change default_theme storage_key (some key) new_value s =
    if str_eq key storage_key then set_theme_state (initial_theme default_theme new_value) s else s

-- What the user, the system and the other tabs do. Another tab writes or removes a key, or clears
-- the storage, which is an event with no key.
pub data Act : Type 0 where
  chosen : Theme → Act
  key_pressed : KeyboardEvent → Act
  system_changed : Bool → Act
  written_elsewhere : String → Option String → Act
  cleared_elsewhere : Act

module _ (to_lower_case : String → String) (default_theme : Theme) (storage_key : String) where
  unfoldable pub act : Act → Page → Page
  unfolding set_theme handle_key_down handle_storage_change apply_theme
  act (chosen t) s = set_theme t s
  act (key_pressed e) s = handle_key_down to_lower_case e s
  act (system_changed d) s =
      if s.is_listening
      then apply_theme system (record s { system_dark = d })
      else record s { system_dark = d }
  act (written_elsewhere key value) s =
      handle_storage_change default_theme storage_key (some key) value
        (if str_eq key storage_key then record s { stored = value } else s)
  act cleared_elsewhere s =
      handle_storage_change default_theme storage_key none none (record s { stored = none })

  unfoldable pub run : List Act → Page → Page
  unfolding act
  run [] s = s
  run (a ∷ rest) s = run rest (act a s)
