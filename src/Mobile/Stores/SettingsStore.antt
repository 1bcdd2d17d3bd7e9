-- ===== src/Mobile/Stores/SettingsStore.antt =====
-- mobile/src/stores/useSettingsStore.ts, and the theme that mobile/src/hooks/useTheme.ts derives.
use mansariya.Base.{Bool, true, false, Option, some}

pub data Language : Type 0 where
  en si ta : Language

pub data ThemeMode : Type 0 where
  light dark system : ThemeMode

pub record SettingsState : Type 0 where
  pub language : Language
  pub theme_mode : ThemeMode
  pub tracking_consent : Bool
  pub has_completed_onboarding : Bool

abbrev pub initial : SettingsState
initial = record {
  language = si;
  theme_mode = system;
  tracking_consent = false;
  has_completed_onboarding = false;
}

abbrev pub set_language : Language → SettingsState → SettingsState
set_language l s = record s { language = l }

abbrev pub set_theme_mode : ThemeMode → SettingsState → SettingsState
set_theme_mode m s = record s { theme_mode = m }

abbrev pub set_tracking_consent : Bool → SettingsState → SettingsState
set_tracking_consent c s = record s { tracking_consent = c }

abbrev pub complete_onboarding : SettingsState → SettingsState
complete_onboarding s = record s { has_completed_onboarding = true }

pub data ResolvedTheme : Type 0 where
  light_theme dark_theme : ResolvedTheme

-- `useColorScheme()` gives light, dark or nothing.
abbrev pub resolve_theme : ThemeMode → Option ResolvedTheme → ResolvedTheme
resolve_theme light scheme = light_theme
resolve_theme dark scheme = dark_theme
resolve_theme system (some dark_theme) = dark_theme
resolve_theme system _ = light_theme
