-- ===== src/Admin/Theme/Laws.antt =====
-- The page shows its theme, and the storage remembers it.
use mansariya.Base.{
  String, Bool, true, false, ◌||◌, not, Option, some, List, [], ◌∷◌, select, any, str_eq,
  if◌then◌else◌, ◌≡◌, refl, sym, ap, ◌∙◌, Bool-cases, inl, inr, arith,
}
use mansariya.Admin.Theme.Shown.{Shows, select_again, run-Shows}
use mansariya.Admin.Theme.{
  Theme, system, Page, theme_text, is_other_class, apply_theme, same_theme, on_theme,
  set_theme_state, initial_theme, mount, set_theme, handle_key_down, handle_storage_change,
  next_theme, Act, chosen, key_pressed, system_changed, written_elsewhere, cleared_elsewhere, act,
  run,
}

same_theme_sound : (a b : Theme) → same_theme a b ≡ true → a ≡ b
same_theme_sound Theme.dark Theme.dark _ = refl
same_theme_sound Theme.light Theme.light _ = refl
same_theme_sound system system _ = refl
same_theme_sound Theme.dark Theme.light h = cc
same_theme_sound Theme.dark system h = cc
same_theme_sound Theme.light Theme.dark h = cc
same_theme_sound Theme.light system h = cc
same_theme_sound system Theme.dark h = cc
same_theme_sound system Theme.light h = cc

set_theme_state-theme : (t : Theme) (s : Page) → (set_theme_state t s).theme ≡ t
unfolding set_theme_state
set_theme_state-theme t s = elim (Bool-cases (same_theme s.theme t)) [
  | inl e ↦ rw e (same_theme_sound s.theme t e)
  | inr e ↦ rw e
]

set_theme_state-stored : (t : Theme) (s : Page) → (set_theme_state t s).stored ≡ s.stored
unfolding set_theme_state
set_theme_state-stored t s = ground arith

initial_theme-theme_text : (d t : Theme) → initial_theme d (some (theme_text t)) ≡ t
unfolding initial_theme
initial_theme-theme_text d Theme.dark = refl
initial_theme-theme_text d Theme.light = refl
initial_theme-theme_text d system = refl

abbrev pub is_clear : Act → Bool
is_clear cleared_elsewhere = true
is_clear _ = false

set_theme-stored :
    (d t : Theme) (s : Page) → initial_theme d (set_theme t s).stored ≡ (set_theme t s).theme
unfolding set_theme
set_theme-stored d t s =
    let s' : Page = record s { stored = some (theme_text t) } in
    ap (initial_theme d) (set_theme_state-stored t s')
    ∙ (initial_theme-theme_text d t ∙ sym (set_theme_state-theme t s'))

written-stored :
    (d : Theme) (value : Option String) (s : Page)
    → let t = set_theme_state (initial_theme d value) (record s { stored = value }) in
      initial_theme d t.stored ≡ t.theme
written-stored d value s =
    let s' : Page = record s { stored = value } in
    ap (initial_theme d) (set_theme_state-stored (initial_theme d value) s')
    ∙ sym (set_theme_state-theme (initial_theme d value) s')

module _ (to_lower_case : String → String) (d : Theme) (storage_key : String) where
  act-stored :
      (a : Act) (s : Page)
      → is_clear a ≡ false
      → initial_theme d s.stored ≡ s.theme
      → let t = act to_lower_case d storage_key a s in initial_theme d t.stored ≡ t.theme
  unfolding act handle_key_down handle_storage_change apply_theme
  act-stored (chosen t) s _ e = set_theme-stored d t s
  act-stored (key_pressed k) s _ e =
      elim (k.is_repeat
          || (k.has_modifier || (k.is_editable_target || not (str_eq (to_lower_case k.key) "d"))))
        as (λ b.
          let t = if b then s else set_theme (next_theme s.system_dark s.theme) s in
          initial_theme d t.stored ≡ t.theme) [ true ↦ e | false ↦ set_theme-stored d _ s ]
  act-stored (system_changed b) s _ e =
      elim s.is_listening
        as (λ l.
          let t =
            if l
            then apply_theme system (record s { system_dark = b })
            else record s { system_dark = b } in
          initial_theme d t.stored ≡ t.theme) [ true ↦ e | false ↦ e ]
  act-stored (written_elsewhere key value) s _ e =
      elim (str_eq key storage_key)
        as (λ b.
          let s' : Page = if b then record s { stored = value } else s in
          let t = if b then set_theme_state (initial_theme d value) s' else s' in
          initial_theme d t.stored ≡ t.theme) [ true ↦ written-stored d value s | false ↦ e ]
  act-stored cleared_elsewhere s h e = cc

  run-stored :
      (acts : List Act) (s : Page)
      → any is_clear acts ≡ false
      → initial_theme d s.stored ≡ s.theme
      → let t = run to_lower_case d storage_key acts s in initial_theme d t.stored ≡ t.theme
  unfolding run
  run-stored [] s _ e = e
  run-stored (a ∷ rest) s h e =
      run-stored rest _ (ground (arith, h)) (act-stored a s (ground (arith, h)) e)

  -- From the first page on, whatever the user, the system and the other tabs do, as long as no other
  -- tab clears the storage: the root element has its other classes and exactly the one of the theme,
  -- resolved by what the system prefers, the provider listens to the system while that decides, and a
  -- reload would show the same theme.
  pub run-mount :
      (stored : Option String) (class_list : List String) (system_dark : Bool) (acts : List Act)
      → any is_clear acts ≡ false
      → let s = run to_lower_case d storage_key acts (mount d stored class_list system_dark) in
        Shows (select is_other_class class_list) s × (initial_theme d s.stored ≡ s.theme)
  unfolding mount on_theme
  run-mount stored class_list system_dark acts h = (
    run-Shows _ (select_again class_list) to_lower_case d storage_key acts _
        (record { classes = refl; listening = refl }),
    run-stored acts _ h refl,
  )
