-- ===== src/Admin/Theme/Shown.antt =====
-- The page shows its theme.
use mansariya.Base.{
  String, Bool, true, false, ◌||◌, not, Option, none, List, [], ◌∷◌, ◌++◌, select, str_eq,
  if◌then◌else◌, ◌≡◌, refl, sym, ap, subst, ◌∙◌, Bool-cases, inl, inr, arith,
}
use mansariya.Admin.Theme.{
  Theme, ResolvedTheme, system, Page, resolved_text, resolve, is_other_class, apply_theme,
  is_system, same_theme, on_theme, set_theme_state, initial_theme, set_theme, handle_key_down,
  handle_storage_change, next_theme, Act, chosen, key_pressed, system_changed, written_elsewhere,
  cleared_elsewhere, act, run,
}

select-resolved :
    (xs : List String) (r : ResolvedTheme)
    → select is_other_class (xs ++ resolved_text r ∷ []) ≡ select is_other_class xs
select-resolved [] ResolvedTheme.dark = refl
select-resolved [] ResolvedTheme.light = refl
select-resolved (x ∷ xs) r = rw (select-resolved xs r)

pub select_again :
    (xs : List String) → select is_other_class (select is_other_class xs) ≡ select is_other_class xs
select_again [] = refl
select_again (x ∷ xs) = ground (arith, select_again xs)

-- The other classes of the page and the one of its theme; the provider listens to the system while
-- the theme is the system's.
pub record Shows (others : List String) (s : Page) : Type 0 where
  pub classes : s.class_list ≡ others ++ resolved_text (resolve s.system_dark s.theme) ∷ []
  pub listening : s.is_listening ≡ is_system s.theme

is_system_sound : (t : Theme) → is_system t ≡ true → t ≡ system
is_system_sound system _ = refl
is_system_sound Theme.dark h = cc
is_system_sound Theme.light h = cc

resolve-not_system : (t : Theme) (a b : Bool) → is_system t ≡ false → resolve a t ≡ resolve b t
resolve-not_system Theme.dark a b _ = refl
resolve-not_system Theme.light a b _ = refl
resolve-not_system system a b h = cc

module _ (others : List String) (plain : select is_other_class others ≡ others) where
  select-class_list : (s : Page) → Shows others s → select is_other_class s.class_list ≡ others
  select-class_list s v = ap (select is_other_class) v.classes ∙ (select-resolved others _ ∙ plain)

  on_theme-Shows :
      (s : Page) → select is_other_class s.class_list ≡ others → Shows others (on_theme s)
  unfolding on_theme
  on_theme-Shows s e = record {
    classes = ap (λ xs. xs ++ resolved_text (resolve s.system_dark s.theme) ∷ []) e;
    listening = refl;
  }

  set_theme_state-Shows :
      (t : Theme) (s : Page) → Shows others s → Shows others (set_theme_state t s)
  unfolding set_theme_state
  set_theme_state-Shows t s v =
      elim (same_theme s.theme t)
        as (λ b. Shows others (if b then s else on_theme (record s { theme = t }))) [
          | true ↦ v
          | false ↦ on_theme-Shows (record s { theme = t }) (select-class_list s v)
        ]

  with_stored :
      (stored : Option String) (s : Page)
      → Shows others s
      → Shows others (record s { stored = stored })
  with_stored stored s v = record { classes = v.classes; listening = v.listening }

  set_theme-Shows : (t : Theme) (s : Page) → Shows others s → Shows others (set_theme t s)
  unfolding set_theme
  set_theme-Shows t s v = set_theme_state-Shows t _ (with_stored _ s v)

  module _ (to_lower_case : String → String) (d : Theme) (storage_key : String) where
    system_changed-Shows :
        (b : Bool) (s : Page)
        → Shows others s
        → Shows others (act to_lower_case d storage_key (system_changed b) s)
    unfolding act apply_theme
    system_changed-Shows b s v = elim (Bool-cases s.is_listening) [
      | inl e ↦
          let t : s.theme ≡ system = is_system_sound s.theme (sym v.listening ∙ e) in
          subst
            (λ l. Shows others (
              if l
              then apply_theme system (record s { system_dark = b })
              else record s { system_dark = b }))
            (sym e)
            (record {
              classes =
                  ap (λ xs. xs ++ resolved_text (resolve b system) ∷ []) (select-class_list s v)
                  ∙ ap (λ u. others ++ resolved_text (resolve b u) ∷ []) (sym t);
              listening = v.listening;
            })
      | inr e ↦
          subst
            (λ l. Shows others (
              if l
              then apply_theme system (record s { system_dark = b })
              else record s { system_dark = b }))
            (sym e)
            (record {
              classes =
                  v.classes
                  ∙ ap (λ r. others ++ resolved_text r ∷ [])
                      (resolve-not_system s.theme s.system_dark b (sym v.listening ∙ e));
              listening = v.listening;
            })
    ]

    act-Shows :
        (a : Act) (s : Page) → Shows others s → Shows others (act to_lower_case d storage_key a s)
    unfolding act handle_key_down handle_storage_change
    act-Shows (chosen t) s v = set_theme-Shows t s v
    act-Shows (key_pressed e) s v =
        elim (e.is_repeat
            || (e.has_modifier || (e.is_editable_target || not (str_eq (to_lower_case e.key) "d"))))
          as (λ b. Shows others (if b then s else set_theme (next_theme s.system_dark s.theme) s)) [
            | true ↦ v
            | false ↦ set_theme-Shows _ s v
          ]
    act-Shows (system_changed b) s v = system_changed-Shows b s v
    act-Shows (written_elsewhere key value) s v =
        elim (str_eq key storage_key)
          as (λ b.
            let s' : Page = if b then record s { stored = value } else s in
            Shows others (if b then set_theme_state (initial_theme d value) s' else s')) [
              | true ↦ set_theme_state-Shows _ _ (with_stored value s v)
              | false ↦ v
            ]
    act-Shows cleared_elsewhere s v = with_stored none s v

    pub run-Shows :
        (acts : List Act) (s : Page)
        → Shows others s
        → Shows others (run to_lower_case d storage_key acts s)
    unfolding run
    run-Shows [] s v = v
    run-Shows (a ∷ rest) s v = run-Shows rest _ (act-Shows a s v)
