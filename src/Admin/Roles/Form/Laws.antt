-- ===== src/Admin/Roles/Form/Laws.antt =====
-- The slug of a new role.
use mansariya.Base.{ℕ, Bool, true, false, none, some, List, [], ◌∷◌, ◌≡◌, refl, sym, subst, arith}
use mansariya.Admin.Roles.Slug.{Text, name_to_slug, clean, trim_end, trim_start, hyphenate}
use mansariya.Admin.Roles.Form.{
  Form, Event, Reply, opened, named, slugged, described, fired, replied, suggested, step, run, fire,
  check_slug, on_reply, handle_name_change, handle_slug_change, is_edit, free, used, failed,
  can_submit,
}

-- Whether the slug is in the user's hands, by what was done: an opening for a new role takes it back.
abbrev set_by_hand : Event → Bool → Bool
set_by_hand (opened none) by_hand = false
set_by_hand (opened (some r)) by_hand = true
set_by_hand (slugged value) by_hand = true
set_by_hand suggested by_hand = true
set_by_hand _ by_hand = by_hand

abbrev pub is_by_hand : List Event → Bool → Bool
is_by_hand [] by_hand = by_hand
is_by_hand (e ∷ rest) by_hand = is_by_hand rest (set_by_hand e by_hand)

module _ (to_lower_case : Text → Text) where
  -- A form for a new role, as long as nobody has set the slug.
  abbrev Follows : Form → Type 0
  Follows f =
      (f.editing_role ≡ none)
      × (f.slug_manual ≡ false)
      × (f.slug ≡ name_to_slug to_lower_case f.name)

  abbrev Holds : Bool → Form → Type 0
  Holds true f = Unit
  Holds false f = Follows f

  fire-Follows : (f : Form) → Follows f → Follows (fire f)
  unfolding fire check_slug
  fire-Follows f (a, b, c) = (ground (arith, a), ground (arith, b), ground (arith, c))

  reply-Follows : (i : ℕ) (r : Reply) (f : Form) → Follows f → Follows (on_reply i r f)
  unfolding on_reply
  reply-Follows i free f v = v
  reply-Follows i (used s) f v = v
  reply-Follows i failed f v = v

  named-Follows :
      (value : Text) (f : Form) → Follows f → Follows (handle_name_change to_lower_case value f)
  unfolding handle_name_change
  named-Follows value f (a, b, c) =
      (ground (arith, a, b), ground (arith, a, b), ground (arith, a, b))

  step-Holds :
      name_to_slug to_lower_case [] ≡ []
      → (e : Event) (by_hand : Bool) (f : Form) → Holds by_hand f
      → Holds (set_by_hand e by_hand) (step to_lower_case e f)
  unfolding step
  step-Holds h (opened none) by_hand f v = (refl, refl, sym h)
  step-Holds h (opened (some r)) by_hand f v = tt
  step-Holds h (slugged value) by_hand f v = tt
  step-Holds h suggested by_hand f v = tt
  step-Holds h (named value) true f v = tt
  step-Holds h (named value) false f v = named-Follows value f v
  step-Holds h (described value) true f v = tt
  step-Holds h (described value) false f v = v
  step-Holds h fired true f v = tt
  step-Holds h fired false f v = fire-Follows f v
  step-Holds h (replied i r) true f v = tt
  step-Holds h (replied i r) false f v = reply-Follows i r f v

  slug_of_nothing : to_lower_case [] ≡ [] → name_to_slug to_lower_case [] ≡ []
  unfolding name_to_slug trim_end trim_start hyphenate
  slug_of_nothing h = rw (h, name_to_slug) refl

  run-Holds :
      name_to_slug to_lower_case [] ≡ []
      → (events : List Event) (by_hand : Bool) (f : Form) → Holds by_hand f
      → Holds (is_by_hand events by_hand) (run to_lower_case events f)
  unfolding run
  run-Holds h [] by_hand f v = v
  run-Holds h (e ∷ rest) by_hand f v =
      run-Holds h rest (set_by_hand e by_hand) (step to_lower_case e f) (step-Holds h e by_hand f v)

  -- Where `toLowerCase` of nothing is nothing: in any history of the form, also over several openings,
  -- where it was last opened for a new role and since then no slug was typed and no suggestion taken,
  -- the slug is the slug of the name.
  pub run-name_to_slug :
      to_lower_case [] ≡ []
      → (events : List Event) (f : Form) → is_by_hand events true ≡ false
      → let g = run to_lower_case events f in g.slug ≡ name_to_slug to_lower_case g.name
  run-name_to_slug h events f untouched =
      let v =
        subst (λ b. Holds b (run to_lower_case events f)) untouched
          (run-Holds (slug_of_nothing h) events true f tt) in
      v.2

  -- In a form for a new role, a reply that a slug is taken counts for whatever slug has been typed in
  -- the meantime: the role cannot be created, although nobody has asked for the new slug.
  pub on_reply-stale :
      (i : ℕ) (value suggestion : Text) (f : Form)
      → is_edit f ≡ false
      → let g = on_reply i (used suggestion) (handle_slug_change to_lower_case value f) in
        (g.slug ≡ clean to_lower_case value) × (can_submit g ≡ false)
  unfolding on_reply can_submit handle_slug_change
  on_reply-stale i value suggestion f h = ground (arith, h)
