-- ===== src/Admin/Roles/Form.antt =====
-- admin/src/pages/roles.tsx: the form for a role, `RoleFormDialog`. The checks of a slug that are
-- under way are a bag: an answer may come in any order.
pub mod Laws
use mansariya.Base.{
  ℕ, zero, suc, String, Bool, true, false, ◌&&◌, ◌||◌, not, Option, none, some, List, [], ◌∷◌, ◌++◌,
  ◌≡◌, refl, arith, leb, ◌==◌, any, select, if◌then◌else◌,
}
use mansariya.Admin.Roles.Slug.{Text, between, is_slug_char, name_to_slug, clean}

pub record Role : Type 0 where
  pub id : String
  pub slug : Text
  pub name : Text
  pub description : Text

pub data SlugStatus : Type 0 where
  idle checking available taken : SlugStatus

-- `timer` is the slug that the debounced check will ask about, with the `isEdit` that its closure
-- holds; `checks` are the requests under way.
pub record Form : Type 0 where
  pub editing_role : Option Role
  pub name : Text
  pub slug : Text
  pub slug_manual : Bool
  pub slug_status : SlugStatus
  pub slug_suggestion : Text
  pub description : Text
  pub timer : Option (Text × Bool)
  pub checks : List Text

abbrev pub is_edit : Form → Bool
is_edit f = elim f.editing_role [ none ↦ false | some _ ↦ true ]

-- The effect on `[editingRole, open]`. It leaves the timer and the requests alone.
abbrev pub reset : Option Role → Form → Form
reset none f = record f {
  editing_role = none;
  name = [];
  slug = [];
  description = [];
  slug_manual = false;
  slug_status = idle;
  slug_suggestion = [];
}
reset (some r) f = record f {
  editing_role = some r;
  name = r.name;
  slug = r.slug;
  description = r.description;
  slug_manual = true;
  slug_status = idle;
}

abbrev pub is_empty : Text → Bool
is_empty [] = true
is_empty (c ∷ cs) = false

unfoldable pub check_slug : Bool → Text → Form → Form
check_slug edit s f =
    if is_empty s || edit
    then f
    else record f { slug_status = checking; checks = f.checks ++ s ∷ [] }

-- The end of both handlers: the timer is set anew.
abbrev pub debounce : Text → Form → Form
debounce s f =
    if is_empty s
    then record f { timer = none; slug_status = idle }
    else record f { timer = some (s, is_edit f) }

module _ (to_lower_case : Text → Text) where
  unfoldable pub handle_name_change : Text → Form → Form
  handle_name_change value f =
      if f.slug_manual || is_edit f
      then record f { name = value }
      else (let generated = name_to_slug to_lower_case value in
          debounce generated (record f { name = value; slug = generated }))

  unfoldable pub handle_slug_change : Text → Form → Form
  handle_slug_change value f =
      let cleaned = clean to_lower_case value in
      debounce cleaned (record f { slug = cleaned; slug_manual = true })

unfoldable pub fire : Form → Form
unfolding check_slug
fire f = elim f.timer [ none ↦ f | some (s, edit) ↦ check_slug edit s (record f { timer = none }) ]

-- What comes back for a check: the slug is free, or it is taken and the server gives another one;
-- or the request fails.
pub data Reply : Type 0 where
  free : Reply
  used : Text → Reply
  failed : Reply

abbrev pub apply_reply : Reply → Form → Form
apply_reply free f = record f { slug_status = available }
apply_reply (used suggestion) f = record f { slug_status = taken; slug_suggestion = suggestion }
apply_reply failed f = record f { slug_status = idle }

-- The reply to the i-th request under way; which slug was asked for plays no part.
abbrev pub without : ℕ → List Text → List Text
without i [] = []
without zero (s ∷ rest) = rest
without (suc i) (s ∷ rest) = s ∷ without i rest

unfoldable pub on_reply : ℕ → Reply → Form → Form
on_reply i reply f = apply_reply reply (record f { checks = without i f.checks })

unfoldable pub use_suggestion : Form → Form
use_suggestion f = record f {
  slug = f.slug_suggestion;
  slug_manual = true;
  slug_status = available;
  slug_suggestion = [];
}

-- `trim().length > 0`: a code unit that is no white space.
abbrev pub is_space : ℕ → Bool
is_space c =
    between 9 13 c
    || any (λ s. s == c) (32 ∷ 160 ∷ 5760 ∷ 8232 ∷ 8233 ∷ 8239 ∷ 8287 ∷ 12288 ∷ 65279 ∷ [])
    || between 8192 8202 c

abbrev pub has_text : Text → Bool
has_text t = any (λ c. not (is_space c)) t

abbrev pub is_taken : SlugStatus → Bool
is_taken taken = true
is_taken idle = false
is_taken checking = false
is_taken available = false

unfoldable pub can_submit : Form → Bool
can_submit f = has_text f.name && (is_edit f || has_text f.slug && not (is_taken f.slug_status))

-- What the user, the timer and the server do.
pub data Event : Type 0 where
  opened : Option Role → Event
  named : Text → Event
  slugged : Text → Event
  described : Text → Event
  fired : Event
  replied : ℕ → Reply → Event
  suggested : Event

module _ (to_lower_case : Text → Text) where
  -- The suggestion is a button that is shown for a slug that is taken, with a suggestion at hand.
  unfoldable pub step : Event → Form → Form
  unfolding fire
  step (opened r) f = reset r f
  step (named value) f = handle_name_change to_lower_case value f
  step (slugged value) f = if is_edit f then f else handle_slug_change to_lower_case value f
  step (described value) f = record f { description = value }
  step fired f = fire f
  step (replied i reply) f = on_reply i reply f
  step suggested f =
      if not (is_edit f) && is_taken f.slug_status && not (is_empty f.slug_suggestion)
      then use_suggestion f
      else f

  unfoldable pub run : List Event → Form → Form
  run [] f = f
  run (e ∷ rest) f = run rest (step e f)
