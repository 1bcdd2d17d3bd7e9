-- ===== src/Admin/Pages/Tests.antt =====
-- Examples of the paths of the console.
use mansariya.Base.{
  String, true, false, Option, none, some, List, [], ◌∷◌, any, str_eq, eq_iff, if◌then◌else◌, ◌≡◌,
  ◌≢◌, ◌⊎◌, inl, inr, refl, ap, Bool-cases, arith,
}
use mansariya.Admin.Auth.{AuthState, nothing, is_authenticated}
use mansariya.Admin.Pages.{
  Page, login, user_detail, Route, app_routes, gives, fits, page_name, Router, shown, follow,
}
use mansariya.Admin.Pages.Laws.{follow-shown_page}

-- The first route that fits.
first_fit : List Route → List String → Option Page
first_fit [] path = none
first_fit (r ∷ rs) path =
    let later = first_fit rs path in if fits r.pattern path then some r.page else later

first_fit_sound :
    (rs : List Route) (path : List String) (page : Page)
    → first_fit rs path ≡ some page
    → any (gives path page) rs ≡ true
unfolding first_fit
first_fit_sound [] path page e = cc
first_fit_sound (r ∷ rs) path page e = elim (Bool-cases (fits r.pattern path)) [
  | inl f ↦
      let same : r.page ≡ page = ground (arith, f, e) in
      let named : str_eq (page_name r.page) (page_name page) ≡ true =
        (eq_iff (page_name r.page) (page_name page)).1 (ap page_name same) in
      ground (arith, f, named)
  | inr f ↦ ground (arith, f, first_fit_sound rs path page)
]

first_fit_complete :
    (rs : List Route) (path : List String)
    → any (λ (r : Route). fits r.pattern path) rs ≡ true
    → (page : Page) × (first_fit rs path ≡ some page)
unfolding first_fit
first_fit_complete [] path e = cc
first_fit_complete (r ∷ rs) path e = elim (Bool-cases (fits r.pattern path)) [
  | inl f ↦ (r.page, rw f)
  | inr f ↦
      let (page, found) = first_fit_complete rs path (ground (arith, f, e)) in (page, rw (f, found))
]

abbrev router : Router
router = record { find = first_fit; sound = first_fit_sound; complete = first_fit_complete }

abbrev outside : AuthState
outside = record {
  user = none;
  permissions = [];
  tokens = none;
  is_loading = false;
  storage = nothing;
  logged_out = [];
}

users_1 : first_fit app_routes ("users" ∷ "1" ∷ []) ≡ some user_detail
unfolding first_fit app_routes fits
users_1 = refl

follow-shown_page_example :
    (p : Page) × (follow router 3 outside ("users" ∷ "1" ∷ []) ≡ some (shown p))
    × (((is_authenticated outside ≡ true) × (p ≢ login))
        ⊎ ((is_authenticated outside ≡ false) × (p ≡ login)))
follow-shown_page_example = follow-shown_page router outside refl ("users" ∷ "1" ∷ [])
