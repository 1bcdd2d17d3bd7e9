-- ===== src/Admin/Pages/Laws.antt =====
-- Where the paths of the console lead.
use mansariya.Base.{
  ℕ, suc, String, true, false, Option, none, some, List, [], ◌∷◌, any, ◌≡◌, ◌≢◌, ◌⊎◌, inl, inr,
  refl, ap, ◌∙◌, Bool-cases, Option-cases, arith,
}
use mansariya.Admin.Auth.{AuthState, is_authenticated}
use mansariya.Admin.Pages.{
  Page, login, dashboard, app_routes, gives, fits, page_name, Router, redirect, shown, element,
  visit, follow,
}

only_dashboard : (p : Page) → any (gives [] p) app_routes ≡ true → p ≡ dashboard
unfolding app_routes fits page_name
only_dashboard dashboard h = refl
only_dashboard p h = cc

only_login : (p : Page) → any (gives ("login" ∷ []) p) app_routes ≡ true → p ≡ login
unfolding app_routes fits page_name
only_login login h = refl
only_login p h = cc

module _ (router : Router) where
  find-dashboard : router.find app_routes [] ≡ some dashboard
  unfolding app_routes fits
  find-dashboard =
      let (p, e) = router.complete app_routes [] refl in
      e ∙ ap some (only_dashboard p (router.sound app_routes [] p e))

  find-login : router.find app_routes ("login" ∷ []) ≡ some login
  unfolding app_routes fits
  find-login =
      let path : List String = "login" ∷ [] in
      let (p, e) = router.complete app_routes path refl in
      e ∙ ap some (only_login p (router.sound app_routes path p e))

  -- One step of the redirections.
  follow-redirect :
      (n : ℕ) (s : AuthState) (path next : List String)
      → visit router s path ≡ redirect next
      → follow router (suc n) s path ≡ follow router n s next
  unfolding follow
  follow-redirect n s path next e = rw (e, follow)

  follow-shown :
      (n : ℕ) (s : AuthState) (path : List String) (page : Page)
      → visit router s path ≡ shown page
      → follow router (suc n) s path ≡ some (shown page)
  unfolding follow
  follow-shown n s path page e = rw (e, follow)

module _ (router : Router) (s : AuthState) (restored : s.is_loading ≡ false) where
  module _ (inside : is_authenticated s ≡ true) where
    pub follow_inside-dashboard : (n : ℕ) → follow router (suc n) s [] ≡ some (shown dashboard)
    unfolding visit element
    follow_inside-dashboard n =
        follow-shown router n s [] dashboard
          (ap (element s) (find-dashboard router) ∙ rw (restored, inside) refl)

    pub follow_inside-login :
        (n : ℕ) → follow router (suc (suc n)) s ("login" ∷ []) ≡ some (shown dashboard)
    unfolding visit element
    follow_inside-login n =
        follow-redirect router (suc n) s ("login" ∷ []) []
          (ap (element s) (find-login router) ∙ rw (restored, inside) refl)
        ∙ follow_inside-dashboard n

    lands_inside :
        (n : ℕ) (path : List String) (found : Option Page)
        → router.find app_routes path ≡ found
        → (p : Page) × (follow router (suc (suc n)) s path ≡ some (shown p)) × (p ≢ login)
    unfolding visit element
    lands_inside n path none e = (
      dashboard,
      follow-redirect router (suc n) s path [] (ap (element s) e) ∙ follow_inside-dashboard n,
      λ same. cc,
    )
    lands_inside n path (some login) e = (
      dashboard,
      follow-redirect router (suc n) s path [] (ap (element s) e ∙ rw (restored, inside) refl)
          ∙ follow_inside-dashboard n,
      λ same. cc,
    )
    lands_inside n path (some p) e = (
      p,
      follow-shown router (suc n) s path p (ap (element s) e ∙ rw (restored, inside) refl),
      λ same. cc,
    )

  module _ (outside : is_authenticated s ≡ false) where
    follow_outside-login : (n : ℕ) → follow router (suc n) s ("login" ∷ []) ≡ some (shown login)
    unfolding visit element
    follow_outside-login n =
        follow-shown router n s ("login" ∷ []) login
          (ap (element s) (find-login router) ∙ rw (restored, outside) refl)

    follow_outside-home : (n : ℕ) → follow router (suc (suc n)) s [] ≡ some (shown login)
    unfolding visit element
    follow_outside-home n =
        follow-redirect router (suc n) s [] ("login" ∷ [])
          (ap (element s) (find-dashboard router) ∙ rw (restored, outside) refl)
        ∙ follow_outside-login n

    lands_outside :
        (n : ℕ) (path : List String) (found : Option Page)
        → router.find app_routes path ≡ found
        → follow router (suc (suc (suc n))) s path ≡ some (shown login)
    unfolding visit element
    lands_outside n path none e =
        follow-redirect router (suc (suc n)) s path [] (ap (element s) e) ∙ follow_outside-home n
    lands_outside n path (some login) e =
        follow-shown router (suc (suc n)) s path login
          (ap (element s) e ∙ rw (restored, outside) refl)
    lands_outside n path (some p) e =
        follow-redirect router (suc (suc n)) s path ("login" ∷ [])
          (ap (element s) e ∙ rw (restored, outside) refl)
        ∙ follow_outside-login (suc n)

  -- Once the session is restored, every path of the console ends at a page after at most two
  -- redirections: at the login without a user, and with one at another page.
  pub follow-shown_page :
      (path : List String)
      → (p : Page) × (follow router 3 s path ≡ some (shown p))
        × (((is_authenticated s ≡ true) × (p ≢ login))
            ⊎ ((is_authenticated s ≡ false) × (p ≡ login)))
  follow-shown_page path = elim (Bool-cases (is_authenticated s)) [
    | inl inside ↦
        let (p, e, other) = lands_inside inside 1 path (router.find app_routes path) refl in
        (p, e, inl (inside, other))
    | inr outside ↦ (
      login,
      lands_outside outside 0 path (router.find app_routes path) refl,
      inr (outside, refl),
    )
  ]

simulation_paths :
    (router : Router) (x : String) (rest : List String)
    → router.find app_routes ("simulations" ∷ x ∷ rest) ≡ none
unfolding app_routes fits
simulation_paths router x rest =
    let path : List String = "simulations" ∷ x ∷ rest in
    elim (Option-cases (router.find app_routes path)) [
      | inl e ↦ e
      | inr (p, e) ↦ absurd (ground (arith, router.sound app_routes path p e))
    ]

-- The links for a new simulation and for the changes of one lead to the dashboard: no path below the
-- one of the simulations has a page.
pub follow-simulations :
    (router : Router) (s : AuthState) (x : String) (rest : List String)
    → s.is_loading ≡ false
    → is_authenticated s ≡ true
    → follow router 2 s ("simulations" ∷ x ∷ rest) ≡ some (shown dashboard)
unfolding visit element
follow-simulations router s x rest restored inside =
    follow-redirect router 1 s ("simulations" ∷ x ∷ rest) []
      (ap (element s) (simulation_paths router x rest))
    ∙ follow_inside-dashboard router s restored inside 0
