-- ===== src/Mobile/Account/Laws.antt =====
-- What is asked for, and what a failure leaves.
use mansariya.Base.{
  String, ◌&&◌, ◌||◌, not, Option, none, some, ltb, str_eq, if◌then◌else◌, ◌≡◌, ◌≢◌, refl, arith,
}
use mansariya.Base.Texts.{text_length}
use mansariya.Mobile.ContributorAuth.{Auth}
use mansariya.Mobile.Stores.ContributorStore.{Contributor, ContributionStats}
use mansariya.Mobile.Account.{Screen, failed, login_end, claim_begin, claim_end}

-- A claim is asked for exactly where the trimmed name has at least three characters, the password
-- at least eight, and it was repeated; then for that name and password.
pub claim_begin-asked :
    (trim : String → String) (name password confirm : String) (s : Screen)
    → let asked = (claim_begin trim name password confirm s).0 in
      asked ≡ (
        if not (ltb (text_length (trim name)) 3 || ltb (text_length password) 8)
          && str_eq password confirm
        then some (trim name, password)
        else none)
unfolding claim_begin
claim_begin-asked trim name password confirm s = ground arith

-- A login or a claim that fails leaves the tokens and the store as they are, shows a message and
-- keeps the screen.
pub failed_stays :
    (code : Option String) (fetch_profile : Auth → Auth × Option (Contributor × ContributionStats))
    (s : Screen)
    → let t = login_end (failed code) fetch_profile s in
      let u = claim_end (failed code) s in
      (t.auth ≡ s.auth)
      × (t.is_left ≡ s.is_left)
      × (t.error ≢ none)
      × (u.auth ≡ s.auth)
      × (u.is_left ≡ s.is_left)
      × (u.error ≢ none)
unfolding login_end claim_end
failed_stays code fetch_profile s = (refl, refl, λ e. cc, refl, refl, λ e. cc)
