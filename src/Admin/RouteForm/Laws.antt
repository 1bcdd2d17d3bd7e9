-- ===== src/Admin/RouteForm/Laws.antt =====
-- What the forms of a route send.
use mansariya.Base.{ℕ, String, Option, none, some, ◌==◌, if◌then◌else◌, ◌≡◌, ◌≢◌}
use mansariya.Admin.Api.Types.{AdminRouteWithStats}
use mansariya.Admin.RouteForm.{Numbers}

-- A number that is shown reads back, and none is shown as the empty text.
pub record Reads (n : Numbers) : Type 0 where
  pub back : (k : ℕ) → n.number (n.show k) ≡ some k
  pub shown : (k : ℕ) → n.show k ≢ ""

abbrev pub unless_zero : ℕ → Option ℕ
unless_zero k = if k == 0 then none else some k

-- The texts of a route that the form trims have no blanks around them, and its English name is there.
pub record IsTrimmed (trim : String → String) (r : AdminRouteWithStats) : Type 0 where
  pub en : trim r.name_en ≡ r.name_en
  pub si : trim r.name_si ≡ r.name_si
  pub ta : trim r.name_ta ≡ r.name_ta
  pub hours : trim r.operating_hours ≡ r.operating_hours
  pub named : r.name_en ≢ ""
