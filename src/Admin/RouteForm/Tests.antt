-- ===== src/Admin/RouteForm/Tests.antt =====
-- Examples of the forms of a route.
use mansariya.Base.{ℕ, zero, suc, ◌-◌, String, true, false, some, []}
use mansariya.Base.Texts.{text_length}
use mansariya.Admin.Api.Types.{AdminRouteWithStats}
use mansariya.Admin.RouteForm.{Numbers, Screen, blank}

-- A number by as many strokes and one more.
strokes : ℕ → String
strokes zero = "1"
strokes (suc k) = String.◌∷◌ "1" (strokes k)

abbrev numbers : Numbers
numbers = record { show = strokes; number = λ t. some (text_length t - 1) }

abbrev route : AdminRouteWithStats
route = record {
  id = "138";
  name_en = "Maharagama";
  name_si = "";
  name_ta = "";
  operator = "Private";
  service_type = "";
  fare_lkr = 2;
  frequency_minutes = 0;
  operating_hours = "";
  is_active = true;
  stop_count = 2;
  has_polyline = true;
  pattern_count = 1;
  origin_stop_name = "Pettah";
  destination_stop_name = "Maharagama";
}

abbrev opened : Screen
opened = record {
  route_id = "138";
  fields = blank;
  is_pending = false;
  notices = [];
  invalidated = [];
  location = "/routes/138/edit";
}

abbrev trim : String → String
trim t = t
