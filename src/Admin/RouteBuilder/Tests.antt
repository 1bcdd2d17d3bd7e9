-- ===== src/Admin/RouteBuilder/Tests.antt =====
-- Tests and examples of the route builder.
use mansariya.Base.{[], ◌∷◌}
use mansariya.Admin.RouteBuilder.{OsrmRoute, OsrmResponse}

abbrev road : OsrmRoute
road = record { distance = 900; duration = 60; coordinates = []; legs = [] }

abbrev found : OsrmResponse
found = record { code = "Ok"; routes = road ∷ [] }
