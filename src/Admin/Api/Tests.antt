-- ===== src/Admin/Api/Tests.antt =====
-- Tests of admin/src/lib/api.ts.
use mansariya.Base.{◌≡◌, refl, true, none, some, [], ◌∷◌}
use mansariya.Admin.Api.{
  AdminStopsParams, text, number, auth_headers, accept_json, api_key, admin_stops_query,
}

abbrev second_page : AdminStopsParams
second_page = record {
  search = some "";
  source = some "osm";
  sort_by = none;
  sort_dir = none;
  limit = some 20;
  offset = some 20;
}

-- The empty text sets nothing.
second_page_query :
    admin_stops_query second_page
    ≡ ("source", text "osm") ∷ ("limit", number 20) ∷ ("offset", number 20) ∷ []
unfolding admin_stops_query
second_page_query = refl

no_token : auth_headers "key" none true ≡ accept_json ∷ api_key "key" ∷ []
unfolding auth_headers
no_token = refl
