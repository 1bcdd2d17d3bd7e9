-- ===== src/Admin/RouteForm.antt =====
-- admin/src/pages/route-edit.tsx and admin/src/pages/route-new.tsx: the forms of a route. `trim`,
-- `String` and `Number` are parameters; a number that cannot be read is written as null.
pub mod Laws
mod Tests
use Prim.Native.String.{◌++◌}
use mansariya.Base.{
  ℕ, String, Bool, true, false, ◌||◌, Option, none, some, List, [], ◌∷◌, ◌==◌, str_eq,
  if◌then◌else◌,
}
use mansariya.Admin.Api.Types.{AdminRouteWithStats}

-- The fields of a form.
pub record Fields : Type 0 where
  pub name_en : String
  pub name_si : String
  pub name_ta : String
  pub operator : String
  pub service_type : String
  pub fare_lkr : String
  pub frequency_minutes : String
  pub operating_hours : String

abbrev pub blank : Fields
blank = record {
  name_en = "";
  name_si = "";
  name_ta = "";
  operator = "SLTB";
  service_type = "Normal";
  fare_lkr = "";
  frequency_minutes = "";
  operating_hours = "";
}

-- The body of the request; a new route has its id too.
pub record RouteFormData : Type 0 where
  pub id : Option String
  pub name_en : String
  pub name_si : String
  pub name_ta : String
  pub operator : String
  pub service_type : String
  pub fare_lkr : Option ℕ
  pub frequency_minutes : Option ℕ
  pub operating_hours : String

abbrev pub or_else : String → String → String
or_else text other = if str_eq text "" then other else text

pub record Numbers : Type 0 where
  pub show : ℕ → String
  pub number : String → Option ℕ

pub data Notice : Type 0 where
  name_required id_and_name_required updated created : Notice
  failed : ℕ → Notice

pub data Key : Type 0 where
  routes_key : Key
  detail_key : String → Key

-- A form, with the notices that were shown, the queries that were invalidated and the page.
pub record Screen : Type 0 where
  pub route_id : String
  pub fields : Fields
  pub is_pending : Bool
  pub notices : List Notice
  pub invalidated : List Key
  pub location : String

module _ (n : Numbers) where
  abbrev pub shown_number : ℕ → String
  shown_number k = if k == 0 then "" else n.show k

  -- `Number(text)` unless the text is empty.
  abbrev pub to_number : String → Option ℕ
  to_number text = if str_eq text "" then none else n.number text

  -- The effect that fills the form of a route when the route has come.
  unfoldable pub populate : Option AdminRouteWithStats → Screen → Screen
  populate none s = s
  populate (some r) s = record s {
    fields = record {
      name_en = r.name_en;
      name_si = r.name_si;
      name_ta = r.name_ta;
      operator = or_else r.operator "SLTB";
      service_type = or_else r.service_type "Normal";
      fare_lkr = shown_number r.fare_lkr;
      frequency_minutes = shown_number r.frequency_minutes;
      operating_hours = r.operating_hours;
    };
  }

  module _ (trim : String → String) where
    unfoldable pub to_data : Option String → Fields → RouteFormData
    to_data id f = record {
      id = id;
      name_en = trim f.name_en;
      name_si = trim f.name_si;
      name_ta = trim f.name_ta;
      operator = f.operator;
      service_type = f.service_type;
      fare_lkr = to_number f.fare_lkr;
      frequency_minutes = to_number f.frequency_minutes;
      operating_hours = trim f.operating_hours;
    }

    -- `handleSubmit` of the edited route: what the mutation is called with. The button is disabled
    -- while it is pending.
    unfoldable pub submit_edit : Screen → Option RouteFormData × Screen
    submit_edit s =
        if s.is_pending
        then (none, s)
        else if str_eq (trim s.fields.name_en) ""
        then (none, record s { notices = name_required ∷ s.notices })
        else (some (to_data none s.fields), record s { is_pending = true })

    -- `handleSubmit` of the new route.
    unfoldable pub submit_new : Screen → Option RouteFormData × Screen
    submit_new s =
        if s.is_pending
        then (none, s)
        else if str_eq (trim s.route_id) "" || str_eq (trim s.fields.name_en) ""
        then (none, record s { notices = id_and_name_required ∷ s.notices })
        else (some (to_data (some (trim s.route_id)) s.fields), record s { is_pending = true })

-- The status of the answer, and whether it is a good one; then `onSuccess` or `onError`.
unfoldable pub edit_answered : ℕ → Bool → Screen → Screen
edit_answered status true s = record s {
  is_pending = false;
  invalidated = detail_key s.route_id ∷ routes_key ∷ s.invalidated;
  notices = updated ∷ s.notices;
  location = "/routes/" ++ s.route_id;
}
edit_answered status false s = record s { is_pending = false; notices = failed status ∷ s.notices }

unfoldable pub new_answered : ℕ → Bool → Screen → Screen
new_answered status true s = record s {
  is_pending = false;
  invalidated = routes_key ∷ s.invalidated;
  notices = created ∷ s.notices;
  location = "/routes";
}
new_answered status false s = record s { is_pending = false; notices = failed status ∷ s.notices }
