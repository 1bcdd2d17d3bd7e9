-- ===== src/Admin/DataExport/Laws.antt =====
-- What is exported is read back.
use mansariya.Base.{ℕ, Bool, true, false, some, List, [], ◌∷◌, map, All, ◌≡◌, refl, ap, ◌∙◌}
use mansariya.Admin.DataExport.{Text, Route, show_bool, headers, header_row, route_row, export_csv}
use mansariya.Admin.DataExport.ReadBack.{IsPlain, WritableRow, values, read_rows-write_rows}
use mansariya.Admin.DataExport.Reader.{read_rows}

-- What is asked of a route: its id and its type of service, which are written as they are, have no
-- quote, comma or line break in them.
abbrev pub IsExportable : Route → Type 0
IsExportable r = IsPlain r.id × IsPlain r.service_type

module _ (show : ℕ → Text) where
  abbrev pub columns : Route → List Text
  columns r =
      r.id
      ∷ r.name_en
      ∷ r.operator
      ∷ r.service_type
      ∷ show r.fare_lkr
      ∷ show r.stop_count
      ∷ show_bool r.is_active
      ∷ []

header_row-Writable : WritableRow header_row
header_row-Writable = (search)

module _ (show : ℕ → Text) (plain_show : (n : ℕ) → IsPlain (show n)) where
  show_bool-IsPlain : (b : Bool) → IsPlain (show_bool b)
  show_bool-IsPlain true = (search)
  show_bool-IsPlain false = (search)

  route_row-Writable : (r : Route) → IsExportable r → WritableRow (route_row show r)
  unfolding route_row
  route_row-Writable r (p, q) = (
    p,
    (
      tt,
      (
        tt,
        (
          q,
          (plain_show r.fare_lkr, (plain_show r.stop_count, (show_bool-IsPlain r.is_active, tt))),
        ),
      ),
    ),
  )

  rows-Writable :
      (rs : List Route) → All IsExportable rs → All WritableRow (map (route_row show) rs)
  rows-Writable [] h = tt
  rows-Writable (r ∷ rs) (p, h) = (route_row-Writable r p, rows-Writable rs h)

  values-route_row :
      (rs : List Route) → map values (map (route_row show) rs) ≡ map (columns show) rs
  unfolding route_row
  values-route_row [] = refl
  values-route_row (r ∷ rs) = ap (◌∷◌ (columns show r)) (values-route_row rs)

  -- A reader of comma-separated values gets back from an export the names of the columns, and for
  -- each route its columns, in order: also where the names and the operators have quotes, commas and
  -- line breaks in them. Asked of the ids, the types of service and the texts of numbers is that they
  -- have none, since they are written as they are.
  pub read_rows-export_csv :
      (r : Route) (rs : List Route)
      → All IsExportable (r ∷ rs)
      → (t : Text) × (export_csv show (r ∷ rs) ≡ some t)
        × (read_rows t ≡ (headers.0 ∷ headers.1) ∷ map (columns show) (r ∷ rs))
  unfolding export_csv
  read_rows-export_csv r rs h = (
    _,
    refl,
    read_rows-write_rows header_row (map (route_row show) (r ∷ rs)) header_row-Writable
          (rows-Writable (r ∷ rs) h)
        ∙ ap (◌∷◌ (headers.0 ∷ headers.1)) (values-route_row (r ∷ rs)),
  )
