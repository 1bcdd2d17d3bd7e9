-- ===== src/Admin/DataExport/Tests.antt =====
-- Tests and examples of admin/src/pages/data.tsx.
use mansariya.Base.{ℕ, true, some, [], ◌∷◌, map, ◌≡◌, refl}
use mansariya.Admin.DataExport.{Text, Route, headers, export_csv}
use mansariya.Admin.DataExport.Reader.{read_rows}
use mansariya.Admin.DataExport.ReadBack.{IsPlain}
use mansariya.Admin.DataExport.Laws.{columns, read_rows-export_csv}

-- Numbers as strokes.
abbrev show : ℕ → Text
show n = 49 ∷ []

show-IsPlain : (n : ℕ) → IsPlain (show n)
show-IsPlain n = (refl, tt)

-- A route whose name is `a "b",` and a line break.
abbrev route : Route
route = record {
  id = 49 ∷ 51 ∷ 56 ∷ [];
  name_en = 97 ∷ 32 ∷ 34 ∷ 98 ∷ 34 ∷ 44 ∷ 10 ∷ [];
  operator = [];
  service_type = 78 ∷ [];
  fare_lkr = 90;
  stop_count = 12;
  is_active = true;
}

read_rows-export_csv_example :
    (t : Text) × (export_csv show (route ∷ []) ≡ some t)
    × (read_rows t ≡ (headers.0 ∷ headers.1) ∷ map (columns show) (route ∷ []))
read_rows-export_csv_example =
    read_rows-export_csv show show-IsPlain route [] (((refl, (refl, (refl, tt))), (refl, tt)), tt)
