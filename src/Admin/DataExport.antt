-- ===== src/Admin/DataExport.antt =====
-- admin/src/pages/data.tsx: the export of the routes as comma-separated values, and the upload. A
-- text is the list of its code units; `show`, the text of a number, is a parameter.
pub mod Reader
pub mod ReadBack
pub mod Laws
mod Tests
use mansariya.Base.{
  ℕ, Bool, true, false, ◌||◌, Option, none, some, List, [], ◌∷◌, ◌++◌, map, ◌==◌, if◌then◌else◌,
}
use mansariya.Base.Texts.{codes}

abbrev pub Text : Type 0
Text = List ℕ

abbrev pub quote : ℕ
quote = 34

abbrev pub comma : ℕ
comma = 44

abbrev pub newline : ℕ
newline = 10

-- `s.replace(/"/g, '""')`
unfoldable pub escape : Text → Text
escape [] = []
escape (c ∷ cs) = let rest = escape cs in if c == quote then quote ∷ quote ∷ rest else c ∷ rest

-- A value of a row, as it is or in quotes.
pub data Field : Type 0 where
  plain : Text → Field
  quoted : Text → Field

unfoldable pub write : Field → Text
unfolding escape
write (plain s) = s
write (quoted s) = quote ∷ (escape s ++ quote ∷ [])

-- `join` of the fields, of which there is a first one.
unfoldable pub write_row : Field → List Field → Text
unfolding write
write_row f [] = write f
write_row f (g ∷ gs) = write f ++ comma ∷ write_row g gs

abbrev pub Row : Type 0
Row = Field × List Field

unfoldable pub write_rows : Row → List Row → Text
unfolding write_row
write_rows r [] = write_row r.0 r.1
write_rows r (s ∷ rows) = write_row r.0 r.1 ++ newline ∷ write_rows s rows

pub record Route : Type 0 where
  pub id : Text
  pub name_en : Text
  pub operator : Text
  pub service_type : Text
  pub fare_lkr : ℕ
  pub stop_count : ℕ
  pub is_active : Bool

abbrev pub show_bool : Bool → Text
show_bool true = codes "true"
show_bool false = codes "false"

-- The names of the columns, the first one apart.
abbrev pub headers : Text × List Text
headers = (
  codes "id",
  codes "name_en"
      ∷ codes "operator"
      ∷ codes "service_type"
      ∷ codes "fare_lkr"
      ∷ codes "stop_count"
      ∷ codes "is_active"
      ∷ [],
)

abbrev pub header_row : Row
header_row = (plain headers.0, map plain headers.1)

module _ (show : ℕ → Text) where
  unfoldable pub route_row : Route → Row
  route_row r = (
    plain r.id,
    quoted r.name_en
        ∷ quoted r.operator
        ∷ plain r.service_type
        ∷ plain (show r.fare_lkr)
        ∷ plain (show r.stop_count)
        ∷ plain (show_bool r.is_active)
        ∷ [],
  )

  -- `exportCSV`; `none` is the error that there is nothing to export.
  unfoldable pub export_csv : List Route → Option Text
  unfolding write_rows route_row
  export_csv [] = none
  export_csv (r ∷ routes) = some (write_rows header_row (map route_row (r ∷ routes)))

-- The upload: `handleImport` does not read the file, and only tests how its name ends.
pub data UploadState : Type 0 where
  idle uploading success error : UploadState

abbrev pub handle_import : UploadState → UploadState
handle_import s = uploading

abbrev pub on_timer : Bool → Bool → UploadState
on_timer is_csv is_json = if is_csv || is_json then success else error
