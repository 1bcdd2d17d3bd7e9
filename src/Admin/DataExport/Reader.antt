-- ===== src/Admin/DataExport/Reader.antt =====
-- A reader of comma-separated values after RFC 4180: a field is in quotes, where a quote is doubled,
-- or it ends at the next comma or line break.
use mansariya.Base.{ℕ, List, [], ◌∷◌, ◌==◌, if◌then◌else◌}
use mansariya.Admin.DataExport.{Text, quote, comma, newline}

-- At the start of a field, in a bare one, in quotes, and behind a quote in quotes.
pub data Mode : Type 0 where
  at_start bare in_quotes behind_quote : Mode

pub data Action : Type 0 where
  put skip end_field end_row : Action

abbrev delimit : ℕ → Mode × Action
delimit c =
    if c == comma
    then (at_start, end_field)
    else if c == newline
    then (at_start, end_row)
    else (bare, put)

unfoldable pub next : Mode → ℕ → Mode × Action
next at_start c = if c == quote then (in_quotes, skip) else delimit c
next bare c = delimit c
next in_quotes c = if c == quote then (behind_quote, skip) else (in_quotes, put)
next behind_quote c = if c == quote then (in_quotes, put) else delimit c

-- What is read, from the field that is being read on.
pub record Sheet : Type 0 where
  pub field : Text
  pub fields : List Text
  pub rows : List (List Text)

abbrev pub blank : Sheet
blank = record { field = []; fields = []; rows = [] }

abbrev pub apply : Action → ℕ → Sheet → Sheet
apply put c s = record s { field = c ∷ s.field }
apply skip c s = s
apply end_field c s = record s { field = []; fields = s.field ∷ s.fields }
apply end_row c s = record { field = []; fields = []; rows = (s.field ∷ s.fields) ∷ s.rows }

unfoldable pub read : Mode → Text → Sheet
unfolding next
read m [] = blank
read m (c ∷ cs) = apply (next m c).1 c (read (next m c).0 cs)

abbrev pub all_rows : Sheet → List (List Text)
all_rows s = (s.field ∷ s.fields) ∷ s.rows

abbrev pub read_rows : Text → List (List Text)
read_rows t = all_rows (read at_start t)
