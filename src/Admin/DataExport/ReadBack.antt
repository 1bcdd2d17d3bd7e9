-- ===== src/Admin/DataExport/ReadBack.antt =====
-- Rows that are written as comma-separated values are read back.
use mansariya.Base.{
  ℕ, true, false, ◌||◌, List, [], ◌∷◌, ◌++◌, map, All, ◌==◌, ==_iff, ◌≡◌, refl, sym, ap, ◌∙◌,
  append-nil, append_assoc, arith, Bool-cases, inl, inr,
}
use mansariya.Admin.DataExport.{
  Text, quote, comma, newline, escape, Field, plain, quoted, write, Row, write_row, write_rows,
}
use mansariya.Admin.DataExport.Reader.{
  Mode, at_start, bare, in_quotes, behind_quote, next, Action, put, Sheet, apply, read, all_rows,
  read_rows,
}

-- A text without quotes, commas and line breaks.
abbrev pub IsPlain : Text → Type 0
IsPlain s = All (λ c. (c == quote || c == comma || c == newline) ≡ false) s

abbrev prepend : Text → Sheet → Sheet
prepend s t = record t { field = s ++ t.field }

escape-quote :
    (c : ℕ) (cs : Text) → (c == quote) ≡ true → escape (c ∷ cs) ≡ quote ∷ quote ∷ escape cs
unfolding escape
escape-quote c cs h = ground (arith, h)

escape-other : (c : ℕ) (cs : Text) → (c == quote) ≡ false → escape (c ∷ cs) ≡ c ∷ escape cs
unfolding escape
escape-other c cs h = ground (arith, h)

next-in_quotes : (c : ℕ) → (c == quote) ≡ false → next in_quotes c ≡ (in_quotes, put)
unfolding next
next-in_quotes c h = ground (arith, h)

next-bare : (c : ℕ) → (c == quote || c == comma || c == newline) ≡ false → next bare c ≡ (bare, put)
unfolding next
next-bare c h = ground (arith, h)

next-at_start :
    (c : ℕ) → (c == quote || c == comma || c == newline) ≡ false → next at_start c ≡ (bare, put)
unfolding next
next-at_start c h = ground (arith, h)

read-next :
    (m : Mode) (c : ℕ) (cs : Text) (k : Mode)
    → next m c ≡ (k, put)
    → read m (c ∷ cs) ≡ record (read k cs) { field = c ∷ (read k cs).field }
unfolding read
read-next m c cs k e = ap (λ (x : Mode × Action). apply x.1 c (read x.0 cs)) e

-- A value in quotes is read back, up to the quote that closes it.
read-escape :
    (s rest : Text) → read in_quotes (escape s ++ quote ∷ rest) ≡ prepend s (read behind_quote rest)
unfolding escape read next
read-escape [] rest = refl
read-escape (c ∷ cs) rest = elim (Bool-cases (c == quote)) [
  | inl e ↦
      ap (λ t. read in_quotes (t ++ quote ∷ rest)) (escape-quote c cs e)
      ∙ ap (λ (t : Sheet). record t { field = quote ∷ t.field }) (read-escape cs rest)
      ∙ ap (λ k. prepend (k ∷ cs) (read behind_quote rest)) (sym ((==_iff c quote).0 e))
  | inr e ↦
      ap (λ t. read in_quotes (t ++ quote ∷ rest)) (escape-other c cs e)
      ∙ read-next in_quotes c (escape cs ++ quote ∷ rest) in_quotes (next-in_quotes c e)
      ∙ ap (λ (t : Sheet). record t { field = c ∷ t.field }) (read-escape cs rest)
]

read-bare : (s rest : Text) → IsPlain s → read bare (s ++ rest) ≡ prepend s (read bare rest)
read-bare [] rest h = refl
read-bare (c ∷ cs) rest (p, h) =
    read-next bare c (cs ++ rest) bare (next-bare c p)
    ∙ ap (λ (t : Sheet). record t { field = c ∷ t.field }) (read-bare cs rest h)

-- What follows a field: nothing, a comma or a line break. Then every mode reads the same.
record Boundary (rest : Text) : Type 0 where
  bare_start : read bare rest ≡ read at_start rest
  behind_start : read behind_quote rest ≡ read at_start rest

abbrev pub value : Field → Text
value (plain s) = s
value (quoted s) = s

abbrev pub Writable : Field → Type 0
Writable (plain s) = IsPlain s
Writable (quoted s) = Unit

read-write :
    (f : Field) (rest : Text)
    → Writable f
    → Boundary rest
    → read at_start (write f ++ rest) ≡ prepend (value f) (read at_start rest)
unfolding write read next
read-write (plain []) rest h b = refl
read-write (plain (c ∷ cs)) rest (p, h) b =
    read-next at_start c (cs ++ rest) bare (next-at_start c p)
    ∙ ap (λ (t : Sheet). record t { field = c ∷ t.field })
        (read-bare cs rest h ∙ ap (prepend cs) b.bare_start)
read-write (quoted s) rest h b =
    ap (read in_quotes) (append_assoc (escape s) (quote ∷ []) rest)
    ∙ read-escape s rest
    ∙ ap (prepend s) b.behind_start

Boundary-comma : (t : Text) → Boundary (comma ∷ t)
unfolding read next
Boundary-comma t = record { bare_start = refl; behind_start = refl }

Boundary-newline : (t : Text) → Boundary (newline ∷ t)
unfolding read next
Boundary-newline t = record { bare_start = refl; behind_start = refl }

Boundary-nil : Boundary []
unfolding read
Boundary-nil = record { bare_start = refl; behind_start = refl }

prepend-empty :
    (s : Text) (t : Sheet)
    → t.field ≡ []
    → t.fields ≡ []
    → prepend s t ≡ record t { field = s; fields = [] }
prepend-empty s t e h = ground (arith, append-nil s, e, h)

read-comma :
    (t : Text)
    → read at_start (comma ∷ t) ≡ record (read at_start t) {
      field = [];
      fields = (read at_start t).field ∷ (read at_start t).fields;
    }
unfolding read next
read-comma t = refl

read-newline :
    (t : Text)
    → read at_start (newline ∷ t) ≡ record {
      field = [];
      fields = [];
      rows = ((read at_start t).field ∷ (read at_start t).fields) ∷ (read at_start t).rows;
    }
unfolding read next
read-newline t = refl

-- A row puts its values in front of an empty field.
read-write_row :
    (f : Field) (fs : List Field) (rest : Text)
    → Writable f
    → All Writable fs
    → Boundary rest
    → (read at_start rest).field ≡ []
    → (read at_start rest).fields ≡ []
    → read at_start (write_row f fs ++ rest)
      ≡ record (read at_start rest) { field = value f; fields = map value fs }
unfolding write_row
read-write_row f [] rest w ws b empty none_yet =
    read-write f rest w b ∙ prepend-empty (value f) (read at_start rest) empty none_yet
read-write_row f (g ∷ gs) rest w (v, vs) b empty none_yet =
    let t = write_row g gs ++ rest in
    ap (read at_start) (append_assoc (write f) (comma ∷ write_row g gs) rest)
    ∙ read-write f (comma ∷ t) w (Boundary-comma t)
    ∙ ap (prepend (value f)) (read-comma t)
    ∙ ap (λ (u : Sheet). prepend (value f) (record u { field = []; fields = u.field ∷ u.fields }))
        (read-write_row g gs rest v vs b empty none_yet)
    ∙ ap (λ x. record (read at_start rest) { field = x; fields = value g ∷ map value gs })
        (append-nil (value f))

abbrev pub values : Row → List Text
values r = value r.0 ∷ map value r.1

abbrev pub WritableRow : Row → Type 0
WritableRow r = Writable r.0 × All Writable r.1

-- What is written, row by row, is read back.
pub read_rows-write_rows :
    (r : Row) (rows : List Row)
    → WritableRow r
    → All WritableRow rows
    → read_rows (write_rows r rows) ≡ values r ∷ map values rows
unfolding read write_rows
read_rows-write_rows r [] (w, ws) h =
    ap (λ t. all_rows (read at_start t)) (sym (append-nil (write_row r.0 r.1)))
    ∙ ap all_rows (read-write_row r.0 r.1 [] w ws Boundary-nil refl refl)
read_rows-write_rows r (s ∷ rows) (w, ws) (v, h) =
    let rest = write_rows s rows in
    let after = read-newline rest in
    ap all_rows (
      read-write_row r.0 r.1 (newline ∷ rest) w ws (Boundary-newline rest)
        (ap (λ (t : Sheet). t.field) after) (ap (λ (t : Sheet). t.fields) after))
    ∙ ap (λ (t : Sheet). values r ∷ t.rows) after
    ∙ ap (◌∷◌ (values r)) (read_rows-write_rows s rows v h)
