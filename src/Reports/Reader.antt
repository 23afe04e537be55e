-- ===== src/Reports/Reader.antt =====
-- A reader of the CSV format (RFC 4180), and what it makes of a cell that csv.writer writes in
-- app/routers/reports.py.
use Prim.Native.Char.{Char, code}
use Prim.Native.String.{◌++◌ as ◌+++◌}
use text.Mathlib.TextLemmas.{nil-append, cons-append, append_assoc}
use office_attendance_backen.Base.{
  ◌==◌, ◌||◌, ◌≡◌, ◌∙◌, ap, refl, arith, String, true, false, Option, none, some, List, [], ◌∷◌,
  Bool-cases, inl, inr,
}
use office_attendance_backen.Reports.{needs_quotes, double_quotes, quote, csv_cell}

-- Where a reader is: at the start of a line or of a cell, in a bare or a quoted cell, behind a
-- quote in a quoted cell, or behind a carriage return.
pub data Place : Type 0 where
  line start bare quoted closed cr : Place

-- What is left of the cell, of its row, and of the rows below.
abbrev pub Parsed : Type 0
Parsed = String × List String × List (List String)

abbrev pub push : Char → Option Parsed → Option Parsed
push c none = none
push c (some (cell, row, rows)) = some (String.◌∷◌ c cell, row, rows)

-- A cell begins behind this point.
abbrev pub next_cell : Option Parsed → Option Parsed
next_cell none = none
next_cell (some (cell, row, rows)) = some ("", cell ∷ row, rows)

-- A row begins behind this point.
abbrev pub next_row : Option Parsed → Option Parsed
next_row none = none
next_row (some (cell, row, rows)) = some ("", [], (cell ∷ row) ∷ rows)

-- `none` where the text is not of the format.
abbrev pub read : Place → String → Option Parsed
read line String.[] = some ("", [], [])
read start String.[] = none
read bare String.[] = none
read quoted String.[] = none
read closed String.[] = none
read cr String.[] = none
read line (String.◌∷◌ c s) = next_row (elim (code c == 34) [
  | true ↦ read quoted s
  | false ↦ elim (code c == b',') [
    | true ↦ next_cell (read start s)
    | false ↦ elim (code c == 13) [ true ↦ read cr s | false ↦ push c (read bare s) ]
  ]
])
read start (String.◌∷◌ c s) = elim (code c == 34) [
  | true ↦ read quoted s
  | false ↦ elim (code c == b',') [
    | true ↦ next_cell (read start s)
    | false ↦ elim (code c == 13) [ true ↦ read cr s | false ↦ push c (read bare s) ]
  ]
]
read bare (String.◌∷◌ c s) = elim (code c == b',') [
  | true ↦ next_cell (read start s)
  | false ↦ elim (code c == 13) [ true ↦ read cr s | false ↦ push c (read bare s) ]
]
read quoted (String.◌∷◌ c s) = elim (code c == 34) [
  | true ↦ read closed s
  | false ↦ push c (read quoted s)
]
read closed (String.◌∷◌ c s) = elim (code c == 34) [
  | true ↦ push c (read quoted s)
  | false ↦ elim (code c == b',') [
    | true ↦ next_cell (read start s)
    | false ↦ elim (code c == 13) [ true ↦ read cr s | false ↦ none ]
  ]
]
read cr (String.◌∷◌ c s) = elim (code c == 10) [ true ↦ read line s | false ↦ none ]

abbrev pub rows_of : Option Parsed → Option (List (List String))
rows_of none = none
rows_of (some (cell, row, rows)) = some rows

-- The rows of a text.
abbrev pub csv_read : String → Option (List (List String))
csv_read s = rows_of (read line s)

abbrev pub push_all : String → Option Parsed → Option Parsed
push_all String.[] r = r
push_all (String.◌∷◌ c s) r = let rest = push_all s r in push c rest

-- The end of a quoted cell.
abbrev end_quote : String → String
end_quote t = String.◌∷◌ "\"" t

quoted_char :
    (c : Char) (s : String)
    → code c == 34 ≡ true
    → read quoted (String.◌∷◌ c (String.◌∷◌ c s)) ≡ push c (read quoted s)
quoted_char c s h = ground arith

plain_char :
    (c : Char) (s : String)
    → code c == 34 ≡ false
    → read quoted (String.◌∷◌ c s) ≡ push c (read quoted s)
plain_char c s h = rw (h, read) refl

read-double_quotes :
    (s t : String) → read quoted (double_quotes s +++ end_quote t) ≡ push_all s (read closed t)
read-double_quotes String.[] t = ap (read quoted) (nil-append (end_quote t))
read-double_quotes (String.◌∷◌ c s) t = elim (Bool-cases (code c == 34)) [
  | inl same ↦
      ap (λ x. read quoted (x +++ end_quote t)) (rw same refl)
      ∙ ap (read quoted) (
          cons-append c (String.◌∷◌ c (double_quotes s)) (end_quote t)
          ∙ ap (λ x. String.◌∷◌ c x) (cons-append c (double_quotes s) (end_quote t)))
      ∙ quoted_char c (double_quotes s +++ end_quote t) same
      ∙ ap (push c) (read-double_quotes s t)
  | inr other ↦
      ap (λ x. read quoted (x +++ end_quote t)) (rw other refl)
      ∙ ap (read quoted) (cons-append c (double_quotes s) (end_quote t))
      ∙ plain_char c (double_quotes s +++ end_quote t) other
      ∙ ap (push c) (read-double_quotes s t)
]

-- A bare cell.
bare_char :
    (c : Char) (s : String)
    → (code c == b',' || code c == 13) ≡ false
    → read bare (String.◌∷◌ c s) ≡ push c (read bare s)
bare_char c s h = ground arith

start_char :
    (c : Char) (s : String)
    → (code c == 34 || code c == b',' || code c == 13) ≡ false
    → read start (String.◌∷◌ c s) ≡ push c (read bare s)
start_char c s h = ground arith

read-bare : (s t : String) → needs_quotes s ≡ false → read bare (s +++ t) ≡ push_all s (read bare t)
read-bare String.[] t h = ap (read bare) (nil-append t)
read-bare (String.◌∷◌ c s) t h =
    ap (read bare) (cons-append c s t)
    ∙ bare_char c (s +++ t) (ground arith)
    ∙ ap (push c) (read-bare s t (ground arith))

start_quote : (s : String) → read start (end_quote s) ≡ read quoted s
start_quote s = refl

-- A cell in quotes, in front of a text.
quoted_text :
    (inner t : String) → (quote +++ (inner +++ quote)) +++ t ≡ end_quote (inner +++ end_quote t)
quoted_text inner t =
    append_assoc quote (inner +++ quote) t
    ∙ cons-append "\"" "" ((inner +++ quote) +++ t)
    ∙ ap end_quote (
        nil-append ((inner +++ quote) +++ t)
        ∙ append_assoc inner quote t
        ∙ ap (λ y. inner +++ y) (cons-append "\"" "" t ∙ ap end_quote (nil-append t)))

-- A cell as it is written, in front of a text that a cell can end before.
pub read-csv_cell :
    (s t : String) (x : Option Parsed)
    → read start t ≡ x
    → read bare t ≡ x
    → read closed t ≡ x
    → read start (csv_cell s +++ t) ≡ push_all s x
read-csv_cell String.[] t x hs hb hc = ap (read start) (nil-append t) ∙ hs
read-csv_cell (String.◌∷◌ c s) t x hs hb hc = elim (Bool-cases (needs_quotes (String.◌∷◌ c s))) [
  | inr plain ↦
      ap (λ y. read start (y +++ t)) (rw plain refl)
      ∙ ap (read start) (cons-append c s t)
      ∙ start_char c (s +++ t) (ground arith)
      ∙ ap (push c) (read-bare s t (ground arith) ∙ ap (push_all s) hb)
  | inl special ↦
      let inner = double_quotes (String.◌∷◌ c s) in
      ap (λ y. read start (y +++ t)) (rw special refl)
      ∙ ap (read start) (quoted_text inner t)
      ∙ start_quote (inner +++ end_quote t)
      ∙ read-double_quotes (String.◌∷◌ c s) t
      ∙ ap (push_all (String.◌∷◌ c s)) hc
]
