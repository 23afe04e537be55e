-- ===== src/Reports/Csv.antt =====
-- app/routers/reports.py `export_report`: whatever is in the names, a reader of the format (RFC
-- 4180) gets the cells back.
use Prim.Native.String.{◌++◌ as ◌+++◌}
use text.Mathlib.TextLemmas.{nil-append, cons-append, append_assoc}
use office_attendance_backen.Base.{
  ◌≡◌, ◌∙◌, ap, subst, refl, arith, String, some, List, [], ◌∷◌, All, map, inl, inr,
}
use office_attendance_backen.Reports.{
  MonthlyReportRow, csv_cell, csv_cells, csv_header, csv_row, csv_lines, build_report,
  export_report,
}
use office_attendance_backen.Model.{Db}
use office_attendance_backen.World.{World}
use office_attendance_backen.Session.{Result-cases, request, ok}
use office_attendance_backen.Reports.Reader.{
  Parsed, line, start, push, next_cell, next_row, read, rows_of, csv_read, push_all, read-csv_cell,
}

push_all-some :
    (s : String) (row : List String) (rows : List (List String))
    → push_all s (some ("", row, rows)) ≡ some (s, row, rows)
push_all-some String.[] row rows = refl
push_all-some (String.◌∷◌ c s) row rows = ap (push c) (push_all-some s row rows)

line_end : (t : String) → "\r\n" +++ t ≡ String.◌∷◌ "\r" (String.◌∷◌ "\n" t)
line_end t =
    cons-append "\r" "\n" t
    ∙ ap (λ y. String.◌∷◌ "\r" y)
        (cons-append "\n" "" t ∙ ap (λ y. String.◌∷◌ "\n" y) (nil-append t))

comma_before : (s t : String) → ("," +++ s) +++ t ≡ String.◌∷◌ "," (s +++ t)
comma_before s t =
    append_assoc "," s t
    ∙ cons-append "," "" (s +++ t)
    ∙ ap (λ y. String.◌∷◌ "," y) (nil-append (s +++ t))

read-csv_row :
    (s : String) (rest : List String) (t : String) (rows : List (List String))
    → read line t ≡ some ("", [], rows)
    → read start (csv_row (s ∷ rest) +++ t) ≡ some (s, rest, rows)
unfolding csv_row
read-csv_row s [] t rows h =
    ap (read start) (append_assoc (csv_cell s) "\r\n" t ∙ ap (λ y. csv_cell s +++ y) (line_end t))
    ∙ read-csv_cell s (String.◌∷◌ "\r" (String.◌∷◌ "\n" t)) (read line t) refl refl refl
    ∙ ap (push_all s) h
    ∙ push_all-some s [] rows
read-csv_row s (u ∷ rest) t rows h =
    let below = csv_row (u ∷ rest) in
    ap (read start) (
      append_assoc (csv_cell s) ("," +++ below) t
      ∙ ap (λ y. csv_cell s +++ y) (comma_before below t))
    ∙ read-csv_cell s (String.◌∷◌ "," (below +++ t)) (next_cell (read start (below +++ t))) refl
        refl refl
    ∙ ap (λ y. push_all s (next_cell y)) (read-csv_row u rest t rows h)
    ∙ push_all-some s (u ∷ rest) rows

read-line :
    (x : String) (parsed : Parsed)
    → read start x ≡ some parsed
    → read line x ≡ next_row (some parsed)
read-line String.[] parsed h = cc
read-line (String.◌∷◌ c s) parsed h = ap next_row h

-- Rows that have a cell.
abbrev pub IsFilled : List String → Type 0
IsFilled [] = ⊥
IsFilled (s ∷ rest) = Unit

read-csv_lines :
    (rows : List (List String))
    → All IsFilled rows
    → read line (csv_lines rows) ≡ some ("", [], rows)
unfolding csv_lines
read-csv_lines [] all = refl
read-csv_lines ([] ∷ rows) all = absurd all.0
read-csv_lines ((s ∷ rest) ∷ rows) all =
    read-line (csv_row (s ∷ rest) +++ csv_lines rows) (s, rest, rows)
      (read-csv_row s rest (csv_lines rows) rows (read-csv_lines rows all.1))

csv_read-csv_lines :
    (rows : List (List String)) → All IsFilled rows → csv_read (csv_lines rows) ≡ some rows
csv_read-csv_lines rows all = ap rows_of (read-csv_lines rows all)

csv_cells-IsFilled : (rows : List MonthlyReportRow) → All IsFilled (map csv_cells rows)
csv_cells-IsFilled [] = tt
csv_cells-IsFilled (r ∷ rows) = (tt, csv_cells-IsFilled rows)

-- An export that succeeds is of a month that has a report, and a reader of the format gets back the
-- header and the cells of each line of that report, whatever commas, quotes and line ends are in
-- the names.
pub export_report_read :
    (w : World) (month : String) (db : Db) (text name : String)
    → (request (export_report w month) db).0 ≡ ok (text, name)
    → (rows : List MonthlyReportRow) × ((request (build_report w month) db).0 ≡ ok rows)
      × (csv_read text ≡ some (csv_header ∷ map csv_cells rows))
unfolding export_report
export_report_read w month db text name h =
    elim (Result-cases (request (build_report w month) db).0) [
      | inr (x, e) ↦ ground arith
      | inl (rows, e) ↦
          let lines = csv_header ∷ map csv_cells rows in
          let same : csv_lines lines ≡ text = ground arith in
          (
            rows,
            e,
            subst (λ t. csv_read t ≡ some lines) same
                (csv_read-csv_lines lines (tt, csv_cells-IsFilled rows)),
          )
    ]
