-- ===== src/Export/Complete.antt =====
-- The export lists every record that is stored.
use dmarcparser.Base.{
  if◌then◌else◌, Bool-cases, Result, ok, err, ℕ, ◌≡◌, refl, sym, ap, ◌∙◌, inl, inr, Bool, List, [],
  ◌∷◌, ◌++◌, map,
}
use dmarcparser.Forensic.{before}
use dmarcparser.Report.{Report}
use dmarcparser.Store.Atomic.{Saved, save_failed, save_found, save_stored, save_report-Saved}
use dmarcparser.Store.Complete.{HasRecords, save_report-HasRecords}
use dmarcparser.Store.Reports.{
  ReportRow, RecordRow, Tables, SaveResult, StoreError, Stmt, raw_of, save_report,
}
use dmarcparser.Store.Unique.{IsSound}
use dmarcparser.Export.{HostOf, Filter, ExportRow, export_row, export_rows, wanted}
use mathlib.Core.List.{append-nil, append_assoc}

module _ (host : HostOf) (f : Filter) where
  -- what a report adds to the export
  abbrev pub rows_of_report : ReportRow → List ExportRow
  rows_of_report row = if wanted f row then map (export_row host row) row.report.records else []

  -- The rows of each report that the filter lets through, straight from the reports.
  abbrev pub expected : List ReportRow → List ExportRow
  expected [] = []
  expected (row ∷ rows) = rows_of_report row ++ expected rows

  export_rows-expected :
      (recs : List RecordRow) (rows : List ReportRow)
      → HasRecords recs rows
      → export_rows host f recs rows ≡ expected rows
  unfolding export_rows
  export_rows-expected recs [] h = refl
  export_rows-expected recs (row ∷ rows) (here, h) = elim (Bool-cases (wanted f row)) [
    | inl w ↦
        rw (w, here)
          (ap (◌++◌ (map (export_row host row) row.report.records))
            (export_rows-expected recs rows h))
    | inr w ↦ rw w (export_rows-expected recs rows h)
  ]

  expected-append : (xs ys : List ReportRow) → expected (xs ++ ys) ≡ expected xs ++ expected ys
  expected-append [] ys = refl
  expected-append (x ∷ xs) ys =
      ap (◌++◌ (rows_of_report x)) (expected-append xs ys)
      ∙ sym (append_assoc (rows_of_report x) (expected xs) (expected ys))

-- what `SaveReport` adds
abbrev pub exported_by :
    HostOf → Filter → ℕ → Bool → Report → Tables → Result StoreError SaveResult → List ExportRow
exported_by host f now store_raw r t (err e) = []
exported_by host f now store_raw r t (ok res) =
    if res.duplicate
    then []
    else rows_of_report host f
        (record { serial = t.next_serial; report = r; raw = raw_of store_raw r; seen = now })

Saved-export_rows :
    (host : HostOf) (f : Filter) (fails : Stmt → Bool) (now : ℕ) (store_raw : Bool) (r : Report)
    (t : Tables) {p : Result StoreError SaveResult × Tables}
    → Saved fails now store_raw r t p
    → HasRecords t.records t.reports
    → HasRecords p.1.records p.1.reports
    → export_rows host f p.1.records p.1.reports
      ≡ export_rows host f t.records t.reports ++ exported_by host f now store_raw r t p.0
Saved-export_rows host f fails now store_raw r t (save_failed h) before after = sym (append-nil _)
Saved-export_rows host f fails now store_raw r t (save_found h) before after = sym (append-nil _)
Saved-export_rows host f fails now store_raw r t (save_stored h k) before after =
    export_rows-expected host f _ _ after
    ∙ expected-append host f t.reports _
    ∙ rw (export_rows-expected host f _ _ before)
        (ap (◌++◌ (expected host f t.reports)) (append-nil _))

-- Saving a report adds its rows to the export, behind those that were there, if it is stored and the
-- filter lets it through: one row for each of its records, in their order. A duplicate or a failed
-- save leaves the export as it was.
pub save_report-export_rows :
    (host : HostOf) (f : Filter) (fails : Stmt → Bool) (now : ℕ) (store_raw : Bool) (r : Report)
    (t : Tables)
    → IsSound t
    → HasRecords t.records t.reports
    → let p = save_report fails now store_raw r t in
      export_rows host f p.1.records p.1.reports
      ≡ export_rows host f t.records t.reports ++ exported_by host f now store_raw r t p.0
save_report-export_rows host f fails now store_raw r t sound has =
    Saved-export_rows host f fails now store_raw r t (save_report-Saved fails now store_raw r t) has
      (save_report-HasRecords fails now store_raw r t sound has)
