-- ===== src/Store/Complete.antt =====
-- Every stored report has exactly its records.
use dmarcparser.Base.{
  ◌==◌, Bool-cases, All, All-append, Result, ℕ, ◌<◌, ◌≡◌, refl, ap, ◌∙◌, inl, inr, Bool, true,
  false, List, [], ◌∷◌, ◌++◌, arith,
}
use dmarcparser.Report.{Record, Report}
use dmarcparser.Store.Atomic.{Saved, save_failed, save_found, save_stored, save_report-Saved}
use dmarcparser.Store.Reports.{
  ReportRow, RecordRow, Tables, SaveResult, StoreError, Stmt, rows_of, save_report, records_of,
}
use mathlib.Core.List.{append-nil}
use dmarcparser.Store.Unique.{IsSound, has_serial}

-- The table of records holds the records of these reports, in their order.
abbrev pub HasRecords : List RecordRow → List ReportRow → Type 0
HasRecords recs = All (λ row. records_of row.serial recs ≡ row.report.records)

records_of-append :
    (n : ℕ) (xs ys : List RecordRow) → records_of n (xs ++ ys) ≡ records_of n xs ++ records_of n ys
unfolding records_of
records_of-append n [] ys = refl
records_of-append n (x ∷ xs) ys = elim (Bool-cases (x.serial == n)) [
  | inl h ↦ rw h (ap (◌∷◌ x.entry) (records_of-append n xs ys))
  | inr h ↦ rw h (records_of-append n xs ys)
]

records_of-rows_of : (n : ℕ) (recs : List Record) → records_of n (rows_of n recs) ≡ recs
unfolding records_of
records_of-rows_of n [] = refl
records_of-rows_of n (rec ∷ recs) =
    let same : (n == n) ≡ true = ground arith in rw same (ap (◌∷◌ rec) (records_of-rows_of n recs))

records_of-other : (m n : ℕ) (recs : List Record) → m < n → records_of m (rows_of n recs) ≡ []
unfolding records_of
records_of-other m n [] h = refl
records_of-other m n (rec ∷ recs) h =
    let apart : (n == m) ≡ false = ground arith in rw apart (records_of-other m n recs h)

-- a serial that some report has is below the sequence
has_serial-lt :
    (n m : ℕ) (rows : List ReportRow)
    → All (λ row. row.serial < m) rows
    → has_serial n rows ≡ true
    → n < m
has_serial-lt n m [] b h = absurd (cc)
has_serial-lt n m (row ∷ rows) (b, bs) h = ground (arith, has_serial-lt n m rows bs)

-- no record has a serial that the sequence has not given yet
records_of-fresh :
    (n : ℕ) (recs : List RecordRow) (rows : List ReportRow)
    → All (λ row. row.serial < n) rows
    → All (λ rec. has_serial rec.serial rows ≡ true) recs
    → records_of n recs ≡ []
unfolding records_of
records_of-fresh n [] rows b o = refl
records_of-fresh n (rec ∷ recs) rows b (o, os) =
    let below = has_serial-lt rec.serial n rows b o in
    let apart : (rec.serial == n) ≡ false = ground arith in
    rw apart (records_of-fresh n recs rows b os)

HasRecords-append :
    (n : ℕ) (recs : List RecordRow) (more : List Record) (rows : List ReportRow)
    → All (λ row. row.serial < n) rows
    → HasRecords recs rows
    → HasRecords (recs ++ rows_of n more) rows
HasRecords-append n recs more [] b h = tt
HasRecords-append n recs more (row ∷ rows) (b, bs) (h, hs) = (
  records_of-append row.serial recs (rows_of n more)
      ∙ rw (h, records_of-other row.serial n more b) (append-nil row.report.records),
  HasRecords-append n recs more rows bs hs,
)

Saved-HasRecords :
    (fails : Stmt → Bool) (now : ℕ) (store_raw : Bool) (r : Report) (t : Tables)
    {p : Result StoreError SaveResult × Tables}
    → Saved fails now store_raw r t p
    → IsSound t
    → HasRecords t.records t.reports
    → HasRecords p.1.records p.1.reports
Saved-HasRecords fails now store_raw r t (save_failed h) s c = c
Saved-HasRecords fails now store_raw r t (save_found h) s c = c
Saved-HasRecords fails now store_raw r t (save_stored h k) s c =
    All-append
      (λ row.
        records_of row.serial (t.records ++ rows_of t.next_serial r.records) ≡ row.report.records)
      t.reports _ (HasRecords-append t.next_serial t.records r.records t.reports s.reports_below c)
      (
        records_of-append t.next_serial t.records (rows_of t.next_serial r.records)
            ∙ rw (
              records_of-fresh t.next_serial t.records t.reports s.reports_below s.records_owned,
              records_of-rows_of t.next_serial r.records,
            ),
        tt,
      )

-- On sound tables every save, successful or not, keeps this: the records found under the serial of a
-- stored report are exactly the records of that report, in its order.
pub save_report-HasRecords :
    (fails : Stmt → Bool) (now : ℕ) (store_raw : Bool) (r : Report) (t : Tables)
    → IsSound t
    → HasRecords t.records t.reports
    → HasRecords
        (save_report fails now store_raw r t).1.records
        (save_report fails now store_raw r t).1.reports
save_report-HasRecords fails now store_raw r t s c =
    Saved-HasRecords fails now store_raw r t (save_report-Saved fails now store_raw r t) s c
