-- ===== src/Store/Unique.antt =====
-- A report is stored at most once, whatever is saved and whatever fails.
use dmarcparser.Base.{
  ◌==◌, if◌then◌else◌, Bool-cases, All, any, All-append, Result, ok, ℕ, ◌+◌, ◌≤◌, ◌<◌, ◌≡◌, refl,
  ◌∙◌, inl, inr, Bool, true, false, none, some, List, [], ◌∷◌, ◌++◌, arith,
}
use dmarcparser.Base.Int.{pos}
use dmarcparser.Report.{Record, Report}
use dmarcparser.Store.Atomic.{Saved, save_report-Saved, save_failed, save_found, save_stored}
use dmarcparser.Store.Reports.{
  ReportRow, RecordRow, Tables, SaveResult, StoreError, Stmt, begin_tx, insert_report,
  lookup_duplicate, same_key, find_report, rows_of, raw_of, advance, save_duplicate, save_at,
  save_report,
}
use dmarcparser.Text.{Bytes, beq, beq_iff, beq_refl}

beq_sym : (a b : Bytes) → beq a b ≡ beq b a
beq_sym a b = ground (arith, beq_iff a b, beq_iff b a)

same_key_sym : (a b : Report) → same_key a b ≡ same_key b a
same_key_sym a b = rw (beq_sym a.domain b.domain, beq_sym a.report_id b.report_id)

same_key_refl : (a : Report) → same_key a a ≡ true
same_key_refl a = rw (beq_refl a.domain, beq_refl a.report_id)

find_report-append :
    (r : Report) (xs : List ReportRow) (row : ReportRow)
    → find_report r xs ≡ none
    → find_report r (xs ++ row ∷ []) ≡ (if same_key row.report r then some row else none)
unfolding find_report
find_report-append r [] row h = refl
find_report-append r (x ∷ xs) row h = elim (Bool-cases (same_key x.report r)) [
  | inl same ↦ absurd (cc (rw same at h))
  | inr other ↦ rw other (find_report-append r xs row (rw other at h))
]

-- `SaveReport` on tables where the report is known, with no statement failing
save_report-found :
    (fails : Stmt → Bool) (now : ℕ) (store_raw : Bool) (r : Report) (t : Tables) (row : ReportRow)
    → fails begin_tx ≡ false
    → fails insert_report ≡ false
    → fails lookup_duplicate ≡ false
    → find_report r t.reports ≡ some row
    → save_report fails now store_raw r t ≡ (
      ok (record { serial = row.serial; duplicate = true; records = 0; messages = pos 0 }),
      advance t,
    )
unfolding save_report save_at save_duplicate
save_report-found fails now store_raw r t row b i l e = rw (b, i, e, l)

-- the row that a successful save leaves behind for its report
Saved-find :
    (fails : Stmt → Bool) (now : ℕ) (store_raw : Bool) (r : Report) (t : Tables)
    {p : Result StoreError SaveResult × Tables} {res : SaveResult}
    → Saved fails now store_raw r t p
    → p.0 ≡ ok res
    → (row : ReportRow) × (find_report r p.1.reports ≡ some row) × (row.serial ≡ res.serial)
Saved-find fails now store_raw r t (save_failed h) e = absurd (cc)
Saved-find fails now store_raw r t (save_found {row} h) e = (row, h, cc)
Saved-find fails now store_raw r t (save_stored h k) e = (
  record { serial = t.next_serial; report = r; raw = raw_of store_raw r; seen = now },
  find_report-append r t.reports _ h ∙ rw (same_key_refl r),
  cc,
)

-- Saving a report again, after a save that succeeded and with no statement failing, stores nothing:
-- it returns the serial of the first save, marked as a duplicate, and moves on only the sequence.
pub save_report_again :
    (fails fails' : Stmt → Bool) (now now' : ℕ) (store_raw : Bool) (r : Report) (t : Tables)
    {res : SaveResult}
    → (save_report fails now store_raw r t).0 ≡ ok res
    → fails' begin_tx ≡ false
    → fails' insert_report ≡ false
    → fails' lookup_duplicate ≡ false
    → save_report fails' now' store_raw r (save_report fails now store_raw r t).1 ≡ (
      ok (record { serial = res.serial; duplicate = true; records = 0; messages = pos 0 }),
      advance (save_report fails now store_raw r t).1,
    )
save_report_again fails fails' now now' store_raw r t {res} e b i l =
    let (row, known, serial) =
      Saved-find fails now store_raw r t (save_report-Saved fails now store_raw r t) e in
    save_report-found fails' now' store_raw r _ row b i l known ∙ rw serial

-- No later row has the key of an earlier one, and serials increase.
abbrev pub Ordered : List ReportRow → Type 0
Ordered [] = Unit
Ordered (x ∷ xs) =
    All (λ y. same_key y.report x.report ≡ false) xs
    × All (λ y. x.serial < y.serial) xs
    × Ordered xs

abbrev pub has_serial : ℕ → List ReportRow → Bool
has_serial n = any (λ row. row.serial == n)

pub record IsSound (t : Tables) : Type 0 where
  pub ordered : Ordered t.reports
  pub reports_below : All (λ row. row.serial < t.next_serial) t.reports
  pub records_owned : All (λ rec. has_serial rec.serial t.reports ≡ true) t.records

All-below :
    (xs : List ReportRow) (m n : ℕ)
    → m ≤ n
    → All (λ row. row.serial < m) xs
    → All (λ row. row.serial < n) xs
All-below [] m n h a = tt
All-below (x ∷ xs) m n h (b, a) = (omega arith, All-below xs m n h a)

Ordered-append :
    (xs : List ReportRow) (row : ReportRow)
    → Ordered xs
    → All (λ x. x.serial < row.serial) xs
    → find_report row.report xs ≡ none
    → Ordered (xs ++ row ∷ [])
unfolding find_report
Ordered-append [] row o b f = (tt, tt, tt)
Ordered-append (x ∷ xs) row (apart, above, o) (bx, b) f =
    elim (Bool-cases (same_key x.report row.report)) [
      | inl same ↦ absurd (cc (rw same at f))
      | inr other ↦ (
        All-append (λ y. same_key y.report x.report ≡ false) xs (row ∷ []) apart
            (same_key_sym row.report x.report ∙ other, tt),
        All-append (λ y. x.serial < y.serial) xs (row ∷ []) above (bx, tt),
        Ordered-append xs row o b (rw other at f),
      )
    ]

has_serial-append :
    (n : ℕ) (xs : List ReportRow) (row : ReportRow)
    → has_serial n xs ≡ true
    → has_serial n (xs ++ row ∷ []) ≡ true
has_serial-append n [] row h = absurd (cc)
has_serial-append n (x ∷ xs) row h = ground (arith, has_serial-append n xs row)

has_serial_last :
    (n : ℕ) (xs : List ReportRow) (row : ReportRow)
    → row.serial ≡ n
    → has_serial n (xs ++ row ∷ []) ≡ true
has_serial_last n [] row h = ground arith
has_serial_last n (x ∷ xs) row h = ground (arith, has_serial_last n xs row h)

owned-append :
    (recs : List RecordRow) (xs : List ReportRow) (row : ReportRow)
    → All (λ rec. has_serial rec.serial xs ≡ true) recs
    → All (λ rec. has_serial rec.serial (xs ++ row ∷ []) ≡ true) recs
owned-append [] xs row h = tt
owned-append (rec ∷ recs) xs row (o, h) =
    (has_serial-append rec.serial xs row o, owned-append recs xs row h)

rows_of-owned :
    (recs : List Record) (n : ℕ) (xs : List ReportRow)
    → has_serial n xs ≡ true
    → All (λ rec. has_serial rec.serial xs ≡ true) (rows_of n recs)
rows_of-owned [] n xs h = tt
rows_of-owned (rec ∷ recs) n xs h = (h, rows_of-owned recs n xs h)

Saved-IsSound :
    (fails : Stmt → Bool) (now : ℕ) (store_raw : Bool) (r : Report) (t : Tables)
    {p : Result StoreError SaveResult × Tables}
    → Saved fails now store_raw r t p
    → IsSound t
    → IsSound p.1
Saved-IsSound fails now store_raw r t (save_failed {n = n} h) s = record {
  ordered = s.ordered;
  reports_below = All-below t.reports t.next_serial n h s.reports_below;
  records_owned = s.records_owned;
}
Saved-IsSound fails now store_raw r t (save_found h) s = record {
  ordered = s.ordered;
  reports_below =
      All-below t.reports t.next_serial (t.next_serial + 1) (omega arith) s.reports_below;
  records_owned = s.records_owned;
}
Saved-IsSound fails now store_raw r t (save_stored h k) s =
    let row : ReportRow = record {
      serial = t.next_serial;
      report = r;
      raw = raw_of store_raw r;
      seen = now;
    } in
    record {
      ordered = Ordered-append t.reports row s.ordered s.reports_below h;
      reports_below =
          All-append (λ x. x.serial < t.next_serial + 1) t.reports (row ∷ [])
            (All-below t.reports t.next_serial (t.next_serial + 1) (omega arith) s.reports_below)
            (omega arith, tt);
      records_owned =
          All-append (λ rec. has_serial rec.serial (t.reports ++ row ∷ []) ≡ true) t.records
            (rows_of t.next_serial r.records) (owned-append t.records t.reports row s.records_owned)
            (rows_of-owned r.records t.next_serial (t.reports ++ row ∷ [])
              (has_serial_last t.next_serial t.reports row refl));
    }

-- Every save, successful or not, keeps the tables sound: no two reports share a domain and a report
-- id, serials increase and are below the sequence, and every record belongs to a stored report.
pub save_report-IsSound :
    (fails : Stmt → Bool) (now : ℕ) (store_raw : Bool) (r : Report) (t : Tables)
    → IsSound t
    → IsSound (save_report fails now store_raw r t).1
save_report-IsSound fails now store_raw r t s =
    Saved-IsSound fails now store_raw r t (save_report-Saved fails now store_raw r t) s
