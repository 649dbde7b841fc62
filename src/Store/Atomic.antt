-- ===== src/Store/Atomic.antt =====
-- `SaveReport` writes all of a report or nothing, and a report once.
use dmarcparser.Base.{
  Bool-cases, Result, ok, err, ℕ, ◌≤◌, ◌≡◌, refl, ◌⊎◌, inl, inr, Bool, true, false, Option, none,
  some, arith,
}
use dmarcparser.Base.Int.{ℤ, pos}
use dmarcparser.Report.{Report}
use dmarcparser.Store.Reports.{
  ReportRow, Tables, SaveResult, StoreError, lookup_failed, insert_record_failed, commit_failed,
  Stmt, begin_tx, insert_report, lookup_duplicate, commit_tx, find_report, insert_records, advance,
  committed, save_duplicate, save_new, save_at, save_report,
}

module _ (fails : Stmt → Bool) (now : ℕ) (store_raw : Bool) (r : Report) where
  save_new-cases :
      (o : Option (ℕ × ℤ)) (t : Tables)
      → ((e : StoreError) × (save_new fails now store_raw r o t ≡ (err e, advance t)))
        ⊎ ((n : ℕ) × (m : ℤ) × (o ≡ some (n, m))
            × (save_new fails now store_raw r o t ≡ (
              ok (record { serial = t.next_serial; duplicate = false; records = n; messages = m }),
              committed now store_raw r t,
            )))
  unfolding save_new
  save_new-cases none t = inl (insert_record_failed, refl)
  save_new-cases (some (n, m)) t = elim (Bool-cases (fails commit_tx)) [
    | inl bad ↦ inl (commit_failed, rw bad)
    | inr good ↦ inr (n, m, refl, rw good)
  ]

  save_duplicate-cases :
      (row : ReportRow) (t : Tables)
      → ((e : StoreError) × (save_duplicate fails now store_raw r row t ≡ (err e, advance t)))
        ⊎ (save_duplicate fails now store_raw r row t ≡ (
          ok (record { serial = row.serial; duplicate = true; records = 0; messages = pos 0 }),
          advance t,
        ))
  unfolding save_duplicate
  save_duplicate-cases row t = elim (Bool-cases (fails lookup_duplicate)) [
    | inl bad ↦ inl (lookup_failed, rw bad)
    | inr good ↦ inr (rw good)
  ]

  -- How a call of `SaveReport` can end.
  pub data Saved (t : Tables) : Result StoreError SaveResult × Tables → Type 0 where
    save_failed :
        {e : StoreError} {n : ℕ} → t.next_serial ≤ n → Saved t (err e, record t { next_serial = n })
    save_found :
        {row : ReportRow}
        → find_report r t.reports ≡ some row
        → Saved t (
          ok (record { serial = row.serial; duplicate = true; records = 0; messages = pos 0 }),
          advance t,
        )
    save_stored :
        {n : ℕ} {m : ℤ}
        → find_report r t.reports ≡ none
        → insert_records fails 0 (pos 0) r.records ≡ some (n, m)
        → Saved t (
          ok (record { serial = t.next_serial; duplicate = false; records = n; messages = m }),
          committed now store_raw r t,
        )

  save_at-Saved :
      (t : Tables) (o : Option ReportRow)
      → find_report r t.reports ≡ o
      → Saved t (save_at fails now store_raw r o t)
  unfolding save_at
  save_at-Saved t none e = elim (save_new-cases (insert_records fails 0 (pos 0) r.records) t) [
    | inl (x, bad) ↦ rw bad (save_failed (omega arith))
    | inr (n, m, all, good) ↦ rw good (save_stored e all)
  ]
  save_at-Saved t (some row) e = elim (save_duplicate-cases row t) [
    | inl (x, bad) ↦ rw bad (save_failed (omega arith))
    | inr good ↦ rw good (save_found e)
  ]

  pub save_report-Saved : (t : Tables) → Saved t (save_report fails now store_raw r t)
  unfolding save_report
  save_report-Saved t = elim (Bool-cases (fails begin_tx)) [
    | inl bad ↦ rw bad (save_failed (omega arith))
    | inr begun ↦ elim (Bool-cases (fails insert_report)) [
      | inl bad ↦ rw (begun, bad) (save_failed (omega arith))
      | inr inserted ↦ rw (begun, inserted) (save_at-Saved t (find_report r t.reports) refl)
    ]
  ]

  Saved-err :
      (t : Tables) {p : Result StoreError SaveResult × Tables} {e : StoreError}
      → Saved t p
      → p.0 ≡ err e
      → (p.1.reports ≡ t.reports) × (p.1.records ≡ t.records) × (p.1.last_insert ≡ t.last_insert)
  Saved-err t (save_failed h) e = (refl, refl, refl)
  Saved-err t (save_found h) e = absurd (cc)
  Saved-err t (save_stored h k) e = absurd (cc)

  -- When `SaveReport` returns an error, whichever statement failed, both tables and the time of the
  -- last insert are as they were.
  pub save_report_atomic :
      (t : Tables) {e : StoreError}
      → (save_report fails now store_raw r t).0 ≡ err e
      → ((save_report fails now store_raw r t).1.reports ≡ t.reports)
        × ((save_report fails now store_raw r t).1.records ≡ t.records)
        × ((save_report fails now store_raw r t).1.last_insert ≡ t.last_insert)
  save_report_atomic t e = Saved-err t (save_report-Saved t) e
