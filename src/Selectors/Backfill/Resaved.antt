-- ===== src/Selectors/Backfill/Resaved.antt =====
-- The backfill visits every report that has its document, once and in order.
use dmarcparser.Store.Reports.{ReportRow}
use dmarcparser.Selectors.Rewritten.{save_dkim_auth_total}
use dmarcparser.Report.{Report}
use dmarcparser.Report.Parse.{ParseError}
use dmarcparser.Selectors.{
  DkimAuthEntry, DkimRow, dkim_auth_entries, delete_serial, rows_for, save_dkim_auth, DkimStmt,
}
use dmarcparser.Selectors.Backfill.{
  RawRow, raw_xml_batch, BackfillEnd, backfill_complete, batch_failed, Progress, BackfillFaults,
  saved_row, parsed_row, take_row, take_batch, backfill_loop, resave_failed, raw_rows, started,
  backfill_selectors,
}
use dmarcparser.Selectors.Backfill.Keyset.{
  last_of, drop-shorter, Stands, Stands-newer, Stands-next, Rising, Stands-start,
}
use dmarcparser.Text.{Bytes}
use dmarcparser.Unicode.{Casing}
use mathlib.Core.Path.{subst}
use dmarcparser.Base.{
  Bool-cases, length, Result, ok, err, ℕ, zero, suc, ◌<◌, ◌≡◌, refl, ap, ◌∙◌, inl, inr, Bool, true,
  false, some, List, [], ◌∷◌, ◌++◌, arith, take, drop, ◌+◌, sym, is_empty,
}

-- `n` more rows are counted, and the table is `t`.
pub record Taken (n : ℕ) (t : List DkimRow) (s s' : Progress) : Type 0 where
  pub table : s'.dkim_rows ≡ t
  pub counted : s'.done_reports + s'.parse_errs ≡ s.done_reports + s.parse_errs + n

length-take-drop {ℓ} :
    {A : Type ℓ} (n : ℕ) (xs : List A) → length (take n xs) + length (drop n xs) ≡ length xs
length-take-drop zero xs = omega arith
length-take-drop (suc n) [] = refl
length-take-drop (suc n) (x ∷ xs) = omega (arith, length-take-drop n xs)

module _ (cs : Casing) (parse : Bytes → Result ParseError Report) where
  abbrev resaved_row : ℕ → Result ParseError Report → List DkimRow → List DkimRow
  resaved_row serial (err e) t = t
  resaved_row serial (ok rep) t =
      delete_serial serial t ++ rows_for serial (dkim_auth_entries cs rep)

  -- Each document that parses replaces the entries of its report.
  abbrev pub resaved : List RawRow → List DkimRow → List DkimRow
  resaved [] t = t
  resaved ((serial, xml) ∷ rows) t = resaved rows (resaved_row serial (parse xml) t)

  resaved-take-drop :
      (n : ℕ) (rows : List RawRow) (t : List DkimRow)
      → resaved (drop n rows) (resaved (take n rows) t) ≡ resaved rows t
  resaved-take-drop zero rows t = refl
  resaved-take-drop (suc n) [] t = refl
  resaved-take-drop (suc n) ((serial, xml) ∷ rows) t =
      resaved-take-drop n rows (resaved_row serial (parse xml) t)

  Taken-empty :
      (rows : List RawRow) (s : Progress)
      → is_empty rows ≡ true
      → Taken (length rows) (resaved rows s.dkim_rows) s s
  Taken-empty [] s h = record { table = refl; counted = omega arith }
  Taken-empty (row ∷ rows) s h = absurd (cc h)

  module _ (fa : BackfillFaults) where
    saved_row-after :
        (serial : ℕ) (es : List DkimAuthEntry) (s : Progress) (p : Bool × List DkimRow)
        → (saved_row cs parse fa serial es s p).1.after ≡ serial
    saved_row-after serial es s (true, rows) = refl
    saved_row-after serial es s (false, rows) = refl

    parsed_row-after :
        (serial : ℕ) (s : Progress) (p : Result ParseError Report)
        → (parsed_row cs parse fa serial s p).1.after ≡ serial
    parsed_row-after serial s (err e) = refl
    parsed_row-after serial s (ok rep) =
        saved_row-after serial (dkim_auth_entries cs rep) s
          (save_dkim_auth (fa.stmt_fails serial) serial (dkim_auth_entries cs rep) s.dkim_rows)

    -- a batch that is taken to its end ends at its last row
    take_batch-after :
        (rows : List RawRow) (s : Progress)
        → (take_batch cs parse fa rows s).0 ≡ true
        → (take_batch cs parse fa rows s).1.after ≡ last_of s.after rows
    unfolding take_batch take_row
    take_batch-after [] s h = refl
    take_batch-after ((serial, xml) ∷ rows) s h =
        let r = parsed_row cs parse fa serial s (parse xml) in
        elim (Bool-cases r.0) [
          | inl e ↦
              let rest = take_batch-after rows r.1 (rw e at h) in
              rw e (rest ∙ ap (λ b. last_of b rows) (parsed_row-after serial s (parse xml)))
          | inr e ↦ absurd (cc (rw e at h))
        ]

    -- Whatever fails, the loop ends within its fuel.
    backfill_loop-ends :
        (fuel : ℕ) (rows todo : List RawRow) (s : Progress)
        → Stands rows s.after todo
        → length todo < fuel
        → (e : BackfillEnd) × ((backfill_loop cs parse fa fuel rows s).0 ≡ some e)
    unfolding backfill_loop raw_xml_batch
    backfill_loop-ends zero rows todo s st h = absurd (omega arith)
    backfill_loop-ends (suc fuel) rows todo s st h = elim (Bool-cases (fa.batch_fails s.after)) [
      | inl a ↦ (batch_failed, rw a refl)
      | inr a ↦
          let same = Stands-newer rows s.after todo st in
          let (empty_same, progress) = drop-shorter 500 todo (omega arith) in
          let r = take_batch cs parse fa (take 500 todo) s in
          elim progress [
            | inl b ↦ (backfill_complete, rw (a, same, empty_same, b) refl)
            | inr (b, shorter) ↦ elim (Bool-cases r.0) [
              | inr c ↦ (resave_failed, rw (a, same, empty_same, b, c) refl)
              | inl c ↦
                  let at = take_batch-after (take 500 todo) s c in
                  let next : Stands rows r.1.after (drop 500 todo) =
                    subst (λ k. Stands rows k (drop 500 todo)) (sym at)
                      (Stands-next 500 rows s.after todo st) in
                  let (e, ends) =
                    backfill_loop-ends fuel rows (drop 500 todo) r.1 next (omega arith) in
                  (e, rw (a, same, empty_same, b, c) ends)
            ]
          ]
    ]

    module _ (stmts : (serial : ℕ) (st : DkimStmt) → fa.stmt_fails serial st ≡ false) where
      parsed_row-Taken :
          (serial : ℕ) (s : Progress) (p : Result ParseError Report)
          → let r = parsed_row cs parse fa serial s p in
            (r.0 ≡ true) × Taken 1 (resaved_row serial p s.dkim_rows) s r.1
      parsed_row-Taken serial s (err e) = (refl, record { table = refl; counted = omega arith })
      parsed_row-Taken serial s (ok rep) =
          let all =
            save_dkim_auth_total (fa.stmt_fails serial) serial (dkim_auth_entries cs rep)
              s.dkim_rows (stmts serial) in
          rw all (refl, record { table = refl; counted = omega arith })

      take_batch-Taken :
          (rows : List RawRow) (s : Progress)
          → let r = take_batch cs parse fa rows s in
            (r.0 ≡ true) × Taken (length rows) (resaved rows s.dkim_rows) s r.1
      unfolding take_batch take_row
      take_batch-Taken [] s = (refl, record { table = refl; counted = omega arith })
      take_batch-Taken ((serial, xml) ∷ rows) s =
          let r = parsed_row cs parse fa serial s (parse xml) in
          let (going, one) = parsed_row-Taken serial s (parse xml) in
          let (rest_going, rest) = take_batch-Taken rows r.1 in
          rw going (
            rest_going,
            record {
              table = rest.table ∙ ap (resaved rows) one.table;
              counted = omega (arith, rest.counted, one.counted);
            },
          )

      -- With nothing failing, every report with a document is taken, whatever the batches.
      backfill_loop-Taken :
          (fuel : ℕ) (rows todo : List RawRow) (s : Progress)
          → ((k : ℕ) → fa.batch_fails k ≡ false)
          → Stands rows s.after todo
          → length todo < fuel
          → let r = backfill_loop cs parse fa fuel rows s in
            (r.0 ≡ some backfill_complete) × Taken (length todo) (resaved todo s.dkim_rows) s r.1
      unfolding backfill_loop raw_xml_batch
      backfill_loop-Taken zero rows todo s fine st h = absurd (omega arith)
      backfill_loop-Taken (suc fuel) rows todo s fine st h =
          let same = Stands-newer rows s.after todo st in
          let (empty_same, progress) = drop-shorter 500 todo (omega arith) in
          let r = take_batch cs parse fa (take 500 todo) s in
          let (going, one) = take_batch-Taken (take 500 todo) s in
          elim progress [
            | inl b ↦ rw (fine s.after, same, empty_same, b) (refl, Taken-empty todo s b)
            | inr (b, shorter) ↦
                let at = take_batch-after (take 500 todo) s going in
                let next : Stands rows r.1.after (drop 500 todo) =
                  subst (λ k. Stands rows k (drop 500 todo)) (sym at)
                    (Stands-next 500 rows s.after todo st) in
                let (ends, rest) =
                  backfill_loop-Taken fuel rows (drop 500 todo) r.1 fine next (omega arith) in
                rw (fine s.after, same, empty_same, b, going)
                  (
                    ends,
                    record {
                      table =
                          rest.table
                          ∙ ap (resaved (drop 500 todo)) one.table
                          ∙ resaved-take-drop 500 todo s.dkim_rows;
                      counted = omega (arith, rest.counted, one.counted, length-take-drop 500 todo);
                    },
                  )
          ]

-- The backfill always ends, whatever fails, with the serials of the stored reports rising: the
-- rounds its batches take are bounded by the number of documents.
pub backfill_selectors-ends :
    (cs : Casing) (parse : Bytes → Result ParseError Report) (fa : BackfillFaults)
    (rows : List ReportRow) (t : List DkimRow)
    → Rising 0 (raw_rows rows)
    → (e : BackfillEnd) × ((backfill_selectors cs parse fa rows t).0 ≡ some e)
unfolding backfill_selectors
backfill_selectors-ends cs parse fa rows t rising =
    backfill_loop-ends cs parse fa _ (raw_rows rows) (raw_rows rows) (started cs parse fa t)
      (Stands-start (raw_rows rows) rising) (omega arith)

-- With nothing failing and rising serials, the backfill completes, whatever its batches are: the
-- table is that of resaving each report with a document once and in order, and the reports done
-- and the documents that no longer parse are together the documents.
pub backfill_selectors-resaved :
    (cs : Casing) (parse : Bytes → Result ParseError Report) (fa : BackfillFaults)
    (rows : List ReportRow) (t : List DkimRow)
    → ((k : ℕ) → fa.batch_fails k ≡ false)
    → ((serial : ℕ) (st : DkimStmt) → fa.stmt_fails serial st ≡ false)
    → Rising 0 (raw_rows rows)
    → let (end, s) = backfill_selectors cs parse fa rows t in
      (end ≡ some backfill_complete)
      × ((s.dkim_rows ≡ resaved cs parse (raw_rows rows) t)
          × (s.done_reports + s.parse_errs ≡ length (raw_rows rows)))
unfolding backfill_selectors
backfill_selectors-resaved cs parse fa rows t batches stmts rising =
    let (ends, all) =
      backfill_loop-Taken cs parse fa stmts _ (raw_rows rows) (raw_rows rows)
        (started cs parse fa t) batches (Stands-start (raw_rows rows) rising) (omega arith) in
    (ends, (all.table, omega (arith, all.counted)))
