-- ===== src/Rollup/Rebuilt.antt =====
-- Feeding reports one by one and rebuilding the table give the same rows.
use dmarcparser.Store.Complete.{HasRecords}
use dmarcparser.Base.{
  Bool-cases, length, All, ℕ, ◌+◌, ◌^◌, ◌≤◌, ◌<◌, ◌≡◌, refl, sym, ◌∙◌, inl, inr, false, some, List,
  [], ◌∷◌, arith, ap, Bool, true,
}
use dmarcparser.Base.Int.{ℤ, pos}
use dmarcparser.Report.{Report}
use dmarcparser.Rollup.{
  Column, DayKey, AggRow, day_key, same_day_key, tally_column, sum_column, new_bucket, upsert,
  add_group, group_reports, all_fit, BackfillStmt, backfill_begin, backfill_clear, backfill_insert,
  backfill_commit, backfill,
}
use dmarcparser.Rollup.Bounded.{
  Counts, total, tally_column-sum_column, IsSmall, IsSmall-fits, add_bucket-IsSmall, IsSmall-weaken,
}
use dmarcparser.Store.Reports.{ReportRow, RecordRow, Tables}
use mathlib.Core.Path.{fun_ext, subst}
use dmarcparser.Rollup.{on_ingest}

abbrev pub AllSmall : ℕ → ℕ → List AggRow → Type 0
AllSmall n q = All (λ row. IsSmall n q row.1)

abbrev pub Small : ℕ → (Column → ℤ) → Type 0
Small x m = (c : Column) → (k : ℕ) × (m c ≡ pos k) × (k ≤ x)

new_bucket-IsSmall :
    (n x q : ℕ) (m : Column → ℤ) → Small x m → IsSmall (n + x) (q + 1) (new_bucket m)
new_bucket-IsSmall n x q m small = record {
  small_msgs = λ c. let (k, e, l) = small c in (k, e, omega arith);
  small_reports = omega arith;
}

AllSmall-weaken :
    (n x q : ℕ) (rows : List AggRow) → AllSmall n q rows → AllSmall (n + x) (q + 1) rows
AllSmall-weaken n x q [] a = tt
AllSmall-weaken n x q (row ∷ rows) (s, a) =
    (IsSmall-weaken n x q row.1 s, AllSmall-weaken n x q rows a)

-- Within the bounds an upsert does not fail, and it does what grouping does.
upsert-add_group :
    (n x q : ℕ) (k : DayKey) (m : Column → ℤ) (rows : List AggRow)
    → n + x < 2 ^ 63
    → q + 1 < 2 ^ 31
    → Small x m
    → AllSmall n q rows
    → (upsert k m rows ≡ some (add_group k m rows)) × AllSmall (n + x) (q + 1) (add_group k m rows)
unfolding upsert add_group
upsert-add_group n x q k m [] h g small a =
    let s = new_bucket-IsSmall n x q m small in (rw (IsSmall-fits (n + x) (q + 1) _ h g s), (s, tt))
upsert-add_group n x q k m ((k', b) ∷ rows) h g small (sb, a) =
    elim (Bool-cases (same_day_key k' k)) [
      | inl same ↦
          let s = add_bucket-IsSmall n x q b m sb small in
          (
            rw (same, IsSmall-fits (n + x) (q + 1) _ h g s),
            rw same (s, AllSmall-weaken n x q rows a),
          )
      | inr other ↦
          let (e, rest) = upsert-add_group n x q k m rows h g small a in
          (rw (other, e), rw other (IsSmall-weaken n x q b sb, rest))
    ]

-- `OnIngest` with a statement that does not fail
on_ingest-add_group :
    (n q : ℕ) (r : Report) (rows : List AggRow)
    → n + total r.records < 2 ^ 63
    → q + 1 < 2 ^ 31
    → Counts r.records
    → AllSmall n q rows
    → (on_ingest false r rows ≡ add_group (day_key r) (λ c. sum_column c (pos 0) r.records) rows)
      × AllSmall (n + total r.records) (q + 1) (on_ingest false r rows)
unfolding on_ingest
on_ingest-add_group n q r rows h g counts a =
    let exact : (c : Column)
        → (k : ℕ) × (tally_column c (pos 0) r.records ≡ pos k)
          × (sum_column c (pos 0) r.records ≡ pos k)
          × (k ≤ 0 + total r.records) =
      λ c. tally_column-sum_column c 0 r.records counts (omega arith) in
    let same : (λ (c : Column). tally_column c (pos 0) r.records)
        ≡ (λ c. sum_column c (pos 0) r.records) =
      fun_ext λ c. let (k, t, s, l) = exact c in t ∙ sym s in
    let (e, small) =
      upsert-add_group n (total r.records) q (day_key r) (λ c. sum_column c (pos 0) r.records) rows
        h g (λ c. let (k, t, s, l) = exact c in (k, s, omega arith)) a in
    (rw (same, e), rw (same, e) small)

-- Each report is fed to the observer, in the order in which it was stored.
abbrev pub ingest_reports : List ReportRow → List AggRow → List AggRow
ingest_reports [] rows = rows
ingest_reports (row ∷ more) rows = ingest_reports more (on_ingest false row.report rows)

-- all messages of the stored reports
abbrev pub grand_total : List ReportRow → ℕ
grand_total [] = 0
grand_total (row ∷ rows) = total row.report.records + grand_total rows

abbrev pub AllCounts : List ReportRow → Type 0
AllCounts = All (λ row. Counts row.report.records)

ingest_reports-group_reports :
    (n q n' q' : ℕ) (recs : List RecordRow) (rows : List ReportRow) (acc : List AggRow)
    → n + grand_total rows ≡ n'
    → q + length rows ≡ q'
    → n' < 2 ^ 63
    → q' < 2 ^ 31
    → HasRecords recs rows
    → AllCounts rows
    → AllSmall n q acc
    → (ingest_reports rows acc ≡ group_reports recs rows acc)
      × AllSmall n' q' (ingest_reports rows acc)
unfolding group_reports
ingest_reports-group_reports n q n' q' recs [] acc d f h g has counts a =
    let e : n ≡ n' = omega arith in
    let e' : q ≡ q' = omega arith in
    (refl, subst (λ k. AllSmall n' k acc) e' (subst (λ k. AllSmall k q acc) e a))
ingest_reports-group_reports n q n' q' recs (row ∷ rows) acc d f h g (mine, has) (c, counts) a =
    let (e, small) = on_ingest-add_group n q row.report acc (omega arith) (omega arith) c a in
    let (same, all) =
      ingest_reports-group_reports (n + total row.report.records) (q + 1) n' q' recs rows
        (on_ingest false row.report acc) (omega arith) (omega arith) h g has counts small in
    (rw mine (same ∙ ap (group_reports recs rows) e), all)

AllSmall-all_fit :
    (n q : ℕ) (rows : List AggRow)
    → n < 2 ^ 63
    → q < 2 ^ 31
    → AllSmall n q rows
    → all_fit rows ≡ true
unfolding all_fit
AllSmall-all_fit n q [] h g a = refl
AllSmall-all_fit n q ((k, b) ∷ rows) h g (s, a) =
    rw (IsSmall-fits n q b h g s) (AllSmall-all_fit n q rows h g a)

-- Where the tables hold every report with its records, no count is negative, the messages of all
-- reports fit a bigint and their number an int, and no statement fails, `Backfill` succeeds, and it
-- leaves the rows that `OnIngest` would, fed with every report in the order in which it was stored.
pub backfill-ingest_reports :
    (fails : BackfillStmt → Bool) (t : Tables) (agg : List AggRow)
    → ((s : BackfillStmt) → fails s ≡ false)
    → HasRecords t.records t.reports
    → AllCounts t.reports
    → grand_total t.reports < 2 ^ 63
    → length t.reports < 2 ^ 31
    → backfill fails t agg
      ≡ (some (length (ingest_reports t.reports [])), ingest_reports t.reports [])
unfolding backfill
backfill-ingest_reports fails t agg ok_stmt has counts h g =
    let (same, small) =
      ingest_reports-group_reports 0 0 (grand_total t.reports) (length t.reports) t.records
        t.reports [] (omega arith) (omega arith) h g has counts tt in
    let fit = AllSmall-all_fit (grand_total t.reports) (length t.reports) _ h g small in
    rw (← same) (
      rw (
        ok_stmt backfill_begin,
        ok_stmt backfill_clear,
        ok_stmt backfill_insert,
        ok_stmt backfill_commit,
        fit,
      ))
