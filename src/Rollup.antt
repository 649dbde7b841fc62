-- ===== src/Rollup.antt =====
-- parser/internal/rollup/rollup.go: the table `dmarc_agg_daily`, fed report by report (`OnIngest`) or
-- rebuilt from the stored reports (`Backfill`). The database's time zone is taken to be UTC.
pub mod Bounded
pub mod Rebuilt
use dmarcparser.Base.{
  ltb, ◌==◌, if◌then◌else◌, length, ℕ, ◌+◌, ◌/◌, ◌^◌, Bool, true, false, not, ◌&&◌, ◌||◌, Option,
  none, some, List, [], ◌∷◌,
}
use dmarcparser.Base.Int.{ℤ, pos, negsuc, add_int, add64, is_bigint}
use dmarcparser.Report.{Record, Report}
use dmarcparser.Store.Reports.{ReportRow, RecordRow, Tables, records_of}
use dmarcparser.Text.{Bytes, codes, beq}
use mathlib.Core.Option

-- The seven columns of message counts.
pub data Column : Type 0 where
  all_msgs aligned_msgs dkim_msgs spf_msgs none_msgs quarantine_msgs reject_msgs : Column

-- day, counted from 1970, and domain
abbrev pub DayKey : Type 0
DayKey = ℤ × Bytes

pub record Bucket : Type 0 where
  pub msgs : Column → ℤ
  pub reports : ℕ

abbrev pub AggRow : Type 0
AggRow = DayKey × Bucket

abbrev pub pass : Bytes
pass = codes "pass"

-- `Truncate(24 * time.Hour)`, and `date_trunc('day', …)`
unfoldable pub day_of : ℤ → ℤ
day_of (pos n) = pos (n / 86400)
day_of (negsuc n) = negsuc (n / 86400)

abbrev pub day_key : Report → DayKey
day_key r = (day_of r.begin, r.domain)

unfoldable pub same_int : ℤ → ℤ → Bool
same_int (pos a) (pos b) = a == b
same_int (negsuc a) (negsuc b) = a == b
same_int (pos a) (negsuc b) = false
same_int (negsuc a) (pos b) = false

abbrev pub same_day_key : DayKey → DayKey → Bool
same_day_key a b = same_int a.0 b.0 && beq a.1 b.1

abbrev pub has_disposition : Bytes → Option Bytes → Bool
has_disposition d none = false
has_disposition d (some v) = beq v d

-- the test under which a record's count is added to a column
unfoldable pub counted : Column → Record → Bool
counted all_msgs rec = true
counted aligned_msgs rec = beq rec.dkim_align pass || beq rec.spf_align pass
counted dkim_msgs rec = beq rec.dkim_align pass
counted spf_msgs rec = beq rec.spf_align pass
counted none_msgs rec = has_disposition (codes "none") rec.disposition
counted quarantine_msgs rec = has_disposition (codes "quarantine") rec.disposition
counted reject_msgs rec = has_disposition (codes "reject") rec.disposition

-- one column of the loop over `rep.Records`: an int64
unfoldable pub tally_column : Column → ℤ → List Record → ℤ
unfolding counted
tally_column c acc [] = acc
tally_column c acc (rec ∷ recs) =
    tally_column c (if counted c rec then add64 acc rec.count else acc) recs

-- one column of the query of `Backfill`: a `numeric`, which does not overflow
unfoldable pub sum_column : Column → ℤ → List Record → ℤ
unfolding counted
sum_column c acc [] = acc
sum_column c acc (rec ∷ recs) =
    sum_column c (if counted c rec then add_int acc rec.count else acc) recs

-- do the seven columns fit a bigint, and `reports` an int?
unfoldable pub fits : Bucket → Bool
fits b =
    is_bigint (b.msgs all_msgs)
    && (is_bigint (b.msgs aligned_msgs)
        && (is_bigint (b.msgs dkim_msgs)
            && (is_bigint (b.msgs spf_msgs)
                && (is_bigint (b.msgs none_msgs)
                    && (is_bigint (b.msgs quarantine_msgs)
                        && (is_bigint (b.msgs reject_msgs) && ltb b.reports (2 ^ 31)))))))

abbrev pub add_bucket : Bucket → (Column → ℤ) → Bucket
add_bucket b m = record { msgs = λ c. add_int (b.msgs c) (m c); reports = b.reports + 1 }

abbrev pub new_bucket : (Column → ℤ) → Bucket
new_bucket m = record { msgs = m; reports = 1 }

-- `INSERT … ON CONFLICT (day, domain) DO UPDATE`; `none` where a sum is out of range
unfoldable pub upsert : DayKey → (Column → ℤ) → List AggRow → Option (List AggRow)
unfolding fits
upsert k m [] = if fits (new_bucket m) then some ((k, new_bucket m) ∷ []) else none
upsert k m ((k', b) ∷ rows) =
    let rest = upsert k m rows in
    if same_day_key k' k
    then (if fits (add_bucket b m) then some ((k', add_bucket b m) ∷ rows) else none)
    else Option.map (◌∷◌ (k', b)) rest

-- an error is only logged
abbrev pub kept : List AggRow → Option (List AggRow) → List AggRow
kept rows none = rows
kept rows (some rows') = rows'

-- `OnIngest`, with whether the statement fails
unfoldable pub on_ingest : Bool → Report → List AggRow → List AggRow
unfolding upsert tally_column
on_ingest fails r rows =
    if fails
    then rows
    else kept rows (upsert (day_key r) (λ c. tally_column c (pos 0) r.records) rows)

-- the query of `Backfill`: each report, joined with its records, goes to the group of its key
unfoldable pub add_group : DayKey → (Column → ℤ) → List AggRow → List AggRow
add_group k m [] = (k, new_bucket m) ∷ []
add_group k m ((k', b) ∷ rows) =
    let rest = add_group k m rows in
    if same_day_key k' k then (k', add_bucket b m) ∷ rows else (k', b) ∷ rest

unfoldable pub group_reports : List RecordRow → List ReportRow → List AggRow → List AggRow
unfolding add_group sum_column
group_reports recs [] acc = acc
group_reports recs (row ∷ rows) acc =
    group_reports recs rows
      (add_group (day_key row.report) (λ c. sum_column c (pos 0) (records_of row.serial recs)) acc)

unfoldable pub all_fit : List AggRow → Bool
unfolding fits
all_fit [] = true
all_fit ((k, b) ∷ rows) = fits b && all_fit rows

pub data BackfillStmt : Type 0 where
  backfill_begin backfill_clear backfill_insert backfill_commit : BackfillStmt

-- `Backfill`: the number of rows written, and the table
unfoldable pub backfill : (BackfillStmt → Bool) → Tables → List AggRow → Option ℕ × List AggRow
unfolding group_reports all_fit
backfill fails t agg =
    let rebuilt = group_reports t.records t.reports [] in
    if fails backfill_begin || fails backfill_clear
    then (none, agg)
    else if fails backfill_insert || not (all_fit rebuilt)
    then (none, agg)
    else if fails backfill_commit
    then (none, agg)
    else (some (length rebuilt), rebuilt)
