-- ===== src/Store/Listed.antt =====
-- `ListReports`, `GetReport` and `Totals` of parser/internal/store/store.go, over the tables of
-- Store/Reports. Times are Unix seconds.
pub mod Sorted
pub mod Listing
use dmarcparser.Base.{
  leb, ◌==◌, if◌then◌else◌, length, take, drop, is_empty, ℕ, ◌+◌, Bool, true, false, ◌&&◌, ◌||◌,
  Option, none, some, List, [], ◌∷◌, ◌++◌,
}
use dmarcparser.Base.Int.{ℤ, pos, lt_int, add_int, add64, is_bigint, le_int}
use dmarcparser.Report.{Record}
use dmarcparser.Report.Address.{Net, render_ip}
use dmarcparser.Store.Reports.{ReportRow, RecordRow, Tables, records_of}
use dmarcparser.Text.{Bytes, beq}

pub record ListFilter : Type 0 where
  pub of_domain : Bytes
  pub of_org : Bytes
  pub since : Option ℤ
  pub until : Option ℤ
  pub limit : ℕ
  pub offset : ℕ

pub record ReportSummary : Type 0 where
  pub summary_row : ReportRow
  pub summary_records : ℕ
  pub summary_messages : ℤ

-- `$1 = '' OR r.domain = $1`
abbrev pub is_or_any : Bytes → Bytes → Bool
is_or_any wanted s = is_empty wanted || beq s wanted

-- `$3 IS NULL OR r.maxdate >= $3`, `$4 IS NULL OR r.mindate <= $4`
abbrev pub ends_after : Option ℤ → ℤ → Bool
ends_after none t = true
ends_after (some s) t = le_int s t

abbrev pub begins_before : Option ℤ → ℤ → Bool
begins_before none t = true
begins_before (some u) t = le_int t u

unfoldable pub matches : ListFilter → ReportRow → Bool
matches f row =
    is_or_any f.of_domain row.report.domain
    && (is_or_any f.of_org row.report.org
        && (ends_after f.since row.report.end && begins_before f.until row.report.begin))

unfoldable pub matching : ListFilter → List ReportRow → List ReportRow
unfolding matches
matching f [] = []
matching f (row ∷ rows) = let rest = matching f rows in if matches f row then row ∷ rest else rest

-- `ORDER BY mindate DESC, serial DESC`: may `a` stand before `b`?
unfoldable pub before_row : ReportRow → ReportRow → Bool
before_row a b =
    if lt_int b.report.begin a.report.begin
    then true
    else if lt_int a.report.begin b.report.begin
    then false
    else leb b.serial a.serial

unfoldable pub insert_row : ReportRow → List ReportRow → List ReportRow
unfolding before_row
insert_row row [] = row ∷ []
insert_row row (x ∷ xs) =
    let rest = insert_row row xs in if before_row row x then row ∷ x ∷ xs else x ∷ rest

unfoldable pub sort_rows : List ReportRow → List ReportRow
unfolding insert_row
sort_rows [] = []
sort_rows (row ∷ rows) = insert_row row (sort_rows rows)

unfoldable pub sum_counts : List Record → ℤ
sum_counts [] = pos 0
sum_counts (rec ∷ recs) = add_int rec.count (sum_counts recs)

abbrev pub with_summary :
    ReportRow → ℕ → ℤ → Option (List ReportSummary) → Option (List ReportSummary)
with_summary row n m none = none
with_summary row n m (some rest) =
    if is_bigint m
    then some (record { summary_row = row; summary_records = n; summary_messages = m } ∷ rest)
    else none

-- the rows as they are scanned; `none` where a sum does not fit an int64
unfoldable pub summaries : List RecordRow → List ReportRow → Option (List ReportSummary)
unfolding records_of sum_counts
summaries recs [] = some []
summaries recs (row ∷ rows) =
    with_summary row (length (records_of row.serial recs)) (sum_counts (records_of row.serial recs))
      (summaries recs rows)

abbrev pub page_of : ℕ → ℕ → List ReportRow → List ReportRow
page_of limit offset rows = take limit (drop offset rows)

-- `ListReports`
unfoldable pub list_reports : ListFilter → Tables → Option (List ReportSummary)
unfolding summaries sort_rows matching
list_reports f t = summaries t.records (page_of f.limit f.offset (sort_rows (matching f t.reports)))

-- `GetReport`
pub record RecordOut : Type 0 where
  pub source_ip : Bytes
  pub out_record : Record

pub record ReportDetail : Type 0 where
  pub detail_row : ReportRow
  pub record_rows : List RecordOut
  pub detail_records : ℕ
  pub detail_messages : ℤ

unfoldable pub find_serial : ℕ → List ReportRow → Option ReportRow
find_serial n [] = none
find_serial n (row ∷ rows) = if row.serial == n then some row else find_serial n rows

-- `ORDER BY rcount DESC, id`: the records come in the order of their ids
unfoldable pub insert_count : Record → List Record → List Record
insert_count rec [] = rec ∷ []
insert_count rec (x ∷ xs) =
    let rest = insert_count rec xs in if le_int x.count rec.count then rec ∷ x ∷ xs else x ∷ rest

unfoldable pub by_count : List Record → List Record
unfolding insert_count
by_count [] = []
by_count (rec ∷ recs) = insert_count rec (by_count recs)

-- the loop over the rows
unfoldable pub add_record_rows : Net → List Record → ReportDetail → ReportDetail
unfolding render_ip
add_record_rows net [] d = d
add_record_rows net (rec ∷ recs) d = add_record_rows net recs (record {
  detail_row = d.detail_row;
  record_rows =
      d.record_rows
      ++ record { source_ip = render_ip net rec.ipv4 rec.ipv6; out_record = rec } ∷ [];
  detail_records = d.detail_records + 1;
  detail_messages = add64 d.detail_messages rec.count;
})

abbrev pub detail_of : Net → List RecordRow → Option ReportRow → Option ReportDetail
detail_of net recs none = none
detail_of net recs (some row) = some (
    add_record_rows net (by_count (records_of row.serial recs))
      (record { detail_row = row; record_rows = []; detail_records = 0; detail_messages = pos 0 }))

unfoldable pub get_report : Net → ℕ → Tables → Option ReportDetail
unfolding find_serial add_record_rows by_count records_of
get_report net n t = detail_of net t.records (find_serial n t.reports)

-- `Totals`
abbrev pub totals : Tables → ℕ × ℕ
totals t = (length t.reports, length t.records)
