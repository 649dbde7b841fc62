-- ===== src/Stats/Domains.antt =====
-- `DomainHealthInputs` of store_stats.go, and what it shares with `ListDomains`, where the queries
-- themselves succeed: what is left to fail is a sum that does not fit. Days count from 1970, times are
-- Unix seconds, and the time zone of the database is taken to be UTC.
pub mod Overview
pub mod Rows
pub mod Found
pub mod Agreed
use dmarcparser.Report.Fields.{unknown}
use dmarcparser.Base.{
  ltb, if◌then◌else◌, is_empty, ◌==◌, ℕ, ◌+◌, ◌-◌, Bool, true, false, not, ◌&&◌, Option, none, some,
  List, [], ◌∷◌, ◌++◌, map,
}
use dmarcparser.Base.Int.{ℤ, pos, negsuc, add_int, lt_int, le_int, is_bigint}
use dmarcparser.Rollup.{AggRow, pass, all_msgs, aligned_msgs}
use dmarcparser.Report.{Record}
use dmarcparser.Store.Listed.{before_row}
use dmarcparser.Store.Reports.{ReportRow, RecordRow, Tables, records_of}
use dmarcparser.Store.Sources.{IpMeta, find_meta}
use dmarcparser.Text.{Bytes, beq}
use dmarcparser.Stats.{Reals, ratio, group_by, find_group, filtered, all_of, sort_by}
use dmarcparser.Stats.Health.{HealthInputs, compute_health}
use dmarcparser.Export.{HostOf}

pub record Database : Type 0 where
  pub tables : Tables
  pub agg : List AggRow
  pub metas : List IpMeta
  -- `current_date` and `now()`
  pub today : ℤ
  pub clock : ℤ

abbrev pub days_ago : ℕ → ℤ → ℤ
days_ago n today = add_int today (if n == 0 then pos 0 else negsuc (n - 1))

pub record DaySums : Type 0 where
  pub sum_msgs : ℤ
  pub sum_aligned : ℤ
  pub sum_days : ℕ

abbrev pub no_days : DaySums
no_days = record { sum_msgs = pos 0; sum_aligned = pos 0; sum_days = 0 }

abbrev pub add_day : AggRow → DaySums → DaySums
add_day (k, b) s = record {
  sum_msgs = add_int s.sum_msgs (b.msgs all_msgs);
  sum_aligned = add_int s.sum_aligned (b.msgs aligned_msgs);
  sum_days = if lt_int (pos 0) (b.msgs all_msgs) then s.sum_days + 1 else s.sum_days;
}

-- the casts to bigint
abbrev pub fits_sums : DaySums → Bool
fits_sums s = is_bigint s.sum_msgs && is_bigint s.sum_aligned

abbrev pub domain_of_day : AggRow → Bytes
domain_of_day row = row.0.1

abbrev pub is_current : ℤ → AggRow → Bool
is_current today row = le_int (days_ago 30 today) row.0.0

abbrev pub is_prior : ℤ → AggRow → Bool
is_prior today row = le_int (days_ago 60 today) row.0.0 && lt_int row.0.0 (days_ago 30 today)

-- the later row of the two, by `mindate DESC, serial DESC`
abbrev pub later_row : ReportRow → Option ReportRow → Option ReportRow
later_row row none = some row
later_row row (some best) = if before_row row best then some row else some best

abbrev pub domain_of_report : ReportRow → Bytes
domain_of_report row = row.report.domain

abbrev pub is_failing : Record → Bool
is_failing rec = not (beq rec.dkim_align pass) && not (beq rec.spf_align pass)

-- `im.sender_class IS NULL OR im.sender_class = ''`
abbrev pub no_class : Option Bytes → Bool
no_class none = true
no_class (some c) = is_empty c

abbrev pub class_of : Option IpMeta → Option Bytes
class_of none = none
class_of (some m) = m.sender_class

abbrev pub class_at : List IpMeta → Option Bytes → Option Bytes
class_at metas none = none
class_at metas (some ip) = class_of (find_meta ip metas)

-- a failing record of a source without a class, with the domain
abbrev pub FailRow : Type 0
FailRow = Bytes × ℤ

abbrev pub add_fail : FailRow → ℤ → ℤ
add_fail row n = add_int n row.1

module _ (host : HostOf) (metas : List IpMeta) where
  unfoldable pub unknown_fails : Bytes → List Record → List FailRow
  unfolding find_meta
  unknown_fails domain [] = []
  unknown_fails domain (rec ∷ recs) =
      let rest = unknown_fails domain recs in
      if is_failing rec && no_class (class_at metas (host rec.ipv4 rec.ipv6))
      then (domain, rec.count) ∷ rest
      else rest

  unfoldable pub fail_rows : ℤ → List RecordRow → List ReportRow → List FailRow
  unfolding unknown_fails records_of
  fail_rows since recs [] = []
  fail_rows since recs (row ∷ rows) =
      let rest = fail_rows since recs rows in
      if le_int since row.report.begin
      then unknown_fails row.report.domain (records_of row.serial recs) ++ rest
      else rest

abbrev pub month : ℕ
month = 2592000

abbrev pub unknown_rows : HostOf → Database → List FailRow
unknown_rows host db =
    fail_rows host db.metas (add_int db.clock (negsuc (month - 1))) db.tables.records
      db.tables.reports

unfoldable pub fold_rows : {A R : Type 0} → (R → A → A) → List R → A → A
fold_rows step [] a = a
fold_rows step (r ∷ rs) a = fold_rows step rs (step r a)

abbrev pub p_of : Option ReportRow → Option Bytes
p_of none = none
p_of (some row) = row.report.p

abbrev pub sp_of : Option ReportRow → Option Bytes
sp_of none = none
sp_of (some row) = row.report.sp

abbrev pub pct_of : Option ReportRow → Option ℤ
pct_of none = none
pct_of (some row) = row.report.pct

abbrev pub inputs_of : DaySums → DaySums → ℤ → Option ReportRow → HealthInputs
inputs_of cur prior unknown pol = record {
  msgs_30d = cur.sum_msgs;
  aligned_30d = cur.sum_aligned;
  msgs_prior = prior.sum_msgs;
  aligned_prior = prior.sum_aligned;
  days_with_data = cur.sum_days;
  unknown_failing = unknown;
  policy_p = p_of pol;
  policy_pct = pct_of pol;
}

-- `DomainHealthInputs`, behind the query of the policy: `none` is an error, `some none` not found
abbrev pub inputs_found :
    HostOf → Database → Bytes → Option ReportRow → Option (Option HealthInputs)
inputs_found host db domain none = some none
inputs_found host db domain (some row) =
    let days =
      filtered (λ d. beq (domain_of_day d) domain && le_int (days_ago 60 db.today) d.0.0) db.agg in
    let cur = fold_rows add_day (filtered (is_current db.today) days) no_days in
    let prior =
      fold_rows add_day (filtered (λ d. lt_int d.0.0 (days_ago 30 db.today)) days) no_days in
    let unknown =
      fold_rows add_fail (filtered (λ r. beq r.0 domain) (unknown_rows host db)) (pos 0) in
    if fits_sums cur && (fits_sums prior && is_bigint unknown)
    then some (some (inputs_of cur prior unknown (some row)))
    else none

unfoldable pub domain_health_inputs : HostOf → Database → Bytes → Option (Option HealthInputs)
unfolding filtered fold_rows fail_rows
domain_health_inputs host db domain =
    inputs_found host db domain
      (fold_rows later_row (filtered (λ r. beq (domain_of_report r) domain) db.tables.reports) none)
