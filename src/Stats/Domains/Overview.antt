-- ===== src/Stats/Domains/Overview.antt =====
-- `ListDomains` of store_stats.go, where the query itself succeeds.
use dmarcparser.Base.{if◌then◌else◌, Bool, true, false, ◌&&◌, Option, none, some, List, [], map}
use dmarcparser.Base.Int.{ℤ, pos, lt_int, is_bigint}
use dmarcparser.Export.{HostOf}
use dmarcparser.Stats.{Reals, ratio, group_by, find_group, filtered, all_of, sort_by}
use dmarcparser.Stats.Domains.{
  Database, DaySums, no_days, add_day, fits_sums, domain_of_day, is_current, is_prior, later_row,
  domain_of_report, add_fail, fail_rows, unknown_rows, p_of, sp_of, pct_of, inputs_of,
}
use dmarcparser.Stats.Health.{HealthInputs, compute_health}
use dmarcparser.Store.Reports.{ReportRow}
use dmarcparser.Text.{Bytes, beq}

pub record DomainSummary (F : Type 0) : Type 0 where
  pub domain : Bytes
  pub summary_msgs_30d : ℤ
  pub aligned_rate_30d : F
  pub last_report : Option ℤ
  pub summary_p : Option Bytes
  pub summary_sp : Option Bytes
  pub summary_pct : Option ℤ
  pub health : ℤ

-- `max(maxdate)`
abbrev pub later_end : ReportRow → Option ℤ → Option ℤ
later_end row none = some row.report.end
later_end row (some t) = if lt_int t row.report.end then some row.report.end else some t

-- `SELECT DISTINCT domain`
abbrev pub domains_of : List ReportRow → List Bytes
domains_of rows = map (λ g. g.0) (group_by beq tt domain_of_report (λ r u. u) rows [])

-- the subqueries of `listDomainsSQL`
pub record Groups : Type 0 where
  pub cur : List (Bytes × DaySums)
  pub prior : List (Bytes × DaySums)
  pub lastr : List (Bytes × Option ℤ)
  pub pol : List (Bytes × Option ReportRow)
  pub unk : List (Bytes × ℤ)

abbrev pub groups_of : HostOf → Database → Groups
groups_of host db = record {
  cur = group_by beq no_days domain_of_day add_day (filtered (is_current db.today) db.agg) [];
  prior = group_by beq no_days domain_of_day add_day (filtered (is_prior db.today) db.agg) [];
  lastr = group_by beq none domain_of_report later_end db.tables.reports [];
  pol = group_by beq none domain_of_report later_row db.tables.reports [];
  unk = group_by beq (pos 0) (λ r. r.0) add_fail (unknown_rows host db) [];
}

abbrev pub groups_fit : Groups → Bool
groups_fit g =
    all_of (λ x. fits_sums x.1) g.cur
    && (all_of (λ x. fits_sums x.1) g.prior && all_of (λ x. is_bigint x.1) g.unk)

-- the health inputs that a row of the list carries
abbrev pub listed_inputs : Groups → Bytes → HealthInputs
listed_inputs g domain =
    inputs_of (find_group beq no_days domain g.cur) (find_group beq no_days domain g.prior)
      (find_group beq (pos 0) domain g.unk) (find_group beq none domain g.pol)

-- `ORDER BY COALESCE(cur.msgs, 0) DESC, d.domain`; the collation is a parameter
abbrev pub list_ahead :
    {F : Type 0} → (Bytes → Bytes → Bool) → DomainSummary F → DomainSummary F → Bool
list_ahead text_le a b =
    if lt_int b.summary_msgs_30d a.summary_msgs_30d
    then true
    else if lt_int a.summary_msgs_30d b.summary_msgs_30d
    then false
    else text_le a.domain b.domain

module _ {F : Type 0} (fl : Reals F) where
  abbrev pub summary_of : Groups → Bytes → DomainSummary F
  summary_of g domain =
      let x = listed_inputs g domain in
      let row = find_group beq none domain g.pol in
      record {
        domain = domain;
        summary_msgs_30d = x.msgs_30d;
        aligned_rate_30d = ratio fl x.aligned_30d x.msgs_30d;
        last_report = find_group beq none domain g.lastr;
        summary_p = p_of row;
        summary_sp = sp_of row;
        summary_pct = pct_of row;
        health = (compute_health fl x).0;
      }

  -- `ListDomains`; `none` where a sum does not fit
  unfoldable pub list_domains :
      (Bytes → Bytes → Bool) → HostOf → Database → Option (List (DomainSummary F))
  unfolding group_by find_group sort_by all_of fail_rows filtered compute_health
  list_domains text_le host db =
      let g = groups_of host db in
      let rows = map (summary_of g) (domains_of db.tables.reports) in
      if groups_fit g then some (sort_by (list_ahead text_le) rows) else none
