-- ===== src/Stats/Readiness.antt =====
-- `DomainReadiness` and `Recommend` of store_stats.go, where the queries themselves succeed. A blocker
-- is told by its parts: its text is for display.
pub mod Advances
use dmarcparser.Base.{
  ltb, if◌then◌else◌, is_empty, take, ℕ, ◌-◌, Bool, true, false, not, ◌&&◌, ◌||◌, Option, none,
  some, List, [], ◌∷◌, ◌++◌,
}
use dmarcparser.Base.Int.{ℤ, pos, negsuc, add_int, lt_int, le_int, is_bigint}
use dmarcparser.Rollup.{AggRow, same_int}
use dmarcparser.Report.{Record}
use dmarcparser.Store.Reports.{ReportRow, RecordRow, records_of}
use dmarcparser.Store.Sources.{IpMeta, find_meta, ptr_of}
use dmarcparser.Text.{Bytes, codes, beq}
use dmarcparser.Stats.{Reals, ratio, group_by, filtered, all_of, sort_by}
use dmarcparser.Stats.Health.{policy_or_none}
use dmarcparser.Stats.Domains.{
  Database, DaySums, no_days, add_day, fits_sums, domain_of_day, days_ago, is_current, later_row,
  domain_of_report, is_failing, no_class, class_of, fold_rows, p_of, sp_of, pct_of, month,
}
use dmarcparser.Export.{HostOf}

pub record FailSource : Type 0 where
  pub fail_ip : Bytes
  pub fail_msgs : ℤ
  pub fail_ptr : Option Bytes
  pub fail_org : Option Bytes
  pub fail_class : Option Bytes

pub data Recommendation : Type 0 where
  monitor enforce step_pct fix_alignment : Recommendation

pub data Blocker (F : Type 0) : Type 0 where
  no_traffic_90d : Blocker F
  low_rate : F → Blocker F
  unknown_source : Bytes → ℤ → Blocker F

abbrev pub has_class : FailSource → Bool
has_class f = not (no_class f.fail_class)

abbrev pub is_heavy : FailSource → Bool
is_heavy f = lt_int (pos 100) f.fail_msgs

-- `pct == nil || *pct >= 100`
abbrev pub full_pct : Option ℤ → Bool
full_pct none = true
full_pct (some pct) = le_int (pos 100) pct

-- the switch on the policy
unfoldable pub next_step : Bytes → Bool → Recommendation
next_step pol full =
    if beq pol (codes "reject") && full
    then monitor
    else if (beq pol (codes "reject") || beq pol (codes "quarantine")) && not full
    then step_pct
    else enforce

module _ {F : Type 0} (fl : Reals F) where
  -- the loop over the sources: is one of a known class, and the blockers
  unfoldable pub scan_sources : List FailSource → Bool × List (Blocker F) → Bool × List (Blocker F)
  scan_sources [] s = s
  scan_sources (f ∷ fs) (known, bs) = scan_sources fs (
      if has_class f
      then (true, bs)
      else if is_heavy f
      then (known, bs ++ unknown_source f.fail_ip f.fail_msgs ∷ [])
      else (known, bs))

  abbrev pub rate_blockers : F → List (Blocker F)
  rate_blockers rate =
      if fl.less rate (fl.literal 995 1000)
      then low_rate (fl.mul (fl.literal 100 1) rate) ∷ []
      else []

  -- behind the loop
  abbrev pub recommended :
      Option Bytes → Option ℤ → Bool × List (Blocker F) → Recommendation × List (Blocker F)
  recommended p pct (known, []) = (next_step (policy_or_none p) (full_pct pct), [])
  recommended p pct (known, b ∷ bs) = (if known then fix_alignment else monitor, b ∷ bs)

  -- `Recommend`
  unfoldable pub recommend :
      Option Bytes → Option ℤ → F → ℤ → List FailSource → Recommendation × List (Blocker F)
  unfolding scan_sources next_step
  recommend p pct rate90 msgs90 fails =
      if same_int msgs90 (pos 0)
      then (monitor, no_traffic_90d ∷ [])
      else recommended p pct (scan_sources fails (false, rate_blockers rate90))

pub record Readiness (F : Type 0) : Type 0 where
  pub ready_domain : Bytes
  pub rate_30d : F
  pub rate_90d : F
  pub ready_msgs_30d : ℤ
  pub ready_msgs_90d : ℤ
  pub fail_sources : List FailSource
  pub current_p : Option Bytes
  pub current_sp : Option Bytes
  pub current_pct : Option ℤ
  pub recommendation : Recommendation
  pub blockers : List (Blocker F)

-- the rows of the query of sources, by address
abbrev pub SourceRow : Type 0
SourceRow = Option Bytes × ℤ

unfoldable pub failing_rows : HostOf → List Record → List SourceRow
failing_rows host [] = []
failing_rows host (rec ∷ recs) =
    let rest = failing_rows host recs in
    if is_failing rec then (host rec.ipv4 rec.ipv6, rec.count) ∷ rest else rest

unfoldable pub source_rows : HostOf → Bytes → ℤ → List RecordRow → List ReportRow → List SourceRow
unfolding failing_rows records_of
source_rows host domain since recs [] = []
source_rows host domain since recs (row ∷ rows) =
    let rest = source_rows host domain since recs rows in
    if beq row.report.domain domain && le_int since row.report.begin
    then failing_rows host (records_of row.serial recs) ++ rest
    else rest

abbrev pub same_address : Option Bytes → Option Bytes → Bool
same_address none none = true
same_address none (some b) = false
same_address (some a) none = false
same_address (some a) (some b) = beq a b

abbrev pub as_org_of : Option IpMeta → Option Bytes
as_org_of none = none
as_org_of (some m) = m.as_org

abbrev pub fail_source : List IpMeta → Bytes → ℤ → FailSource
fail_source metas ip msgs = record {
  fail_ip = ip;
  fail_msgs = msgs;
  fail_ptr = ptr_of (find_meta ip metas);
  fail_org = as_org_of (find_meta ip metas);
  fail_class = class_of (find_meta ip metas);
}

-- `t.sip IS NOT NULL`, and the join with `ip_meta`
unfoldable pub named_sources : List IpMeta → List SourceRow → List FailSource
unfolding find_meta
named_sources metas [] = []
named_sources metas ((none, n) ∷ gs) = named_sources metas gs
named_sources metas ((some ip, n) ∷ gs) = fail_source metas ip n ∷ named_sources metas gs

abbrev pub add_source : SourceRow → ℤ → ℤ
add_source row n = add_int n row.1

abbrev pub quarter : ℕ
quarter = 7776000

abbrev pub source_groups : HostOf → Database → Bytes → List SourceRow
source_groups host db domain =
    group_by same_address (pos 0) (λ r. r.0) add_source
      (source_rows host domain (add_int db.clock (negsuc (quarter - 1))) db.tables.records
        db.tables.reports)
      []

-- `ORDER BY t.msgs DESC LIMIT 10`
abbrev pub top_sources : List IpMeta → List SourceRow → List FailSource
top_sources metas gs =
    take 10 (sort_by (λ a b. le_int b.fail_msgs a.fail_msgs) (named_sources metas gs))

module _ {F : Type 0} (fl : Reals F) (host : HostOf) (db : Database) where
  abbrev pub readiness_of :
      Bytes → Option ReportRow → DaySums → DaySums → List FailSource → Readiness F
  readiness_of domain row month quarter fails =
      let rate90 = ratio fl quarter.sum_aligned quarter.sum_msgs in
      let verdict = recommend fl (p_of row) (pct_of row) rate90 quarter.sum_msgs fails in
      record {
        ready_domain = domain;
        rate_30d = ratio fl month.sum_aligned month.sum_msgs;
        rate_90d = rate90;
        ready_msgs_30d = month.sum_msgs;
        ready_msgs_90d = quarter.sum_msgs;
        fail_sources = fails;
        current_p = p_of row;
        current_sp = sp_of row;
        current_pct = pct_of row;
        recommendation = verdict.0;
        blockers = verdict.1;
      }

  -- behind the query of the policy: `none` is an error, `some none` not found
  abbrev pub readiness_found : Bytes → Option ReportRow → Option (Option (Readiness F))
  readiness_found domain none = some none
  readiness_found domain (some row) =
      let days =
        filtered (λ d. beq (domain_of_day d) domain && le_int (days_ago 90 db.today) d.0.0)
          db.agg in
      let month = fold_rows add_day (filtered (is_current db.today) days) no_days in
      let quarter = fold_rows add_day days no_days in
      let gs = source_groups host db domain in
      if fits_sums month && (fits_sums quarter && all_of (λ g. is_bigint g.1) gs)
      then some (some (readiness_of domain (some row) month quarter (top_sources db.metas gs)))
      else none

  -- `DomainReadiness`
  unfoldable pub domain_readiness : Bytes → Option (Option (Readiness F))
  unfolding recommend filtered fold_rows all_of group_by sort_by source_rows named_sources
  domain_readiness domain =
      readiness_found domain (
        fold_rows later_row (filtered (λ r. beq (domain_of_report r) domain) db.tables.reports)
          none)
