-- ===== src/Stats/Top.antt =====
-- `StatsTop` of store_stats.go, where the query itself succeeds. The collation of keys is a parameter.
pub mod Ranked
use dmarcparser.Base.{
  if◌then◌else◌, is_empty, length, take, any, ◌==◌, ℕ, Bool, true, false, not, ◌&&◌, ◌||◌, Option,
  none, some, List, [], ◌∷◌, ◌++◌,
}
use dmarcparser.Base.Int.{ℤ, pos, add_int, lt_int, le_int, is_bigint}
use dmarcparser.Report.{Record}
use dmarcparser.Store.Listed.{is_or_any}
use dmarcparser.Store.Reports.{ReportRow, RecordRow, Tables, records_of}
use dmarcparser.Text.{Bytes, codes, beq}
use dmarcparser.Stats.{group_by, all_of, sort_by}
use dmarcparser.Stats.Domains.{is_failing}
use dmarcparser.Stats.Readiness.{same_address}
use dmarcparser.Stats.Series.{StatsFilter}
use dmarcparser.Export.{HostOf}

-- the keys of `topDimExpr`
pub data Dimension : Type 0 where
  by_ip by_org by_header_from : Dimension

abbrev pub key_of : HostOf → Dimension → ReportRow → Record → Option Bytes
key_of host by_ip row rec = host rec.ipv4 rec.ipv6
key_of host by_org row rec = some row.report.org
key_of host by_header_from row rec = rec.header_from

-- a record with its report, as the join gives it
pub record Joined : Type 0 where
  pub joined_key : Option Bytes
  pub joined_serial : ℕ
  pub joined_count : ℤ
  pub joined_failing : Bool

abbrev pub joined_of : HostOf → Dimension → ReportRow → Record → Joined
joined_of host dim row rec = record {
  joined_key = key_of host dim row rec;
  joined_serial = row.serial;
  joined_count = rec.count;
  joined_failing = is_failing rec;
}

-- `NOT $4 OR …`
unfoldable pub joined_records : HostOf → Dimension → Bool → ReportRow → List Record → List Joined
joined_records host dim only_failing row [] = []
joined_records host dim only_failing row (rec ∷ recs) =
    let rest = joined_records host dim only_failing row recs in
    if not only_failing || is_failing rec then joined_of host dim row rec ∷ rest else rest

abbrev pub begins_after : Option ℤ → ℤ → Bool
begins_after none t = true
begins_after (some s) t = le_int s t

abbrev pub begins_until : Option ℤ → ℤ → Bool
begins_until none t = true
begins_until (some u) t = le_int t u

abbrev pub in_top : StatsFilter → ReportRow → Bool
in_top f row =
    is_or_any f.stats_domain row.report.domain
    && (begins_after f.stats_since row.report.begin && begins_until f.stats_until row.report.begin)

unfoldable pub joined_rows :
    HostOf → StatsFilter → Dimension → Bool → List RecordRow → List ReportRow → List Joined
unfolding joined_records records_of
joined_rows host f dim only_failing recs [] = []
joined_rows host f dim only_failing recs (row ∷ rows) =
    let rest = joined_rows host f dim only_failing recs rows in
    if in_top f row
    then joined_records host dim only_failing row (records_of row.serial recs) ++ rest
    else rest

-- the three aggregates; the serials are kept once each
pub record TopTally : Type 0 where
  pub tally_msgs : ℤ
  pub tally_failed : ℤ
  pub tally_serials : List ℕ

abbrev pub empty_tally : TopTally
empty_tally = record { tally_msgs = pos 0; tally_failed = pos 0; tally_serials = [] }

abbrev pub add_joined : Joined → TopTally → TopTally
add_joined j t = record {
  tally_msgs = add_int t.tally_msgs j.joined_count;
  tally_failed = if j.joined_failing then add_int t.tally_failed j.joined_count else t.tally_failed;
  tally_serials =
      if any (λ n. n == j.joined_serial) t.tally_serials
      then t.tally_serials
      else j.joined_serial ∷ t.tally_serials;
}

pub record TopRow : Type 0 where
  pub top_key : Bytes
  pub top_msgs : ℤ
  pub top_failed : ℤ
  pub top_reports : ℕ

abbrev pub top_row : Bytes → TopTally → TopRow
top_row key t = record {
  top_key = key;
  top_msgs = t.tally_msgs;
  top_failed = t.tally_failed;
  top_reports = length t.tally_serials;
}

-- `t.key IS NOT NULL AND t.key <> ''`
unfoldable pub keyed_rows : List (Option Bytes × TopTally) → List TopRow
keyed_rows [] = []
keyed_rows ((none, t) ∷ gs) = keyed_rows gs
keyed_rows ((some [], t) ∷ gs) = keyed_rows gs
keyed_rows ((some (c ∷ cs), t) ∷ gs) = top_row (c ∷ cs) t ∷ keyed_rows gs

-- `ORDER BY t.msgs DESC, t.key`
abbrev pub top_ahead : (Bytes → Bytes → Bool) → TopRow → TopRow → Bool
top_ahead text_le a b =
    if lt_int b.top_msgs a.top_msgs
    then true
    else if lt_int a.top_msgs b.top_msgs
    then false
    else text_le a.top_key b.top_key

abbrev pub fits_tally : TopTally → Bool
fits_tally t = is_bigint t.tally_msgs && is_bigint t.tally_failed

abbrev pub top_groups :
    HostOf → StatsFilter → Dimension → Bool → Tables → List (Option Bytes × TopTally)
top_groups host f dim only_failing t =
    group_by same_address empty_tally (λ j. j.joined_key) add_joined
      (joined_rows host f dim only_failing t.records t.reports) []

-- `StatsTop` for a dimension that there is; `none` where a sum does not fit
unfoldable pub stats_top :
    (Bytes → Bytes → Bool)
    → HostOf
    → StatsFilter
    → Dimension
    → Bool
    → ℕ
    → Tables
    → Option (List TopRow)
unfolding group_by all_of sort_by joined_rows keyed_rows
stats_top text_le host f dim only_failing limit t =
    let gs = top_groups host f dim only_failing t in
    if all_of (λ g. fits_tally g.1) gs
    then some (take limit (sort_by (top_ahead text_le) (keyed_rows gs)))
    else none
