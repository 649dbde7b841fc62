-- ===== src/Tests/Statistics.antt =====
-- The statistics: runs, and each theorem applied at a concrete input.
use dmarcparser.Api.Stats.Scores.{HasPage, domains_request-health_request}
use dmarcparser.Stats.Readiness.{FailSource, recommend}
use dmarcparser.Stats.Readiness.Advances.{
  advances, all_tolerated, rejects_all, has_mail, recommend-advances,
}
use dmarcparser.Stats.Series.{
  StatsFilter, by_week, TimeseriesPoint, in_series, point_of, stats_timeseries,
}
use dmarcparser.Stats.Series.Totals.{sum_by, point_columns, stats_timeseries-sum}
use dmarcparser.Base.{
  length, ℕ, ◌*◌, ◌/◌, ◌≡◌, refl, false, none, some, List, [], ◌∷◌, All, not, ◌&&◌, map,
}
use dmarcparser.Base.Int.{ℤ, pos, lt_int, add_int}
use dmarcparser.Export.{HostOf}
use dmarcparser.Rollup.{AggRow}
use dmarcparser.Store.Reports.{ReportRow, rows_of}
use dmarcparser.Text.{codes, beq}
use dmarcparser.Api.Stats.{
  stats_ok, domains_request, stats_bad_since, stats_bad_until, stats_bad_choice, stats_missing,
  stats_db_error,
}
use dmarcparser.Stats.{Reals, filtered}
use dmarcparser.Stats.Domains.{Database}
use dmarcparser.Stats.Domains.Overview.{DomainSummary, list_domains}
use dmarcparser.Tests.Inputs.{test_report}

-- hundredths stand in for floats
abbrev test_reals : Reals ℤ
test_reals = record {
  of_int = λ n. n;
  literal = λ a b. pos (100 * a / b);
  add = add_int;
  sub = λ a b. a;
  mul = λ a b. a;
  div = λ a b. pos 100;
  min_of = λ a b. a;
  max_of = λ a b. b;
  less = lt_int;
  to_int = λ a. a;
}

abbrev stats_report : ReportRow
stats_report = record { serial = 1; report = test_report; raw = none; seen = 10 }

abbrev day_row : ℕ → ℕ → AggRow
day_row day n = ((pos day, test_report.domain), record { msgs = λ c. pos n; reports = 1 })

abbrev test_database : Database
test_database = record {
  tables = record {
    reports = stats_report ∷ [];
    records = rows_of 1 test_report.records;
    next_serial = 2;
    last_insert = 10;
  };
  agg = day_row 90 5 ∷ day_row 98 7 ∷ day_row 99 8 ∷ [];
  metas = [];
  today = pos 100;
  clock = pos 8640000;
}

abbrev stats_host : HostOf
stats_host ip ip6 = some (codes "192.0.2.1")

abbrev listed_domains : List (DomainSummary ℤ)
listed_domains = elim (domains_request test_reals beq stats_host false test_database) [
  | stats_ok ds ↦ ds
  | stats_bad_since ↦ []
  | stats_bad_until ↦ []
  | stats_bad_choice ↦ []
  | stats_missing ↦ []
  | stats_db_error ↦ []
]

-- the one domain is listed
one_listed : length listed_domains ≡ 1
unfolding domains_request list_domains lt_int add_int beq dmarcparser.Report.Parse.build_report
    dmarcparser.Report.Fields.trunc dmarcparser.Text.trim_space
one_listed = refl

domains_answered :
    domains_request test_reals beq stats_host false test_database ≡ stats_ok listed_domains
unfolding domains_request list_domains lt_int add_int beq dmarcparser.Report.Parse.build_report
    dmarcparser.Report.Fields.trunc dmarcparser.Text.trim_space
domains_answered = refl

domains_request-health_request_example :
    All (HasPage test_reals stats_host test_database) listed_domains
domains_request-health_request_example =
    domains_request-health_request test_reals beq stats_host false test_database domains_answered

abbrev known_sender : FailSource
known_sender = record {
  fail_ip = codes "192.0.2.7";
  fail_msgs = pos 400;
  fail_ptr = none;
  fail_org = none;
  fail_class = some (codes "esp");
}

recommend-advances_example :
    advances (recommend test_reals none none (pos 1000) (pos 7) (known_sender ∷ [])).0 ≡ (
      (has_mail (pos 7)
        && (not (test_reals.less (pos 1000) (test_reals.literal 995 1000))
            && all_tolerated (known_sender ∷ [])))
      && not (rejects_all none none))
recommend-advances_example =
    recommend-advances test_reals none none (pos 1000) (pos 7) (known_sender ∷ [])

abbrev every_day : StatsFilter
every_day = record { stats_domain = []; stats_since = none; stats_until = none }

abbrev two_points : List (TimeseriesPoint ℤ)
two_points = map (point_of test_reals) ((pos 88, λ c. pos 5) ∷ (pos 95, λ c. pos 15) ∷ [])

weeks_read : stats_timeseries test_reals every_day by_week test_database.agg ≡ some two_points
unfolding stats_timeseries lt_int dmarcparser.Rollup.same_int
weeks_read = refl

stats_timeseries-sum_example :
    All
      (λ x.
        sum_by x.1 two_points
        ≡ sum_by (λ row. row.1.msgs x.0) (filtered (in_series every_day) test_database.agg))
      point_columns
stats_timeseries-sum_example =
    stats_timeseries-sum test_reals every_day by_week test_database.agg weeks_read
