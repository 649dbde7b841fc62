-- ===== src/Stats/Series.antt =====
-- `StatsTimeseries` of store_stats.go, where the query itself succeeds. The time zone of the database is
-- taken to be UTC.
pub mod Totals
use dmarcparser.Base.{
  if◌then◌else◌, is_empty, ◌==◌, ◌+◌, ◌-◌, ◌*◌, ◌%◌, Bool, true, ◌&&◌, Option, none, some, List, [],
  map,
}
use dmarcparser.Base.Int.{ℤ, pos, negsuc, add_int, le_int, is_bigint}
use dmarcparser.Rollup.{
  Column, all_msgs, aligned_msgs, none_msgs, quarantine_msgs, reject_msgs, AggRow, day_of, same_int,
}
use dmarcparser.Store.Listed.{is_or_any}
use dmarcparser.Text.{Bytes}
use dmarcparser.Stats.{Reals, ratio, group_by, filtered, all_of, sort_by}
use dmarcparser.Stats.Domains.{domain_of_day}

pub record StatsFilter : Type 0 where
  pub stats_domain : Bytes
  pub stats_since : Option ℤ
  pub stats_until : Option ℤ

pub data BucketSize : Type 0 where
  by_day by_week : BucketSize

pub record TimeseriesPoint (F : Type 0) : Type 0 where
  pub bucket_day : ℤ
  pub point_total : ℤ
  pub point_aligned : ℤ
  pub point_rate : F
  pub point_none : ℤ
  pub point_quarantine : ℤ
  pub point_reject : ℤ

-- `date_trunc`: weeks begin on Mondays, and day 0 was a Thursday
unfoldable pub bucket_start : BucketSize → ℤ → ℤ
unfolding add_int
bucket_start by_day d = d
bucket_start by_week (pos n) =
    if (n + 3) % 7 == 0 then pos n else add_int (pos n) (negsuc ((n + 3) % 7 - 1))
bucket_start by_week (negsuc n) = negsuc (n + (6 * n + 2) % 7)

abbrev pub since_day : Option ℤ → ℤ → Bool
since_day none d = true
since_day (some t) d = le_int (day_of t) d

abbrev pub until_day : Option ℤ → ℤ → Bool
until_day none d = true
until_day (some t) d = le_int d (day_of t)

abbrev pub in_series : StatsFilter → AggRow → Bool
in_series f row =
    is_or_any f.stats_domain (domain_of_day row)
    && (since_day f.stats_since row.0.0 && until_day f.stats_until row.0.0)

abbrev pub Sums : Type 0
Sums = Column → ℤ

abbrev pub add_row : AggRow → Sums → Sums
add_row row s c = add_int (s c) (row.1.msgs c)

-- the five casts to bigint
abbrev pub fits_point : Sums → Bool
fits_point s =
    is_bigint (s all_msgs)
    && (is_bigint (s aligned_msgs)
        && (is_bigint (s none_msgs)
            && (is_bigint (s quarantine_msgs) && is_bigint (s reject_msgs))))

abbrev pub bucket_groups : BucketSize → StatsFilter → List AggRow → List (ℤ × Sums)
bucket_groups size f agg =
    group_by same_int (λ c. pos 0) (λ row. bucket_start size row.0.0) add_row
      (filtered (in_series f) agg) []

module _ {F : Type 0} (fl : Reals F) where
  abbrev pub point_of : ℤ × Sums → TimeseriesPoint F
  point_of (day, s) = record {
    bucket_day = day;
    point_total = s all_msgs;
    point_aligned = s aligned_msgs;
    point_rate = ratio fl (s aligned_msgs) (s all_msgs);
    point_none = s none_msgs;
    point_quarantine = s quarantine_msgs;
    point_reject = s reject_msgs;
  }

  -- `StatsTimeseries`; `none` where a sum does not fit
  unfoldable pub stats_timeseries :
      StatsFilter → BucketSize → List AggRow → Option (List (TimeseriesPoint F))
  unfolding group_by filtered all_of sort_by bucket_start
  stats_timeseries f size agg =
      let gs = bucket_groups size f agg in
      if all_of (λ g. fits_point g.1) gs
      then some (map point_of (sort_by (λ a b. le_int a.0 b.0) gs))
      else none
