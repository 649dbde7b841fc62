-- ===== src/Api/Stats.antt =====
-- parser/internal/api/api_stats.go: the five handlers of the statistics. `parseTime` and `strconv.Atoi`
-- are those of Api/Reports; a query fails as a whole, or for a sum that does not fit.
pub mod Scores
use dmarcparser.Base.{
  if◌then◌else◌, is_empty, ltb, leb, ℕ, Bool, ◌&&◌, ◌||◌, Option, none, some, List,
}
use dmarcparser.Base.Int.{ℤ, pos, negsuc}
use dmarcparser.Api.Reports.{Parsers, parse_time}
use dmarcparser.Store.Reports.{Tables}
use dmarcparser.Text.{Bytes, codes, beq}
use dmarcparser.Export.{HostOf}
use dmarcparser.Stats.{Reals}
use dmarcparser.Stats.Health.{HealthInputs, HealthComponent, compute_health}
use dmarcparser.Stats.Domains.{Database, domain_health_inputs}
use dmarcparser.Stats.Domains.Overview.{DomainSummary, list_domains}
use dmarcparser.Stats.Readiness.{Readiness, domain_readiness}
use dmarcparser.Stats.Series.{
  StatsFilter, BucketSize, by_day, by_week, TimeseriesPoint, stats_timeseries,
}
use dmarcparser.Stats.Top.{Dimension, by_ip, by_org, by_header_from, TopRow, stats_top}

pub data StatsAnswer (A : Type 0) : Type 0 where
  stats_bad_since stats_bad_until stats_bad_choice stats_missing stats_db_error : StatsAnswer A
  stats_ok : A → StatsAnswer A

-- an early return where there is no value
abbrev pub or_answer :
    {A B : Type 0} → StatsAnswer B → Option A → (A → StatsAnswer B) → StatsAnswer B
or_answer bad none next = bad
or_answer bad (some a) next = next a

-- a query, which may fail
abbrev pub queried : {A B : Type 0} → Bool → Option A → (A → StatsAnswer B) → StatsAnswer B
queried fails o next = if fails then stats_db_error else or_answer stats_db_error o next

-- the parameters of a request; an absent one is empty
pub record StatsQuery : Type 0 where
  pub sq_domain : Bytes
  pub sq_since : Bytes
  pub sq_until : Bytes
  pub sq_bucket : Bytes
  pub sq_dimension : Bytes
  pub sq_limit : Bytes
  pub sq_failing : Bytes

abbrev pub bucket_of : Bytes → Option BucketSize
bucket_of s =
    if is_empty s || beq s (codes "day")
    then some by_day
    else if beq s (codes "week")
    then some by_week
    else none

abbrev pub dimension_of : Bytes → Option Dimension
dimension_of s =
    if is_empty s || beq s (codes "ip")
    then some by_ip
    else if beq s (codes "org")
    then some by_org
    else if beq s (codes "header_from")
    then some by_header_from
    else none

-- `v > 0 && v <= 100`, or 20
abbrev pub top_limit : Option ℤ → ℕ
top_limit none = 20
top_limit (some (pos n)) = if ltb 0 n && leb n 100 then n else 20
top_limit (some (negsuc n)) = 20

module _ (ps : Parsers) where
  -- `statsFilter`
  unfoldable pub stats_filter :
      {A : Type 0} → StatsQuery → (StatsFilter → StatsAnswer A) → StatsAnswer A
  unfolding parse_time
  stats_filter q next = or_answer stats_bad_since (parse_time ps q.sq_since) (λ since.
      or_answer stats_bad_until (parse_time ps q.sq_until) (λ until.
        next (record { stats_domain = q.sq_domain; stats_since = since; stats_until = until })))

  -- `timeseries`
  unfoldable pub timeseries_request :
      {F : Type 0}
      → Reals F
      → Bool
      → StatsQuery
      → Database
      → StatsAnswer (BucketSize × List (TimeseriesPoint F))
  unfolding stats_filter stats_timeseries
  timeseries_request fl fails q db = stats_filter q (λ f.
      or_answer stats_bad_choice (bucket_of q.sq_bucket) (λ size.
        queried fails (stats_timeseries fl f size db.agg) (λ points. stats_ok (size, points))))

  -- `top`
  unfoldable pub top_request :
      (Bytes → Bytes → Bool)
      → HostOf
      → Bool
      → StatsQuery
      → Tables
      → StatsAnswer (Dimension × List TopRow)
  unfolding stats_filter stats_top
  top_request text_le host fails q t = stats_filter q (λ f.
      or_answer stats_bad_choice (dimension_of q.sq_dimension) (λ dim.
        queried fails
          (stats_top text_le host f dim (beq q.sq_failing (codes "true"))
            (top_limit (ps.atoi q.sq_limit)) t)
          (λ rows. stats_ok (dim, rows))))

module _ {F : Type 0} (fl : Reals F) where
  -- `domains`
  unfoldable pub domains_request :
      (Bytes → Bytes → Bool) → HostOf → Bool → Database → StatsAnswer (List (DomainSummary F))
  unfolding list_domains
  domains_request text_le host fails db =
      queried fails (list_domains fl text_le host db) (λ ds. stats_ok ds)

  -- `health`
  unfoldable pub health_request :
      HostOf → Bool → Database → Bytes → StatsAnswer (ℤ × List (HealthComponent F))
  unfolding domain_health_inputs compute_health
  health_request host fails db domain =
      queried fails (domain_health_inputs host db domain)
        (λ o. or_answer stats_missing o (λ x. stats_ok (compute_health fl x)))

  -- `readiness`
  unfoldable pub readiness_request : HostOf → Bool → Database → Bytes → StatsAnswer (Readiness F)
  unfolding domain_readiness
  readiness_request host fails db domain =
      queried fails (domain_readiness fl host db domain)
        (λ o. or_answer stats_missing o (λ rd. stats_ok rd))
