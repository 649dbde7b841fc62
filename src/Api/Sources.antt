-- ===== src/Api/Sources.antt =====
-- `listSources` and `domainSources` of parser/internal/api/api_intel.go. The parsers of times and numbers
-- are those of Api/Reports; `since` reaches the query in whole seconds.
use dmarcparser.Api.Reports.{
  Parsers, ReadAnswer, bad_since, read_db_error, read_ok, or_bad, parse_time, limit_or,
}
use dmarcparser.Base.{is_empty, if◌then◌else◌, ℕ, Bool, Option, none, some, List}
use dmarcparser.Base.Int.{ℤ, pos, negsuc}
use dmarcparser.Store.Sources.{DomainSource, IpMeta}
use dmarcparser.Store.Sources.Listed.{
  SourceFilter, SourceTotals, SourceWithMeta, list_sources, domain_sources,
}
use dmarcparser.Text.{Bytes, codes, beq}

-- `v > 0`, or 0
abbrev pub min_failed_of : Option ℤ → ℤ
min_failed_of none = pos 0
min_failed_of (some (pos n)) = pos n
min_failed_of (some (negsuc n)) = pos 0

-- every row is seen after a time before 1970
abbrev pub since_seconds : Option ℤ → Option ℕ
since_seconds none = none
since_seconds (some (pos n)) = some n
since_seconds (some (negsuc n)) = some 0

pub record SourceQuery : Type 0 where
  pub source_query_domain : Bytes
  pub source_query_limit : Bytes
  pub source_query_min_failed : Bytes
  pub source_query_since : Bytes

module _ (ps : Parsers) where
  abbrev pub source_filter_of : SourceQuery → Option ℤ → SourceFilter
  source_filter_of q since = record {
    source_filter_domain = q.source_query_domain;
    min_failed = min_failed_of (ps.atoi q.source_query_min_failed);
    source_since = since_seconds since;
    source_limit = limit_or 1000 100 (ps.atoi q.source_query_limit);
  }

  -- `listSources`
  unfoldable pub list_sources_request :
      Bool
      → SourceQuery
      → List IpMeta
      → List DomainSource
      → ReadAnswer (List ((Bytes × SourceTotals) × Option IpMeta) × ℕ)
  unfolding parse_time list_sources
  list_sources_request fails q metas rows =
      or_bad bad_since (parse_time ps q.source_query_since) (λ since.
        let f = source_filter_of q since in
        if fails
        then read_db_error
        else or_bad read_db_error (list_sources f metas rows)
            (λ out. read_ok (out, f.source_limit)))

pub data SourcesAnswer : Type 0 where
  missing_domain sources_db_error : SourcesAnswer
  sources_ok : List SourceWithMeta → SourcesAnswer

-- `domainSources`
unfoldable pub domain_sources_request :
    Bool → Bytes → Bytes → List IpMeta → List DomainSource → SourcesAnswer
unfolding domain_sources
domain_sources_request fails domain unacked metas rows =
    if is_empty domain
    then missing_domain
    else if fails
    then sources_db_error
    else sources_ok (domain_sources domain (beq unacked (codes "true")) metas rows)
