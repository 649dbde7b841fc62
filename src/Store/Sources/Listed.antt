-- ===== src/Store/Sources/Listed.antt =====
-- `ListSources`, `DomainSources` and `IPDomainSources` of parser/internal/store/store_intel.go, where the
-- queries themselves succeed; rows that are level keep the order of the table.
use dmarcparser.Base.{
  if◌then◌else◌, take, any, ltb, leb, ℕ, suc, Bool, true, false, not, ◌&&◌, ◌||◌, Option, none,
  some, List, [], ◌∷◌, map, zero,
}
use dmarcparser.Base.Int.{ℤ, pos, negsuc, add_int, lt_int, le_int, is_bigint}
use dmarcparser.Stats.{group_by, filtered, all_of, sort_by}
use dmarcparser.Store.Listed.{is_or_any}
use dmarcparser.Store.Sources.{DomainSource, IpMeta, find_meta}
use dmarcparser.Text.{Bytes, beq}

-- a row of `domain_source` with the row of `ip_meta`, if there is one
abbrev pub SourceWithMeta : Type 0
SourceWithMeta = DomainSource × Option IpMeta

abbrev pub with_meta : List IpMeta → DomainSource → SourceWithMeta
with_meta metas row = (row, find_meta row.source_ip metas)

-- `ORDER BY ds.last_seen DESC`
abbrev pub seen_later : DomainSource → DomainSource → Bool
seen_later a b = leb b.last_seen a.last_seen

-- `ds.domain = $1 AND (NOT $2 OR NOT ds.acked)`
abbrev pub to_review : Bytes → Bool → DomainSource → Bool
to_review domain unacked row = beq row.source_domain domain && (not unacked || not row.acked)

-- `DomainSources`
unfoldable pub domain_sources : Bytes → Bool → List IpMeta → List DomainSource → List SourceWithMeta
unfolding filtered sort_by find_meta
domain_sources domain unacked metas rows =
    map (with_meta metas) (sort_by seen_later (filtered (to_review domain unacked) rows))

-- `IPDomainSources`
unfoldable pub ip_domain_sources : Bytes → List IpMeta → List DomainSource → List SourceWithMeta
unfolding filtered sort_by find_meta
ip_domain_sources ip metas rows =
    map (with_meta metas) (sort_by seen_later (filtered (λ row. beq row.source_ip ip) rows))

pub record SourceFilter : Type 0 where
  pub source_filter_domain : Bytes
  pub min_failed : ℤ
  pub source_since : Option ℕ
  pub source_limit : ℕ

pub record SourceTotals : Type 0 where
  pub msgs_total : ℤ
  pub msgs_failed : ℤ
  pub source_domains : List Bytes
  pub source_first : Option ℕ
  pub source_last : Option ℕ

abbrev pub no_totals : SourceTotals
no_totals = record {
  msgs_total = pos 0;
  msgs_failed = pos 0;
  source_domains = [];
  source_first = none;
  source_last = none;
}

abbrev pub negated : ℤ → ℤ
negated (pos zero) = pos 0
negated (pos (suc n)) = negsuc n
negated (negsuc n) = pos (suc n)

-- `ds.msg_count - ds.aligned_count`
abbrev pub failed_of : DomainSource → ℤ
failed_of row = add_int row.msg_count (negated row.aligned_count)

abbrev pub least_of : ℕ → Option ℕ → Option ℕ
least_of t none = some t
least_of t (some s) = if ltb t s then some t else some s

abbrev pub most_of : ℕ → Option ℕ → Option ℕ
most_of t none = some t
most_of t (some s) = if ltb s t then some t else some s

abbrev pub add_to_totals : DomainSource → SourceTotals → SourceTotals
add_to_totals row s = record {
  msgs_total = add_int s.msgs_total row.msg_count;
  msgs_failed = add_int s.msgs_failed (failed_of row);
  source_domains =
      if any (λ d. beq d row.source_domain) s.source_domains
      then s.source_domains
      else row.source_domain ∷ s.source_domains;
  source_first = least_of row.first_seen s.source_first;
  source_last = most_of row.last_seen s.source_last;
}

abbrev pub last_seen_since : Option ℕ → DomainSource → Bool
last_seen_since none row = true
last_seen_since (some t) row = leb t row.last_seen

-- `ORDER BY 3 DESC, 2 DESC`
abbrev pub totals_ahead : Bytes × SourceTotals → Bytes × SourceTotals → Bool
totals_ahead (ip, a) (ip', b) =
    if lt_int b.msgs_failed a.msgs_failed
    then true
    else if lt_int a.msgs_failed b.msgs_failed
    then false
    else le_int b.msgs_total a.msgs_total

abbrev pub fits_totals : Bytes × SourceTotals → Bool
fits_totals (ip, s) = is_bigint s.msgs_total && is_bigint s.msgs_failed

-- `ListSources`: each address once, since `ip_meta` has it at most once; `none` where a sum of the page
-- does not fit an int64
unfoldable pub list_sources :
    SourceFilter
    → List IpMeta
    → List DomainSource
    → Option (List ((Bytes × SourceTotals) × Option IpMeta))
unfolding group_by filtered all_of sort_by find_meta
list_sources f metas rows =
    let gs =
      group_by beq no_totals (λ row. row.source_ip) add_to_totals
        (filtered
          (λ row.
            is_or_any f.source_filter_domain row.source_domain
            && last_seen_since f.source_since row)
          rows)
        [] in
    let page =
      take f.source_limit
        (sort_by totals_ahead (filtered (λ g. le_int f.min_failed g.1.msgs_failed) gs)) in
    if all_of fits_totals page then some (map (λ g. (g, find_meta g.0 metas)) page) else none
