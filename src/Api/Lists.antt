-- ===== src/Api/Lists.antt =====
-- parser/internal/api/api_reports2.go: the handlers of TLS and failure reports and of selectors. The
-- parsers of times and numbers are those of Api/Reports; `fails` tells whether a query fails.
use dmarcparser.Base.{if◌then◌else◌, ℕ, Bool, Option, none, some, List}
use dmarcparser.Api.Reports.{
  Parsers, ReadAnswer, bad_since, bad_until, bad_number, not_found, read_db_error, read_ok, or_bad,
  parse_time, limit_or, offset_or,
}
use dmarcparser.Base.Int.{ℤ, pos, negsuc}
use dmarcparser.Forensic.{ForensicReport}
use dmarcparser.Selectors.{DkimRow}
use dmarcparser.Selectors.Inventory.{SelectorKey, SelectorRow, domain_selectors}
use dmarcparser.Store.Reports.{ReportRow}
use dmarcparser.Store.TlsListed.{
  TlsFilter, TlsSummary, TlsDetail, list_tls, get_tls, ForensicFilter, list_forensic, get_forensic,
}
use dmarcparser.Store.TlsReports.{TlsTables, ForensicTable}
use dmarcparser.Text.{Bytes}

pub record PageQuery : Type 0 where
  pub pq_domain : Bytes
  pub pq_org : Bytes
  pub pq_since : Bytes
  pub pq_until : Bytes
  pub pq_limit : Bytes
  pub pq_offset : Bytes

module _ (ps : Parsers) where
  -- `pageParams`
  abbrev pub page_params : PageQuery → ℕ × ℕ
  page_params q = (limit_or 500 50 (ps.atoi q.pq_limit), offset_or (ps.atoi q.pq_offset))

  abbrev pub tls_filter_of : PageQuery → Option ℤ → Option ℤ → TlsFilter
  tls_filter_of q since until = record {
    tls_domain = q.pq_domain;
    tls_org = q.pq_org;
    tls_since = since;
    tls_until = until;
    tls_limit = (page_params q).0;
    tls_offset = (page_params q).1;
  }

  abbrev pub listed_tls :
      Bool → Option (List TlsSummary) → TlsFilter → ReadAnswer (List TlsSummary × TlsFilter)
  listed_tls fails rows f =
      if fails then read_db_error else or_bad read_db_error rows (λ rows. read_ok (rows, f))

  -- `listTLSRPT`
  unfoldable pub list_tls_request :
      (ℕ → ℤ) → Bool → PageQuery → TlsTables → ReadAnswer (List TlsSummary × TlsFilter)
  unfolding parse_time list_tls
  list_tls_request seen fails q t = or_bad bad_since (parse_time ps q.pq_since) (λ since.
      or_bad bad_until (parse_time ps q.pq_until)
        (λ until. let f = tls_filter_of q since until in listed_tls fails (list_tls seen f t) f))

  abbrev pub forensic_filter_of : PageQuery → Option ℤ → Option ℤ → ForensicFilter
  forensic_filter_of q since until = record {
    forensic_domain = q.pq_domain;
    forensic_since = since;
    forensic_until = until;
    forensic_limit = (page_params q).0;
    forensic_offset = (page_params q).1;
  }

  -- `listForensic`
  unfoldable pub list_forensic_request :
      (ℕ → ℤ)
      → Bool
      → PageQuery
      → ForensicTable
      → ReadAnswer (List (ℕ × ForensicReport) × ForensicFilter)
  unfolding parse_time list_forensic
  list_forensic_request seen fails q t = or_bad bad_since (parse_time ps q.pq_since) (λ since.
      or_bad bad_until (parse_time ps q.pq_until) (λ until.
        let f = forensic_filter_of q since until in
        if fails then read_db_error else read_ok (list_forensic seen f t, f)))

  abbrev pub one_read : {A : Type 0} → Bool → Option A → ReadAnswer A
  one_read fails d = if fails then read_db_error else or_bad not_found d (λ d. read_ok d)

  -- `getTLSRPT`; no row has a negative id
  unfoldable pub get_tls_request : Bool → Bytes → TlsTables → ReadAnswer TlsDetail
  unfolding get_tls
  get_tls_request fails id t = elim (ps.atoi id) [
    | none ↦ bad_number
    | some (negsuc n) ↦ one_read fails none
    | some (pos n) ↦ one_read fails (get_tls n t)
  ]

  -- `getForensic`
  unfoldable pub get_forensic_request : Bool → Bytes → ForensicTable → ReadAnswer ForensicReport
  unfolding get_forensic
  get_forensic_request fails id t = elim (ps.atoi id) [
    | none ↦ bad_number
    | some (negsuc n) ↦ one_read fails none
    | some (pos n) ↦ one_read fails (get_forensic n t)
  ]

-- `selectors`
unfoldable pub selectors_request :
    (SelectorKey → SelectorKey → Bool)
    → Bool
    → Bytes
    → List ReportRow
    → List DkimRow
    → ReadAnswer (List (SelectorKey × SelectorRow))
unfolding domain_selectors
selectors_request key_le fails domain reports rows =
    if fails then read_db_error else read_ok (domain_selectors key_le domain reports rows)
