-- ===== src/Api/Reports.antt =====
-- The read handlers of parser/internal/api/api.go (`listReports`, `getReport`, `healthz`, `parseTime`)
-- and `ackSource` of api/api_intel.go. `strconv` and `time.Parse` are parameters.
pub mod Bounded
use dmarcparser.Base.{
  ltb, leb, ◌==◌, if◌then◌else◌, is_empty, ℕ, ◌+◌, ◌*◌, Bool, true, not, ◌&&◌, Option, none, some,
  List,
}
use dmarcparser.Base.Int.{ℤ, pos, negsuc}
use dmarcparser.Report.Address.{Net}
use dmarcparser.Store.Listed.{ListFilter, ReportSummary, list_reports, ReportDetail, get_report}
use dmarcparser.Store.Reports.{Tables}
use dmarcparser.Store.Sources.{DomainSource, ack_source}
use dmarcparser.Text.{Bytes}

pub data ReadAnswer {ℓ} (A : Type ℓ) : Type ℓ where
  bad_since bad_until bad_number not_found read_db_error : ReadAnswer A
  read_ok : A → ReadAnswer A

-- `time.Parse` by each of the two layouts, and `strconv.Atoi` and `ParseInt`
pub record Parsers : Type 0 where
  pub rfc3339 : Bytes → Option ℤ
  pub iso_day : Bytes → Option ℤ
  pub atoi : Bytes → Option ℤ

-- the query of a request; a missing parameter is empty
pub record ListQuery : Type 0 where
  pub q_domain : Bytes
  pub q_org : Bytes
  pub q_limit : Bytes
  pub q_offset : Bytes
  pub q_since : Bytes
  pub q_until : Bytes

abbrev pub first_some {ℓ} : {A : Type ℓ} → Option A → Option A → Option A
first_some none b = b
first_some (some a) b = some a

-- `err == nil && v > 0 && v <= most`, else the default
abbrev pub limit_or : ℕ → ℕ → Option ℤ → ℕ
limit_or most def (some (pos n)) = if ltb 0 n && leb n most then n else def
limit_or most def (some (negsuc n)) = def
limit_or most def none = def

abbrev pub offset_or : Option ℤ → ℕ
offset_or (some (pos n)) = n
offset_or (some (negsuc n)) = 0
offset_or none = 0

abbrev pub or_bad {ℓ κ} :
    {A : Type ℓ} {B : Type κ} → ReadAnswer B → Option A → (A → ReadAnswer B) → ReadAnswer B
or_bad e none k = e
or_bad e (some a) k = k a

abbrev pub time_answer : Option ℤ → Option (Option ℤ)
time_answer none = none
time_answer (some t) = some (some t)

module _ (ps : Parsers) where
  -- `parseTime`: `none` for an error
  unfoldable pub parse_time : Bytes → Option (Option ℤ)
  parse_time s =
      if is_empty s then some none else time_answer (first_some (ps.rfc3339 s) (ps.iso_day s))

  abbrev pub filter_of : ListQuery → Option ℤ → Option ℤ → ListFilter
  filter_of q since until = record {
    of_domain = q.q_domain;
    of_org = q.q_org;
    since = since;
    until = until;
    limit = limit_or 500 50 (ps.atoi q.q_limit);
    offset = offset_or (ps.atoi q.q_offset);
  }

  abbrev pub listed : Bool → Tables → ListFilter → ReadAnswer (List ReportSummary × ListFilter)
  listed fails t f =
      if fails
      then read_db_error
      else or_bad read_db_error (list_reports f t) (λ rows. read_ok (rows, f))

  -- `listReports`
  unfoldable pub list_request :
      Bool → ListQuery → Tables → ReadAnswer (List ReportSummary × ListFilter)
  unfolding parse_time list_reports
  list_request fails q t = or_bad bad_since (parse_time q.q_since) (λ since.
      or_bad bad_until (parse_time q.q_until) (λ until. listed fails t (filter_of q since until)))

  abbrev pub detail_answer : Bool → Option ReportDetail → ReadAnswer ReportDetail
  detail_answer fails d = if fails then read_db_error else or_bad not_found d read_ok

  -- `getReport`; no row has a negative serial
  unfoldable pub get_request : Bool → Net → Bytes → Tables → ReadAnswer ReportDetail
  unfolding get_report
  get_request fails net serial t = elim (ps.atoi serial) [
    | none ↦ bad_number
    | some (negsuc n) ↦ detail_answer fails none
    | some (pos n) ↦ detail_answer fails (get_report net n t)
  ]

-- `ackSource`: the decoded body, and `netip.ParseAddr` with `Unmap` and `String`
pub data AckAnswer : Type 0 where
  ack_bad_json ack_invalid ack_db_error ack_missing acked_ok : AckAnswer

abbrev pub ack_answer : Bool → AckAnswer
ack_answer found = if found then acked_ok else ack_missing

unfoldable pub ack_request :
    (Bytes → Option Bytes)
    → Bool
    → Option (Bytes × Bytes)
    → List DomainSource
    → AckAnswer × List DomainSource
unfolding ack_source
ack_request parse fails none rows = (ack_bad_json, rows)
ack_request parse fails (some (domain, ip)) rows = elim (parse ip) [
  | none ↦ (ack_invalid, rows)
  | some addr ↦
      let r = ack_source domain addr rows in
      if is_empty domain
      then (ack_invalid, rows)
      else if fails
      then (ack_db_error, rows)
      else (ack_answer r.0, r.1)
]

pub data PollerHealth : Type 0 where
  poller_ok pending_first poll_too_old poller_off : PollerHealth

pub record Health : Type 0 where
  pub is_degraded : Bool
  pub db_ok : Bool
  pub poller_health : PollerHealth
  pub health_code : ℕ

abbrev pub db_health : Bool → Health
db_health pings = record {
  is_degraded = not pings;
  db_ok = pings;
  poller_health = poller_ok;
  health_code = if pings then 200 else 503;
}

-- three intervals and two minutes
abbrev pub grace : ℕ → ℕ
grace poll_interval = 3 * poll_interval + 2 * 60

-- `healthz`, without the states of the alerts; times and the interval are in seconds
unfoldable pub healthz : Bool → Bytes → ℕ → ℕ → ℕ → Health
healthz pings imap_addr poll_interval last_poll_success now =
    let h = db_health pings in
    if is_empty imap_addr
    then record h { poller_health = poller_off }
    else if last_poll_success == 0
    then record h { poller_health = pending_first }
    else if ltb (last_poll_success + grace poll_interval) now
    then record h { is_degraded = true; poller_health = poll_too_old; health_code = 503 }
    else h
