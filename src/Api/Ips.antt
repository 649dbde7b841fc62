-- ===== src/Api/Ips.antt =====
-- `getIP` of parser/internal/api/api_intel.go, with `GetIPMeta` and `IPReportActivity` of
-- store/store_intel.go. `netip.ParseAddr` with `Unmap` is a parameter, and gives the two forms of an
-- address; the records of a report come in the order of their ids.
use dmarcparser.Base.{
  take, is_empty, ◌==◌, if◌then◌else◌, ℕ, Bool, false, ◌&&◌, Option, none, some, List, [], ◌∷◌,
  ◌++◌,
}
use dmarcparser.Base.Int.{le_int}
use dmarcparser.Report.{Record}
use dmarcparser.Stats.{sort_by}
use dmarcparser.Store.Reports.{ReportRow, RecordRow, Tables, records_of}
use dmarcparser.Store.Sources.{DomainSource, IpMeta, find_meta}
use dmarcparser.Store.Sources.Listed.{SourceWithMeta, ip_domain_sources}
use dmarcparser.Text.{Bytes, beq}

-- `Is4`, or the sixteen bytes; with the printed form
pub data Address : Type 0 where
  address4 : ℕ → Bytes → Address
  address16 : Bytes → Bytes → Address

abbrev pub printed : Address → Bytes
printed (address4 n s) = s
printed (address16 b s) = s

abbrev pub same_column4 : ℕ → Option ℕ → Bool
same_column4 n none = false
same_column4 n (some m) = m == n

abbrev pub same_column16 : Bytes → Option Bytes → Bool
same_column16 b none = false
same_column16 b (some c) = beq c b

-- the condition on `rr.ip` or `rr.ip6`
abbrev pub is_from : Address → Record → Bool
is_from (address4 n s) rec = same_column4 n rec.ipv4
is_from (address16 b s) rec = same_column16 b rec.ipv6

abbrev pub Activity : Type 0
Activity = ReportRow × Record

-- the records of a report, the last id first
unfoldable pub activity_in : Address → ReportRow → List Record → List Activity
activity_in a row [] = []
activity_in a row (rec ∷ recs) =
    let rest = activity_in a row recs in if is_from a rec then rest ++ (row, rec) ∷ [] else rest

unfoldable pub activity_rows : Address → List RecordRow → List ReportRow → List Activity
unfolding activity_in records_of
activity_rows a recs [] = []
activity_rows a recs (row ∷ rows) =
    activity_rows a recs rows ++ activity_in a row (records_of row.serial recs)

-- `ORDER BY r.mindate DESC, rr.id DESC`: ids rise with the serials, so the later report comes first
abbrev pub activity_ahead : Activity → Activity → Bool
activity_ahead (a, x) (b, y) = le_int b.report.begin a.report.begin

-- `IPReportActivity`
unfoldable pub ip_report_activity : Address → ℕ → Tables → List Activity
unfolding activity_rows sort_by
ip_report_activity a limit t =
    take limit (sort_by activity_ahead (activity_rows a t.records t.reports))

pub data IpAnswer : Type 0 where
  bad_ip ip_db_error ip_not_seen : IpAnswer
  ip_ok : Bytes → Option IpMeta → List SourceWithMeta → List Activity → IpAnswer

abbrev pub ip_answer : Bytes → Option IpMeta → List SourceWithMeta → List Activity → IpAnswer
ip_answer ip (some m) domains reports = ip_ok ip (some m) domains reports
ip_answer ip none domains reports =
    if is_empty domains && is_empty reports then ip_not_seen else ip_ok ip none domains reports

-- `getIP`
unfoldable pub get_ip_request :
    (Bytes → Option Address) → Bool → Bytes → Tables → List IpMeta → List DomainSource → IpAnswer
unfolding find_meta ip_domain_sources ip_report_activity
get_ip_request parse fails s t metas rows = elim (parse s) [
  | none ↦ bad_ip
  | some a ↦
      if fails
      then ip_db_error
      else ip_answer (printed a) (find_meta (printed a) metas)
          (ip_domain_sources (printed a) metas rows) (ip_report_activity a 100 t)
]
