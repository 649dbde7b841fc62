-- ===== src/Export.antt =====
-- parser/internal/export/export.go: rows of report and record, streamed as CSV or JSON lines. What
-- PostgreSQL prints for an address, and `encoding/csv` and `encoding/json`, are parameters; the rows
-- of `report` are given in the order of their serials, and those of `rptrecord` in that of their ids.
pub mod Streamed
pub mod Flushed
pub mod Complete
pub mod Raw
use dmarcparser.Base.{
  ◌==◌, ◌%◌, if◌then◌else◌, ℕ, ◌+◌, Bool, true, false, ◌&&◌, Option, none, some, List, [], ◌∷◌,
  ◌++◌, map,
}
use dmarcparser.Base.Int.{ℤ, pos}
use dmarcparser.Report.{Record}
use dmarcparser.Store.Listed.{is_or_any, ends_after, begins_before, find_serial}
use dmarcparser.Store.Reports.{ReportRow, RecordRow, Tables, records_of}
use dmarcparser.Text.{Bytes, codes, beq}

pub record Filter : Type 0 where
  pub domain : Bytes
  pub org : Bytes
  pub since : Option ℤ
  pub until : Option ℤ

-- `row`
pub record ExportRow : Type 0 where
  pub serial : ℕ
  pub domain : Bytes
  pub org : Bytes
  pub report_id : Bytes
  pub date_begin : Option ℤ
  pub date_end : Option ℤ
  pub source_ip : Option Bytes
  pub count : ℤ
  pub disposition : Option Bytes
  pub reason : Option Bytes
  pub dkim_align : Option Bytes
  pub spf_align : Option Bytes
  pub dkim_domain : Option Bytes
  pub dkim_result : Option Bytes
  pub spf_domain : Option Bytes
  pub spf_result : Option Bytes
  pub header_from : Option Bytes

abbrev pub csv_header : List Bytes
csv_header = map codes (
    "serial" ∷ "domain" ∷ "org" ∷ "report_id" ∷ "date_begin" ∷ "date_end" ∷ "source_ip" ∷ "count"
    ∷ "disposition" ∷ "reason" ∷ "dkim_align" ∷ "spf_align" ∷ "dkim_domain" ∷ "dkim_result"
    ∷ "spf_domain" ∷ "spf_result" ∷ "header_from" ∷ [])

-- the `WHERE` of `exportSQL`
unfoldable pub wanted : Filter → ReportRow → Bool
wanted f row =
    is_or_any f.domain row.report.domain
    && (is_or_any f.org row.report.org
        && (ends_after f.since row.report.end && begins_before f.until row.report.begin))

-- `host` of the address the columns `ip` and `ip6` hold
abbrev pub HostOf : Type 0
HostOf = Option ℕ → Option Bytes → Option Bytes

abbrev pub export_row : HostOf → ReportRow → Record → ExportRow
export_row host row rec = record {
  serial = row.serial;
  domain = row.report.domain;
  org = row.report.org;
  report_id = row.report.report_id;
  date_begin = some row.report.begin;
  date_end = some row.report.end;
  source_ip = host rec.ipv4 rec.ipv6;
  count = rec.count;
  disposition = rec.disposition;
  reason = rec.reason;
  dkim_align = some rec.dkim_align;
  spf_align = some rec.spf_align;
  dkim_domain = rec.dkim_domain;
  dkim_result = rec.dkim_result;
  spf_domain = rec.spf_domain;
  spf_result = rec.spf_result;
  header_from = rec.header_from;
}

-- `exportSQL`
unfoldable pub export_rows : HostOf → Filter → List RecordRow → List ReportRow → List ExportRow
unfolding wanted records_of
export_rows host f recs [] = []
export_rows host f recs (row ∷ rows) =
    let rest = export_rows host f recs rows in
    if wanted f row then map (export_row host row) (records_of row.serial recs) ++ rest else rest

abbrev pub str : Option Bytes → Bytes
str none = []
str (some s) = s

-- `Format(time.RFC3339)` in UTC, and `strconv.FormatInt`
pub record Printers : Type 0 where
  pub rfc3339 : ℤ → Bytes
  pub format_int : ℤ → Bytes

abbrev pub ts : Printers → Option ℤ → Bytes
ts pr none = []
ts pr (some t) = pr.rfc3339 t

unfoldable pub csv_record : Printers → ExportRow → List Bytes
csv_record pr r =
    pr.format_int (pos r.serial)
    ∷ r.domain
    ∷ r.org
    ∷ r.report_id
    ∷ ts pr r.date_begin
    ∷ ts pr r.date_end
    ∷ str r.source_ip
    ∷ pr.format_int r.count
    ∷ str r.disposition
    ∷ str r.reason
    ∷ str r.dkim_align
    ∷ str r.spf_align
    ∷ str r.dkim_domain
    ∷ str r.dkim_result
    ∷ str r.spf_domain
    ∷ str r.spf_result
    ∷ str r.header_from
    ∷ []

pub data Format : Type 0 where
  csv jsonl : Format

-- the calls that write: a line handed to `csv.Writer`, which keeps it until its flush, a line of JSON, and
-- the two kinds of flush
pub data Event : Type 0 where
  csv_line : List Bytes → Event
  json_line : ExportRow → Event
  csv_flush flush : Event

pub data ExportError : Type 0 where
  query_failed unsupported_format write_failed scan_failed flush_failed rows_failed : ExportError

-- Which calls fail, by the number of rows that are written.
pub record Faults : Type 0 where
  pub query_fails : Bool
  pub header_fails : Bool
  pub scan_fails : ℕ → Bool
  pub write_fails : ℕ → Bool
  pub flush_fails : ℕ → Bool
  pub rows_fail : Bool

abbrev pub flush_every : ℕ
flush_every = 500

pub record StreamEnd : Type 0 where
  pub written : ℕ
  pub failure : Option ExportError
  pub events : List Event

abbrev pub after_event : List Event → StreamEnd → StreamEnd
after_event es s = record s { events = es ++ s.events }

abbrev pub stopped : ℕ → ExportError → StreamEnd
stopped n e = record { written = n; failure = some e; events = [] }

module _ (pr : Printers) (fa : Faults) (format : Format) where
  abbrev pub line_of : Format → ExportRow → Event
  line_of csv r = csv_line (csv_record pr r)
  line_of jsonl r = json_line r

  -- both flushes; `flush` is not nil
  abbrev pub flushed : Format → ℕ → StreamEnd → StreamEnd
  flushed csv n next =
      if fa.flush_fails n
      then after_event (csv_flush ∷ []) (stopped n flush_failed)
      else after_event (csv_flush ∷ flush ∷ []) next
  flushed jsonl n next = after_event (flush ∷ []) next

  -- behind the loop: the last flush, without which the lines that `csv.Writer` keeps would be lost
  abbrev pub finished : ℕ → StreamEnd
  finished n = flushed format n (record {
    written = n;
    failure = if fa.rows_fail then some rows_failed else none;
    events = [];
  })

  -- the loop over the rows
  unfoldable pub stream_rows : ℕ → List ExportRow → StreamEnd
  unfolding csv_record
  stream_rows n [] = finished n
  stream_rows n (r ∷ rs) =
      let rest = stream_rows (n + 1) rs in
      if fa.scan_fails n
      then stopped n scan_failed
      else if fa.write_fails n
      then stopped n write_failed
      else after_event (line_of format r ∷ [])
          (if (n + 1) % flush_every == 0 then flushed format (n + 1) rest else rest)

  abbrev pub begun : Format → List ExportRow → StreamEnd
  begun csv rs =
      if fa.header_fails
      then stopped 0 write_failed
      else after_event (csv_line csv_header ∷ []) (stream_rows 0 rs)
  begun jsonl rs = stream_rows 0 rs

abbrev pub format_of : Bytes → Option Format
format_of s =
    if beq s (codes "csv") then some csv else if beq s (codes "jsonl") then some jsonl else none

abbrev pub stream_as : Printers → Faults → Option Format → List ExportRow → StreamEnd
stream_as pr fa none rs = stopped 0 unsupported_format
stream_as pr fa (some format) rs = begun pr fa format format rs

-- `Stream`
unfoldable pub stream : HostOf → Printers → Faults → Bytes → Filter → Tables → StreamEnd
unfolding export_rows stream_rows
stream host pr fa format f t =
    if fa.query_fails
    then stopped 0 query_failed
    else stream_as pr fa (format_of format) (export_rows host f t.records t.reports)

abbrev pub raw_of_row : Option ReportRow → Option Bytes
raw_of_row none = none
raw_of_row (some row) = row.raw

-- `RawXML`, where the query succeeds
unfoldable pub raw_xml : ℕ → Tables → Option Bytes
unfolding find_serial
raw_xml n t = raw_of_row (find_serial n t.reports)
