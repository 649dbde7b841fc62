-- ===== src/Tests/Exports.antt =====
-- The export and the backfill of selectors: runs, and each theorem applied at a concrete input.
use dmarcparser.Base.{
  ◌==◌, length, Result, ok, ◌+◌, ◌≡◌, refl, true, false, none, some, [], ◌∷◌, ◌++◌, map, arith,
}
use dmarcparser.Export.Complete.{exported_by, save_report-export_rows}
use dmarcparser.Export.Flushed.{Spaced, stream-Spaced}
use dmarcparser.Export.Raw.{raw_after, save_report-raw_xml}
use dmarcparser.Export.Streamed.{written_out, head_of, stream-written_out}
use dmarcparser.Report.{Report}
use dmarcparser.Report.Parse.{ParseError, build_report}
use dmarcparser.Selectors.Backfill.{
  raw_rows, BackfillEnd, backfill_complete, BackfillFaults, backfill_selectors,
}
use dmarcparser.Selectors.Backfill.Keyset.{Rising}
use dmarcparser.Selectors.Backfill.Resaved.{
  resaved, backfill_selectors-ends, backfill_selectors-resaved,
}
use dmarcparser.Store.Reports.{Tables, rows_of, save_report, records_of}
use dmarcparser.Text.{Bytes, codes, beq}
use dmarcparser.Unicode.{ascii_casing}
use dmarcparser.Report.Parse.{build_report}
use dmarcparser.Export.{
  HostOf, Filter, Printers, Faults, csv, export_rows, stream, line_of, raw_xml, wanted,
}
use dmarcparser.Tests.Inputs.{test_report, test_doc, empty_tables, never}

abbrev test_export_host : HostOf
test_export_host ip ip6 = some (codes "192.0.2.1")

abbrev no_filter : Filter
no_filter = record { domain = []; org = []; since = none; until = none }

abbrev test_printers : Printers
test_printers = record { rfc3339 = λ t. codes "2026"; format_int = λ n. codes "1" }

-- the second write fails
abbrev second_write_fails : Faults
second_write_fails = record {
  query_fails = false;
  header_fails = false;
  scan_fails = λ n. false;
  write_fails = λ n. n == 1;
  flush_fails = λ n. false;
  rows_fail = false;
}

abbrev no_faults : Faults
no_faults = record {
  query_fails = false;
  header_fails = false;
  scan_fails = λ n. false;
  write_fails = λ n. false;
  flush_fails = λ n. false;
  rows_fail = false;
}

-- two reports of one record each
abbrev two_tables : Tables
two_tables = record {
  reports =
      record { serial = 1; report = test_report; raw = some test_doc; seen = 10 }
      ∷ record { serial = 2; report = test_report; raw = some test_doc; seen = 20 }
      ∷ [];
  records = rows_of 1 test_report.records ++ rows_of 2 test_report.records;
  next_serial = 3;
  last_insert = 20;
}

second_row_lost :
    (stream test_export_host test_printers second_write_fails
      (codes "csv")
      no_filter
      two_tables).written
    ≡ 1
unfolding stream export_rows wanted records_of beq build_report
second_row_lost = refl

stream-Spaced_example :
    Spaced 501
      (stream test_export_host test_printers second_write_fails
        (codes "csv")
        no_filter
        two_tables).events
stream-Spaced_example =
    stream-Spaced test_export_host test_printers second_write_fails (codes "csv") no_filter
      two_tables

stream-written_out_example :
    let s = stream test_export_host test_printers no_faults (codes "csv") no_filter two_tables in
    let rows = export_rows test_export_host no_filter two_tables.records two_tables.reports in
    (s.written ≡ length rows)
    × ((s.failure ≡ none)
        × (written_out [] s.events
            ≡ head_of test_printers no_faults csv
              ++ map (line_of test_printers no_faults csv csv) rows))
unfolding beq
stream-written_out_example =
    stream-written_out test_export_host test_printers no_faults (codes "csv") no_filter two_tables
      csv refl
      (record {
        header_fine = refl;
        scan_fine = λ n. refl;
        write_fine = λ n. refl;
        flush_fine = λ n. refl;
        rows_fine = refl;
      })
      refl

save_report-export_rows_example :
    let p = save_report never 5000 true test_report empty_tables in
    export_rows test_export_host no_filter p.1.records p.1.reports
    ≡ export_rows test_export_host no_filter empty_tables.records empty_tables.reports
      ++ exported_by test_export_host no_filter 5000 true test_report empty_tables p.0
save_report-export_rows_example =
    save_report-export_rows test_export_host no_filter never 5000 true test_report empty_tables
      (record { ordered = tt; reports_below = tt; records_owned = tt }) tt

save_report-raw_xml_example :
    raw_xml 1 (save_report never 5000 true test_report empty_tables).1
    ≡ raw_after true test_report empty_tables 1
        (save_report never 5000 true test_report empty_tables).0
save_report-raw_xml_example =
    save_report-raw_xml never 5000 1 true test_report empty_tables
      (record { ordered = tt; reports_below = tt; records_owned = tt })

abbrev no_statement_fails : BackfillFaults
no_statement_fails = record { batch_fails = λ k. false; stmt_fails = λ serial st. false }

-- a table that cannot be written
abbrev table_locked : BackfillFaults
table_locked = record { batch_fails = λ k. false; stmt_fails = λ serial st. true }

abbrev parse_test : Bytes → Result ParseError Report
parse_test doc = ok test_report

two_rows-Rising : Rising 0 (raw_rows two_tables.reports)
unfolding raw_rows
two_rows-Rising = (omega arith, (omega arith, tt))

backfill_selectors-ends_example :
    (e : BackfillEnd) × ((backfill_selectors ascii_casing parse_test table_locked two_tables.reports
        []).0
      ≡ some e)
backfill_selectors-ends_example =
    backfill_selectors-ends ascii_casing parse_test table_locked two_tables.reports []
      two_rows-Rising

backfill_selectors-resaved_example :
    let (end, s) =
      backfill_selectors ascii_casing parse_test no_statement_fails two_tables.reports [] in
    (end ≡ some backfill_complete)
    × ((s.dkim_rows ≡ resaved ascii_casing parse_test (raw_rows two_tables.reports) [])
        × (s.done_reports + s.parse_errs ≡ length (raw_rows two_tables.reports)))
backfill_selectors-resaved_example =
    backfill_selectors-resaved ascii_casing parse_test no_statement_fails two_tables.reports []
      (λ k. refl) (λ serial st. refl) two_rows-Rising
