-- ===== src/Tests/More.antt =====
-- The rollup, the configuration and the store's sequences of saves: runs, and each theorem applied
-- at a concrete input.
use dmarcparser.Base.{
  if◌then◌else◌, length, ok, ℕ, ◌≡◌, refl, true, false, Option, none, some, List, [], ◌∷◌, arith,
}
use dmarcparser.Base.Int.{pos}
use dmarcparser.Config.{parse_api_keys, parse_weekday}
use dmarcparser.Config.Load.Valid.{IsValid, load-IsValid}
use dmarcparser.Rollup.{backfill}
use dmarcparser.Rollup.Rebuilt.{ingest_reports, backfill-ingest_reports}
use dmarcparser.Store.Complete.{HasRecords, save_report-HasRecords}
use dmarcparser.Store.Refined.{stored, Save, save_all, replay, save_all-replay}
use dmarcparser.Store.Reports.{ReportRow, Tables, rows_of, records_of, save_report}
use dmarcparser.Tests.Inputs.{test_report, empty_tables, never, commit_breaks}
use dmarcparser.Text.{Bytes, codes, beq, trim_space, split, join}
use dmarcparser.Unicode.{ascii_casing}
use dmarcparser.Config.Load.{load, Host, Numbers, Config, config_of}

abbrev one_row : List ReportRow
one_row = record { serial = 1; report = test_report; raw = none; seen = 10 } ∷ []

abbrev one_table : Tables
one_table = record {
  reports = one_row;
  records = rows_of 1 test_report.records;
  next_serial = 2;
  last_insert = 10;
}

one_table-HasRecords : HasRecords one_table.records one_table.reports
unfolding records_of dmarcparser.Report.Parse.build_report
one_table-HasRecords = (refl, tt)

backfill-ingest_reports_example :
    backfill (λ s. false) one_table []
    ≡ (some (length (ingest_reports one_row [])), ingest_reports one_row [])
unfolding dmarcparser.Report.Parse.build_report
backfill-ingest_reports_example =
    backfill-ingest_reports (λ s. false) one_table [] (λ s. refl) one_table-HasRecords
      ((refl, tt), tt) (omega arith) (omega arith)

rebuilt_days : (backfill (λ s. false) one_table []).0 ≡ some 1
unfolding backfill beq records_of dmarcparser.Report.Parse.build_report dmarcparser.Base.Int.add_int
    dmarcparser.Report.Fields.normalize trim_space dmarcparser.Unicode.ascii_lower
rebuilt_days = refl

abbrev two_saves : List Save
two_saves =
    record { save_fault = commit_breaks; save_time = 5; save_raw = true; saved = test_report }
    ∷ record { save_fault = never; save_time = 9; save_raw = true; saved = test_report }
    ∷ []

save_all-replay_example :
    stored (save_all two_saves empty_tables).reports
    ≡ replay two_saves empty_tables (stored empty_tables.reports)
save_all-replay_example = save_all-replay two_saves empty_tables

abbrev test_lookup : Bytes → Option Bytes
test_lookup key = if beq key (codes "PARSER_DATABASE_URL") then some (codes "db") else none

abbrev test_host : Host ℕ
test_host = record {
  lookup_env = test_lookup;
  read_file = λ f. some (codes " secret ");
  parse_duration = λ s. some (pos 0);
  parse_int = λ s. some (pos 7);
  parse_float = λ s. some 10;
  casing = ascii_casing;
}

abbrev test_numbers : Numbers ℕ
test_numbers = record {
  poll_interval = pos 0;
  alert_silence = pos 0;
  raw_xml_retention = pos 0;
  mail_retention = pos 0;
  max_body_bytes = pos 7;
  rate_limit_rps = 10;
  anomaly_sigma = 10;
  alert_failed_spike = pos 7;
  anomaly_min_fails = pos 7;
  new_sender_min_msgs = pos 7;
  enrich_workers = pos 7;
}

abbrev test_config : Config ℕ
test_config = config_of test_host test_numbers 7 1 (codes "secret") []

test_loads : load test_host ≡ ok test_config
unfolding load parse_api_keys parse_weekday split trim_space join beq
    dmarcparser.Unicode.ascii_lower
test_loads = refl

load-IsValid_example : IsValid test_config
load-IsValid_example = load-IsValid test_host test_loads

save_report-HasRecords_example :
    HasRecords
      (save_report never 5000 true test_report empty_tables).1.records
      (save_report never 5000 true test_report empty_tables).1.reports
save_report-HasRecords_example =
    save_report-HasRecords never 5000 true test_report empty_tables
      (record { ordered = tt; reports_below = tt; records_owned = tt }) tt
