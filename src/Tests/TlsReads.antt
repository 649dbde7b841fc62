-- ===== src/Tests/TlsReads.antt =====
-- TLS reports that are read back.
use dmarcparser.Base.{some, [], ◌∷◌}
use dmarcparser.Base.Int.{pos}
use dmarcparser.Text.{codes}
use dmarcparser.Store.TlsReports.{TlsTables}
use dmarcparser.TlsReport.{PolicyResult, TlsReport}

abbrev test_policy : PolicyResult
test_policy = record {
  policy_type = codes "sts";
  policy_string = [];
  policy_domain = codes "a.org";
  mx_host = codes "mx.a.org" ∷ [];
  total_success = pos 5;
  total_failure = pos 1;
  failure_details = [];
}

abbrev test_tls_report : TlsReport
test_tls_report = record {
  organization_name = codes "Example";
  date_start = some (pos 10);
  date_end = some (pos 20);
  contact_info = codes "tls@example.org";
  report_id = codes "t1";
  policies = test_policy ∷ [];
}

abbrev no_tls : TlsTables
no_tls = record { reports = []; policies = []; next_id = 1 }
