-- ===== src/Tests/Queries.antt =====
-- The enrichment, the digest, the lists and the admin handlers: each theorem applied at a concrete
-- input.
use dmarcparser.Store.Listed.Listing.{IsIn, list_reports-IsIn}
use dmarcparser.Api.Platform.{replay_webhooks, Mailboxes, RequeueStep, Left}
use dmarcparser.Api.Platform.Replayed.{
  is_pending, is_deliverable, replay_webhooks-pending, replay_webhooks-done,
}
use dmarcparser.Audit.{LetterRow, unreplayed_deadletters}
use dmarcparser.Base.{
  ltb, length, All, ℕ, ◌+◌, ◌≤◌, ◌≡◌, refl, ◌⊎◌, true, false, none, some, List, [], ◌∷◌, map, arith,
  inl,
}
use dmarcparser.Base.Int.{ℤ, pos}
use dmarcparser.Digest.{Mailroom, page, Outing, run}
use dmarcparser.Digest.Once.{run-run}
use dmarcparser.Digest.Pages.{mails_for}
use dmarcparser.Digest.Subscriptions.{Subscription}
use dmarcparser.Enrich.{Floats, Task, Intel, Meets, on_report}
use dmarcparser.Enrich.Announced.{known, announced, on_report-IsAnnounced}
use dmarcparser.Enrich.Anomaly.{on_record, raised_for, on_report-IsRaised}
use dmarcparser.Enrich.Worker.{Dns, Visit, refresh_after}
use dmarcparser.Store.Alerts.{alert_last_fired}
use dmarcparser.Store.Listed.{ListFilter, ReportSummary, list_reports}
use dmarcparser.Store.Listed.Sorted.{NewestFirst, IsWanted, list_reports-NewestFirst}
use dmarcparser.Store.Reports.{ReportRow, Tables}
use dmarcparser.Store.Sources.{needs_refresh}
use dmarcparser.Tests.Inputs.{test_net, test_report}
use dmarcparser.Text.{Bytes, codes, beq}
use dmarcparser.Webhook.{Answer, answered, refusal}
use dmarcparser.Tests.Services.{quiet_sender, test_sign}
use dmarcparser.Pipeline.{IngestEvent}

abbrev test_floats : Floats ℕ
test_floats = record {
  of_int = λ n. 1;
  add = λ a b. a + b;
  mul = λ a b. a + b;
  less = λ a b. ltb a b;
  avg = λ xs. 0;
  stddev = λ xs. 0;
}

abbrev test_day : ℤ → Bytes
test_day n = codes "1970-01-01"

abbrev test_event : IngestEvent
test_event = record {
  report = test_report;
  result = record { serial = 1; duplicate = false; records = 1; messages = pos 3 };
  source = codes "api";
}

abbrev smooth : Meets
smooth = record {
  upsert_fails = λ n. false;
  ptr_fails = λ n. false;
  lookup_fails = false;
  stats_fail = false;
  mark_fails = false;
  db_now = 1000;
  daily = [];
}

abbrev no_intel : Intel ℕ
no_intel = record {
  sources = [];
  ip_meta = [];
  queue = [];
  fired = [];
  notices = [];
  domain_anomalies = 0;
}

abbrev intel_after : Intel ℕ
intel_after = on_report test_floats test_net test_day smooth 3 (pos 50) (pos 5) test_event no_intel

on_report-IsAnnounced_example :
    announced (codes "a.org") (codes "192.0.2.1") intel_after.notices
    ≤ known (codes "a.org") (codes "192.0.2.1") intel_after.sources
on_report-IsAnnounced_example =
    on_report-IsAnnounced test_floats test_net test_day (codes "a.org") (codes "192.0.2.1") smooth 3
      (pos 50) (pos 5) test_event no_intel (omega arith)

on_report-IsRaised_example :
    raised_for test_floats test_net test_day (codes "anomaly:a.org:1970-01-01") intel_after.notices
    ≤ on_record test_floats test_net test_day (codes "anomaly:a.org:1970-01-01") intel_after.fired
unfolding alert_last_fired
on_report-IsRaised_example =
    on_report-IsRaised test_floats test_net test_day (codes "anomaly:a.org:1970-01-01") smooth 3
      (pos 50) (pos 5) test_event no_intel refl (omega arith)

abbrev test_dns : Dns
test_dns = record {
  parse_addr = λ s. some s;
  print_addr = λ a. a;
  lookup_addr = λ ip. some (codes "mail.example.org." ∷ []);
  lookup_txt = λ name. none;
  parse_int64 = λ s. none;
  print_int = λ n. codes "0";
  to_valid = λ s. s;
}

abbrev visit_at : ℕ → Visit
visit_at t = record { local_clock = t; db_clock = t; check_fails = false; upsert_fails = false }

abbrev test_task : Task
test_task = record { task_ip = codes "192.0.2.1"; hint = [] }

unknown_is_stale : needs_refresh 1000 (codes "192.0.2.1") refresh_after [] ≡ true
unfolding needs_refresh
unknown_is_stale = refl

abbrev monday : Outing
monday = record {
  now = 1000000;
  list_fails = false;
  query_order = λ ss. ss;
  map_order = λ gs. gs;
  pages = λ d s e. page (codes "<p>");
  smtp_fails = λ d t s. false;
  unclosed_accepted = λ d t. false;
  check_fails = λ d. false;
  log_fails = λ d. false;
}

abbrev subscribers : List Subscription
subscribers = record { id = 1; sub_domain = codes "a.org"; email = codes "x@a.org" } ∷ []

abbrev no_mails : Mailroom
no_mails = record { digest_log = []; outbox = [] }

run-run_example :
    (mails_for (codes "a.org") (run monday false subscribers no_mails).1.1.outbox
      ≡ mails_for (codes "a.org") no_mails.outbox)
    ⊎ (mails_for
          (codes "a.org")
          (run monday false subscribers (run monday false subscribers no_mails).1.1).1.1.outbox
        ≡ mails_for (codes "a.org") (run monday false subscribers no_mails).1.1.outbox)
run-run_example =
    run-run monday monday (codes "a.org") false subscribers subscribers no_mails
      (λ d t. (refl, refl)) (λ d. refl) refl

one_mail : mails_for (codes "a.org") (run monday false subscribers no_mails).1.1.outbox ≡ 1
unfolding run beq
one_mail = refl

abbrev one_letter : List LetterRow
one_letter =
    record {
      letter_id = 4;
      letter = record {
        endpoint = codes "u";
        kind = codes "k";
        payload = [];
        last_error = codes "status 503";
      };
      replayed = false;
    }
    ∷ []

abbrev accepting : ℕ → Answer
accepting n = answered 200 []

accepts : refusal (accepting 4) ≡ none
unfolding refusal
accepts = refl

letter_is_deliverable :
    is_deliverable test_sign [] accepting (λ n. false) 4 (unreplayed_deadletters 500 one_letter)
    ≡ true
unfolding unreplayed_deadletters
letter_is_deliverable = refl

abbrev after_replay : List LetterRow
after_replay =
    (replay_webhooks test_sign [] accepting (λ n. false) false one_letter quiet_sender).1.0

replay_webhooks-pending_example :
    (is_pending 4 after_replay ≡ is_pending 4 one_letter) ⊎ (refusal (accepting 4) ≡ none)
replay_webhooks-pending_example =
    replay_webhooks-pending test_sign [] accepting (λ n. false) 4 false one_letter quiet_sender

replay_webhooks-done_example : is_pending 4 after_replay ≡ false
replay_webhooks-done_example =
    replay_webhooks-done test_sign [] accepting (λ n. false) 4 one_letter quiet_sender
      letter_is_deliverable accepts refl

abbrev boxes : Mailboxes
boxes = record { failed_mails = (3, true) ∷ []; inbox = []; triggers = 0 }

abbrev half_moved : RequeueStep → Left
half_moved s = ([], (3, true) ∷ [])

abbrev old_row : ReportRow
old_row = record { serial = 1; report = test_report; raw = none; seen = 10 }

abbrev bare_table : Tables
bare_table = record { reports = old_row ∷ []; records = []; next_serial = 2; last_insert = 10 }

abbrev first_page : ListFilter
first_page = record {
  of_domain = [];
  of_org = [];
  since = none;
  until = none;
  limit = 1;
  offset = 0;
}

abbrev listed_rows : List ReportSummary
listed_rows = record { summary_row = old_row; summary_records = 0; summary_messages = pos 0 } ∷ []

row_is_listed : list_reports first_page bare_table ≡ some listed_rows
unfolding list_reports
row_is_listed = refl

list_reports-NewestFirst_example :
    (length (map (λ s. s.summary_row) listed_rows) ≤ 1)
    × All (IsWanted first_page) (map (λ s. s.summary_row) listed_rows)
    × NewestFirst (map (λ s. s.summary_row) listed_rows)
list_reports-NewestFirst_example = list_reports-NewestFirst first_page bare_table row_is_listed

list_reports-IsIn_example : IsIn old_row (map (λ s. s.summary_row) listed_rows)
list_reports-IsIn_example =
    list_reports-IsIn first_page bare_table old_row row_is_listed refl (omega arith) (inl refl)
      (record {
        domain_wanted = inl refl;
        org_wanted = inl refl;
        end_wanted = tt;
        begin_wanted = tt;
      })
