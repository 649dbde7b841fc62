-- ===== src/Tests/Services.antt =====
-- The services around the poller: runs, and each theorem applied at a concrete input.
use dmarcparser.Api.{admin_scope, guarded, result_for, ingest}
use dmarcparser.Api.Counted.{ingest-Balanced}
use dmarcparser.Api.Guarded.{IsConfigured, guarded-eq_ok}
use dmarcparser.Base.Int.{pos}
use dmarcparser.Poller.Counts.{Balanced}
use dmarcparser.Report.Parse.{parse_xml}
use dmarcparser.Report.Payload.{classify, expand_typed, expand_payload}
use dmarcparser.Selectors.{DkimAuthEntry}
use dmarcparser.Webhook.{Answer, answered, Sender, insert_works, send}
use dmarcparser.Base.{
  All, ok, ℕ, ◌+◌, ◌≤◌, ◌≡◌, refl, true, false, some, List, [], ◌∷◌, arith, length,
}
use dmarcparser.Config.{ApiKey, all_scopes, parse_api_keys, parse_entry}
use dmarcparser.Config.Granted.{IsGranted, parse_entry-IsGranted}
use dmarcparser.Retention.{goes_on, Ended, due_count, purge_raw_xml}
use dmarcparser.Retention.Purged.{Settled, purge_raw_xml-Settled}
use dmarcparser.Store.Reports.{ReportRow, save_report}
use dmarcparser.Tests.Inputs.{test_doc, test_report, test_archives, test_env, empty_world}
use dmarcparser.Text.{Bytes, codes, beq, trim_space, split, join}
use dmarcparser.Watchdog.{
  Rule, silence, RuleStates, Dog, Limits, Moment, ingested_at, Reading, cooling, fire, same_rule,
  poll_failures, webhook_dead,
}
use dmarcparser.Watchdog.Quiet.{fire_all, alerts_of, fire_all-quiet}
use dmarcparser.Store.Alerts.{alert_last_fired}
use dmarcparser.Webhook.Delivery.{given_up, Adds, send-Adds}

abbrev old_rows : List ReportRow
old_rows =
    record { serial = 1; report = test_report; raw = some test_doc; seen = 10 }
    ∷ record { serial = 2; report = test_report; raw = some test_doc; seen = 90 }
    ∷ []

-- the row that is older than the cutoff is cleared
one_due : due_count 50 old_rows ≡ 1
unfolding due_count
one_due = refl

purge_raw_xml-Settled_example :
    (e : Ended) × (purge_raw_xml 50 (λ n. goes_on) old_rows ≡ some e) × Settled 50 0 old_rows e
purge_raw_xml-Settled_example = purge_raw_xml-Settled 50 (λ n. goes_on) old_rows

abbrev pub quiet_sender : Sender
quiet_sender = record {
  webhook_failures = 0;
  webhook_deadletters = 0;
  dead_letters = [];
  requests = [];
  pauses = [];
}

abbrev refusing : ℕ → Answer
refusing n = answered 503 (codes "503")

abbrev pub test_sign : Bytes → Bytes → Bytes
test_sign secret body = secret

refused_send :
    (send test_sign [] refusing insert_works
      (codes "u")
      (codes "k")
      []
      quiet_sender).webhook_failures
    ≡ 1
unfolding send
refused_send = refl

send-Adds_example :
    Adds
      (given_up refusing)
      insert_works
      (codes "u")
      (codes "k")
      []
      quiet_sender
      (send test_sign [] refusing insert_works (codes "u") (codes "k") [] quiet_sender)
send-Adds_example =
    send-Adds test_sign [] refusing insert_works (codes "u") (codes "k") [] quiet_sender

abbrev calm : RuleStates
calm = record {
  on_silence = false;
  on_poll_failures = false;
  on_failed_spike = false;
  on_webhook_dead = false;
}

abbrev young_dog : Dog
young_dog = record {
  states = calm;
  failed_samples = [];
  last_webhook_fail = 0;
  alert_state = [];
  alerts = [];
}

abbrev at_time : ℕ → Moment
at_time t = record { clock = t; db_clock = t; lookup_fails = false; mark_fails = false }

not_cooling : cooling 1000 (alert_last_fired same_rule silence []) ≡ false
unfolding alert_last_fired
not_cooling = refl

abbrev later_calls : List (Rule × Moment)
later_calls =
    (webhook_dead, at_time 1500) ∷ (silence, at_time 1600) ∷ (poll_failures, at_time 1700) ∷ []

fire_all-quiet_example :
    let e = fire silence (at_time 1000) young_dog in
    let later = fire_all later_calls e in
    (alerts_of silence later.alerts ≡ alerts_of silence e.alerts)
    × (fire silence (at_time 2000) later ≡ later)
fire_all-quiet_example =
    fire_all-quiet silence (at_time 1000) (at_time 2000) later_calls young_dog refl not_cooling refl
      (omega arith, (omega arith, (omega arith, tt))) (omega arith)

abbrev test_limits : Limits
test_limits = record { alert_silence = 129600; alert_failed_spike = 10 }

abbrev test_reading : Reading
test_reading = record {
  now = 100000;
  last_ingest = ingested_at 90000;
  poll_consecutive_errors = 3;
  mails_failed = 12;
  webhook_failures = 1;
  moment = λ r. at_time 100000;
}

abbrev test_keys : List ApiKey
test_keys =
    record { name = codes "default"; key = codes "k1"; scopes = all_scopes }
    ∷ record {
      name = codes "ci";
      key = codes "k2";
      scopes = record { read = true; ingest = true; admin = false };
    }
    ∷ []

keys_parse : parse_api_keys (codes "k1, ci=k2=read|ingest") ≡ ok test_keys
unfolding parse_api_keys split trim_space join beq
keys_parse = refl

abbrev ci_key : ApiKey
ci_key = record {
  name = codes "ci";
  key = codes "k2";
  scopes = record { read = true; ingest = true; admin = false };
}

entry_parses : parse_entry (codes "ci=k2=read|ingest") ≡ ok ci_key
unfolding parse_entry split trim_space join beq
entry_parses = refl

parse_entry-IsGranted_example : IsGranted (split b'=' (codes "ci=k2=read|ingest")) ci_key
parse_entry-IsGranted_example = parse_entry-IsGranted (codes "ci=k2=read|ingest") entry_parses

abbrev identity : Bytes → Bytes
identity key = key

abbrev first_key : ApiKey
first_key = record { name = codes "default"; key = codes "k1"; scopes = all_scopes }

first_key_passes : guarded identity (λ n. true) test_keys admin_scope (codes "k1") ≡ ok first_key
unfolding guarded beq
first_key_passes = refl

guarded-eq_ok_example :
    IsConfigured first_key test_keys × (codes "k1" ≡ codes "k1") × (true ≡ true) × (true ≡ true)
guarded-eq_ok_example =
    guarded-eq_ok identity (λ n. true) test_keys admin_scope (codes "k1") (λ x c e. e)
      first_key_passes

ingest-Balanced_example :
    Balanced empty_world (ingest test_env test_archives (some test_doc) empty_world).1
ingest-Balanced_example = ingest-Balanced test_env test_archives (some test_doc) empty_world

ingest_answers :
    (ingest test_env test_archives (some test_doc) empty_world).0
    ≡ ok (
      result_for test_report
            (record { serial = 1; duplicate = false; records = 1; messages = pos 3 })
          ∷ [],
      true,
    )
unfolding ingest expand_payload expand_typed classify parse_xml save_report beq
    dmarcparser.Text.has_prefix dmarcparser.Report.Payload.is_aggregate_xml
    dmarcparser.Text.trim_left dmarcparser.Text.contains dmarcparser.Base.Int.add64
ingest_answers = refl

abbrev one_entry : DkimAuthEntry
one_entry = record {
  dkim_domain = some (codes "a.org");
  dkim_selector = some (codes "s1");
  dkim_result = some (codes "pass");
}
