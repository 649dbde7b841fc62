-- ===== src/Tests/Inputs.antt =====
-- Concrete inputs: a report of two records, a mail that carries it, and stand-ins for the packages
-- that the code calls.
use mathlib.Core.Path.{subst}
use dmarcparser.Base.{
  if◌then◌else◌, Bool-cases, length, All, ◌<◌, ◌≡◌, refl, inl, inr, Bool, true, false, Option, none,
  some, List, [], ◌∷◌, ◌++◌, arith, ltb, ◌&&◌,
}
use dmarcparser.Base.Int.{pos}
use dmarcparser.Forensic.{MailText, parse_forensic}
use dmarcparser.Mailx.{malformed, part, Mime, extract_payloads}
use dmarcparser.Poller.{Counters, World, Env}
use dmarcparser.Poller.Cycle.{Message, Folders}
use dmarcparser.Poller.Tallied.{NoFaults}
use dmarcparser.Report.{AuthResult, XmlRecord, Feedback, Report}
use dmarcparser.Report.Address.{Net, mapped_prefix}
use dmarcparser.Report.Parse.{build_report, parse_xml}
use dmarcparser.Report.Payload.{Archives}
use dmarcparser.Store.Reports.{Tables, Stmt, commit_tx}
use dmarcparser.Text.{Bytes, codes, beq}
use dmarcparser.TlsReport.{parse_tls}
use dmarcparser.Unicode.{ascii_casing}

abbrev pub source : Bytes
source = codes "192.0.2.1"

abbrev pub test_parse_ip : Bytes → Option Bytes
test_parse_ip s = if beq s source then some (mapped_prefix ++ 192 ∷ 0 ∷ 2 ∷ 1 ∷ []) else none

abbrev all_below : Bytes → Bool
all_below [] = true
all_below (c ∷ cs) = ltb c 256 && all_below cs

bytes_below : (cs : Bytes) → all_below cs ≡ true → All (λ c. c < 256) cs
bytes_below [] h = tt
bytes_below (c ∷ cs) h = (ground arith, bytes_below cs (ground arith))

pub test_parse_ip_bytes :
    (s : Bytes) {ip : Bytes} → test_parse_ip s ≡ some ip → (length ip ≡ 16) × All (λ b. b < 256) ip
test_parse_ip_bytes s {ip} e = elim (Bool-cases (beq s source)) [
  | inl h ↦
      let same : mapped_prefix ++ 192 ∷ 0 ∷ 2 ∷ 1 ∷ [] ≡ ip = cc (rw h at e) in
      subst (λ b. (length b ≡ 16) × All (λ c. c < 256) b) same
        (refl, bytes_below (mapped_prefix ++ 192 ∷ 0 ∷ 2 ∷ 1 ∷ []) refl)
  | inr h ↦ absurd (cc (rw h at e))
]

abbrev pub test_net : Net
test_net = record {
  parse_ip = test_parse_ip;
  parse_ip_bytes = test_parse_ip_bytes;
  print_ipv6 = λ ip. codes "::";
}

abbrev pub passing : AuthResult
passing = record { domain = codes "a.org"; selector = codes "s1"; result = codes " Pass " }

abbrev pub failing : AuthResult
failing = record { domain = codes "b.org"; selector = []; result = codes "fail" }

abbrev pub test_xml_record : XmlRecord
test_xml_record = record {
  source_ip = codes " 192.0.2.1";
  count = pos 3;
  disposition = codes "None";
  dkim = codes "pass";
  spf = codes "softpass";
  reasons =
      record { kind = codes "local_policy"; comment = [] }
      ∷ record { kind = codes "other"; comment = codes "seen" }
      ∷ [];
  header_from = codes "a.org";
  auth_dkim = failing ∷ passing ∷ [];
  auth_spf = [];
}

abbrev pub test_feedback : Feedback
test_feedback = record {
  org_name = codes "Example";
  email = codes "noreply@example.org";
  extra_contact_info = [];
  report_id = codes "r-1";
  begin = pos 1000;
  end = pos 2000;
  domain = codes "a.org";
  adkim = codes "r";
  aspf = codes "r";
  p = codes "none";
  sp = [];
  pct = codes "100";
  records = test_xml_record ∷ [];
}

abbrev pub test_doc : Bytes
test_doc = codes "<feedback/>"

abbrev pub test_decode : Bytes → Option Feedback
test_decode doc = if beq doc test_doc then some test_feedback else none

abbrev pub test_report : Report
test_report = build_report ascii_casing test_net test_doc test_feedback

abbrev pub empty_tables : Tables
empty_tables = record { reports = []; records = []; next_serial = 1; last_insert = 0 }

abbrev pub never : Stmt → Bool
never s = false

abbrev pub commit_breaks : Stmt → Bool
commit_breaks commit_tx = true
commit_breaks s = false

abbrev pub test_archives : Archives
test_archives = record { unzip = λ b. none; gunzip = λ b. none }

abbrev pub test_mime : Mime
test_mime = record {
  open_mail = λ raw.
      some (malformed ∷ part (codes "text/xml") (record { bytes = raw; broken = false }) ∷ []);
  parse_media_type = λ ct. none;
}

abbrev pub test_mail_text : MailText
test_mail_text = record {
  read_mime_header = λ b. ([], true);
  parse_date = λ b. none;
  parse_address = λ b. none;
  canonical_ip = λ b. none;
}

abbrev pub test_env : Env
test_env = record {
  parse_report = parse_xml ascii_casing test_net test_decode;
  parse_tls_report = parse_tls (λ doc. none);
  parse_failure_report = parse_forensic ascii_casing test_mail_text;
  extract = extract_payloads ascii_casing test_mime test_archives;
  store_raw_xml = true;
  ruf_redact = true;
  now = 5000;
  save_fails = λ i. never;
  tls_fails = λ i s. false;
  forensic_fails = λ i. false;
}

pub test_env-NoFaults : NoFaults test_env
test_env-NoFaults = record {
  no_save_fault = λ i s. refl;
  no_tls_fault = λ i s. refl;
  no_forensic_fault = λ i. refl;
}

abbrev pub no_counts : Counters
no_counts = record {
  mails_processed = 0;
  mails_ignored = 0;
  mails_failed = 0;
  reports_ingested = 0;
  reports_duplicate = 0;
  records_inserted = 0;
  tlsrpt_ingested_total = 0;
  forensic_ingested_total = 0;
}

abbrev pub empty_world : World
empty_world = record {
  tables = empty_tables;
  tls = record { reports = []; policies = []; next_id = 1 };
  forensics = record { rows = []; next_row = 1 };
  counters = no_counts;
  emitted = [];
  notices = [];
}

abbrev pub test_folders : Folders
test_folders = record {
  folder_processed = codes "Processed";
  folder_ignored = codes "Ignored";
  folder_failed = codes "Failed";
}

abbrev pub test_messages : List Message
test_messages =
    record { uid = 1; raw = test_doc }
    ∷ record { uid = 2; raw = [] }
    ∷ record { uid = 3; raw = codes "hello" }
    ∷ []
