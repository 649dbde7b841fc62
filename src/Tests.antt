-- ===== src/Tests.antt =====
-- Runs of the code, and each theorem applied at a concrete input.
mod Exports
mod Inputs
mod More
mod Queries
mod Services
mod Statistics
mod TlsReads
use dmarcparser.Mailx.Collected.{all_docs, take_parts-aggregates}
use dmarcparser.Base.{
  All, ok, err, ℕ, ◌+◌, ◌≡◌, refl, ◌↔◌, ◌⊎◌, true, false, some, [], ◌∷◌, ◌++◌, arith, none,
}
use dmarcparser.Base.Int.{pos}
use dmarcparser.Mailx.{take_parts, extract_payloads, malformed, part, no_payloads}
use dmarcparser.Pipeline.{IngestEvent, Ending, panicked, emit_one, emit, register}
use dmarcparser.Poller.{processed, retry_mail, process_mail}
use dmarcparser.Poller.Filed.{outcomes, IsFiled, take_messages-IsFiled}
use dmarcparser.Poller.Counts.{Balanced, process_mail-Balanced}
use dmarcparser.Poller.Cycle.{take_messages}
use dmarcparser.Poller.Outcomes.{process_mail_outcome}
use dmarcparser.Poller.Tallied.{expected}
use dmarcparser.Poller.Total.{process_mail_settled}
use dmarcparser.Report.{AuthResult}
use dmarcparser.Report.Address.{mapped_prefix, columns, print16, render_ip}
use dmarcparser.Report.Allowed.{FitsReport, parse_xml-FitsReport}
use dmarcparser.Report.Chosen.{IsFirstPass, NonePassed, IsCanonical}
use dmarcparser.Report.Documents.{
  IsDocument, IsOther, expand_typed-IsDocument, expand_typed-nil_iff,
}
use dmarcparser.Report.Fields.{dkim_results, normalize, pick_auth, unknown, aligns, member}
use dmarcparser.Report.Packing.{render_ip-columns}
use dmarcparser.Report.Parse.{parse_xml}
use dmarcparser.Report.Payload.{
  aggregate, TypedPayload, is_aggregate_xml, is_tlsrpt_json, classify, expand_typed, aggregates_of,
}
use dmarcparser.Store.Atomic.{save_report_atomic}
use dmarcparser.Store.Reports.{
  Tables, SaveResult, commit_failed, find_report, insert_records, advance, save_new, save_at,
  save_report,
}
use dmarcparser.Store.Unique.{save_report_again, IsSound, save_report-IsSound}
use dmarcparser.Tests.Inputs.{
  source, test_net, passing, failing, test_doc, test_decode, test_report, empty_tables, never,
  commit_breaks, test_archives, test_env, test_env-NoFaults, empty_world, test_folders,
  test_messages, test_mime,
}
use dmarcparser.Text.{Bytes, codes, beq}
use dmarcparser.Unicode.{ascii_lower, ascii_casing}

-- the mail is processed, and its report is stored
one_mail : (process_mail test_env test_doc empty_world).0 ≡ processed
unfolding process_mail extract_payloads take_parts expand_typed classify parse_xml save_report beq
    dmarcparser.Text.trim_space dmarcparser.Text.split dmarcparser.Unicode.ascii_lower
    dmarcparser.Text.has_prefix dmarcparser.Report.Payload.is_aggregate_xml
    dmarcparser.Text.contains
one_mail = refl

test_doc_parses : parse_xml ascii_casing test_net test_decode test_doc ≡ ok test_report
unfolding parse_xml beq
test_doc_parses = refl

parse_xml-FitsReport_example : FitsReport test_report
parse_xml-FitsReport_example =
    parse_xml-FitsReport ascii_casing test_net test_decode test_doc test_doc_parses

process_mail_settled_example :
    (process_mail test_env test_doc empty_world).0 ≡ expected test_env test_doc
process_mail_settled_example = process_mail_settled test_env test_env-NoFaults test_doc empty_world

process_mail_outcome_example :
    ((process_mail test_env test_doc empty_world).0 ≡ retry_mail)
    ⊎ ((process_mail test_env test_doc empty_world).0 ≡ expected test_env test_doc)
process_mail_outcome_example = process_mail_outcome test_env test_doc empty_world

process_mail-Balanced_example : Balanced empty_world (process_mail test_env test_doc empty_world).1
process_mail-Balanced_example = process_mail-Balanced test_env test_doc empty_world

take_messages-IsFiled_example :
    IsFiled test_folders
      (outcomes test_folders (λ i. test_env) 0 test_messages [] empty_world)
      []
      empty_world
      (take_messages test_folders (λ i. test_env) 0 test_messages [] empty_world)
take_messages-IsFiled_example =
    take_messages-IsFiled test_folders (λ i. test_env) 0 test_messages [] empty_world

commit_breaks_err :
    (save_report commit_breaks 5000 true test_report empty_tables).0 ≡ err commit_failed
unfolding save_report save_at save_new find_report insert_records
    dmarcparser.Report.Parse.build_report
commit_breaks_err = refl

save_report_atomic_example :
    ((save_report commit_breaks 5000 true test_report empty_tables).1.reports ≡ [])
    × ((save_report commit_breaks 5000 true test_report empty_tables).1.records ≡ [])
    × ((save_report commit_breaks 5000 true test_report empty_tables).1.last_insert ≡ 0)
save_report_atomic_example =
    save_report_atomic commit_breaks 5000 true test_report empty_tables commit_breaks_err

abbrev first_save : SaveResult
first_save = record { serial = 1; duplicate = false; records = 1; messages = pos 3 }

first_save_ok : (save_report never 5000 true test_report empty_tables).0 ≡ ok first_save
unfolding save_report save_at save_new find_report insert_records dmarcparser.Base.Int.add64
    dmarcparser.Report.Parse.build_report
first_save_ok = refl

abbrev one_report : Tables
one_report = (save_report never 5000 true test_report empty_tables).1

save_report_again_example : save_report never 6000 true test_report one_report ≡ (
  ok (record { serial = 1; duplicate = true; records = 0; messages = pos 0 }),
  advance one_report,
)
save_report_again_example =
    save_report_again never never 5000 6000 true test_report empty_tables first_save_ok refl refl
      refl

empty_tables-IsSound : IsSound empty_tables
empty_tables-IsSound = record { ordered = tt; reports_below = tt; records_owned = tt }

save_report-IsSound_example : IsSound one_report
save_report-IsSound_example =
    save_report-IsSound never 5000 true test_report empty_tables empty_tables-IsSound

abbrev source_bytes : Bytes
source_bytes = mapped_prefix ++ 192 ∷ 0 ∷ 2 ∷ 1 ∷ []

source_parses : test_net.parse_ip source ≡ some source_bytes
unfolding beq
source_parses = refl

render_ip-columns_example :
    render_ip test_net (columns (test_net.parse_ip source)).0 (columns (test_net.parse_ip source)).1
    ≡ print16 test_net source_bytes
render_ip-columns_example = render_ip-columns test_net source source_bytes source_parses

abbrev bare : TypedPayload
bare = record { kind = aggregate; content = test_doc }

bare_expands : expand_typed test_archives test_doc ≡ ok (bare ∷ [])
unfolding expand_typed classify is_aggregate_xml dmarcparser.Text.has_prefix
    dmarcparser.Text.contains dmarcparser.Text.trim_left
bare_expands = refl

expand_typed-IsDocument_example : All IsDocument (bare ∷ [])
expand_typed-IsDocument_example = expand_typed-IsDocument test_archives test_doc bare_expands

expand_typed-nil_iff_example :
    (expand_typed test_archives (codes "hello") ≡ ok []) ↔ IsOther (codes "hello")
expand_typed-nil_iff_example = expand_typed-nil_iff test_archives (codes "hello")

test_doc_xml : is_aggregate_xml test_doc ≡ true
unfolding is_aggregate_xml dmarcparser.Text.has_prefix dmarcparser.Text.contains
    dmarcparser.Text.trim_left
test_doc_xml = refl

-- a malformed part before the report does not hide it
take_parts-aggregates_example :
    (take_parts ascii_casing test_mime test_archives
      (malformed ∷ part (codes "text/xml") (record { bytes = test_doc; broken = false }) ∷ [])
      (no_payloads, none)).0.aggregates
    ≡ []
      ++ aggregates_of (
          all_docs ascii_casing test_mime test_archives (
            malformed ∷ part (codes "text/xml") (record { bytes = test_doc; broken = false }) ∷ []))
take_parts-aggregates_example =
    take_parts-aggregates ascii_casing test_mime test_archives
      (malformed ∷ part (codes "text/xml") (record { bytes = test_doc; broken = false }) ∷ [])
      (no_payloads, none)
