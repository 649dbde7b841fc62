-- ===== src/Poller.antt =====
-- parser/internal/poller/poller.go: `processMail`. The effects that leave the process are kept in the
-- state, in order: the events handed to the registry and the webhook notifications. Counters do not
-- wrap in the model.
pub mod Cycle
pub mod Counts
pub mod Filed
pub mod Tallied
pub mod Outcomes
pub mod Total
use dmarcparser.Base.{
  ltb, ◌==◌, if◌then◌else◌, take, Result, ok, err, ℕ, ◌+◌, Bool, ◌&&◌, Option, none, some, List, [],
  ◌∷◌, ◌++◌,
}
use dmarcparser.Forensic.{ForensicReport, ForensicError}
use dmarcparser.Mailx.{ForensicParts, Payloads, MailError, has_none}
use dmarcparser.Pipeline.{IngestEvent}
use dmarcparser.Report.{Report}
use dmarcparser.Report.Parse.{ParseError}
use dmarcparser.Store.Reports.{Tables, SaveResult, Stmt, save_report, StoreError}
use dmarcparser.Store.TlsReports.{
  TlsTables, TlsStmt, save_tls, ForensicTable, save_forensic, TlsStoreError,
}
use dmarcparser.Text.{Bytes, codes}
use dmarcparser.TlsReport.{TlsReport, TlsError}

pub data Outcome : Type 0 where
  processed ignored_mail failed_mail retry_mail : Outcome

-- a call of `NotifyEvent`: of the payload, what tells the event
pub data Notice : Type 0 where
  tlsrpt_ingested : ℕ → Bytes → Bytes → Notice
  forensic_ingested : ℕ → Notice
  report_failed : Bytes → Notice

pub record Counters : Type 0 where
  pub mails_processed : ℕ
  pub mails_ignored : ℕ
  pub mails_failed : ℕ
  pub reports_ingested : ℕ
  pub reports_duplicate : ℕ
  pub records_inserted : ℕ
  pub tlsrpt_ingested_total : ℕ
  pub forensic_ingested_total : ℕ

pub record World : Type 0 where
  pub tables : Tables
  pub tls : TlsTables
  pub forensics : ForensicTable
  pub counters : Counters
  pub emitted : List IngestEvent
  pub notices : List Notice

-- The parsers, the configuration, and which statements of the saves of one mail fail: the first
-- number is the position of the document in the mail.
pub record Env : Type 0 where
  pub parse_report : Bytes → Result ParseError Report
  pub parse_tls_report : Bytes → Result TlsError TlsReport
  pub parse_failure_report : Bytes → Bytes → Bool → Result ForensicError ForensicReport
  pub extract : Bytes → Result MailError Payloads
  pub store_raw_xml : Bool
  pub ruf_redact : Bool
  pub now : ℕ
  pub save_fails : ℕ → Stmt → Bool
  pub tls_fails : ℕ → TlsStmt → Bool
  pub forensic_fails : ℕ → Bool

-- `stored` and `parseErrs`
pub record Tally : Type 0 where
  pub stored : ℕ
  pub parse_errs : ℕ

abbrev pub parse_failed : Tally → Tally
parse_failed n = record n { parse_errs = n.parse_errs + 1 }

abbrev pub was_stored : Tally → Tally
was_stored n = record n { stored = n.stored + 1 }

abbrev pub imap : Bytes
imap = codes "imap"

-- behind a successful `SaveReport`
unfoldable pub report_saved : Report → SaveResult → World → World
report_saved rep res w =
    let c = w.counters in
    if res.duplicate
    then record w { counters = record c { reports_duplicate = c.reports_duplicate + 1 } }
    else record w {
      counters = record c {
        reports_ingested = c.reports_ingested + 1;
        records_inserted = c.records_inserted + res.records;
      };
      emitted = w.emitted ++ (record { report = rep; result = res; source = imap } ∷ []);
    }

-- behind a successful `SaveTLSRPT`
unfoldable pub tls_saved : TlsReport → ℕ × Bool → World → World
tls_saved rep (id, duplicate) w =
    let c = w.counters in
    if duplicate then w else record w {
      counters = record c { tlsrpt_ingested_total = c.tlsrpt_ingested_total + 1 };
      notices = w.notices ++ (tlsrpt_ingested id rep.organization_name rep.report_id ∷ []);
    }

-- behind a successful `SaveForensic`
unfoldable pub forensic_saved : ℕ → World → World
forensic_saved id w =
    let c = w.counters in
    record w {
      counters = record c { forensic_ingested_total = c.forensic_ingested_total + 1 };
      notices = w.notices ++ (forensic_ingested id ∷ []);
    }

abbrev pub original_of : Option Bytes → Bytes
original_of none = []
original_of (some o) = o

-- behind `SaveReport`; `none` is `outcomeRetry`
unfoldable pub after_report :
    Report → Tally → Result StoreError SaveResult × Tables → World → Option Tally × World
unfolding report_saved
after_report rep n (err e, t) w = (none, record w { tables = t })
after_report rep n (ok res, t) w =
    (some (was_stored n), report_saved rep res (record w { tables = t }))

-- behind `SaveTLSRPT`
unfoldable pub after_tls :
    TlsReport → Tally → Result TlsStoreError (ℕ × Bool) × TlsTables → World → Option Tally × World
unfolding tls_saved
after_tls rep n (err e, t) w = (none, record w { tls = t })
after_tls rep n (ok res, t) w = (some (was_stored n), tls_saved rep res (record w { tls = t }))

-- behind `SaveForensic`
unfoldable pub after_forensic : Tally → Option ℕ × ForensicTable → World → Option Tally × World
unfolding forensic_saved
after_forensic n (none, t) w = (none, record w { forensics = t })
after_forensic n (some id, t) w =
    (some (was_stored n), forensic_saved id (record w { forensics = t }))

module _ (env : Env) where
  unfoldable pub store_report : ℕ → Result ParseError Report → Tally → World → Option Tally × World
  unfolding after_report
  store_report i (err e) n w = (some (parse_failed n), w)
  store_report i (ok rep) n w =
      after_report rep n (save_report (env.save_fails i) env.now env.store_raw_xml rep w.tables) w

  -- one round of the loop over `pl.Aggregates`
  unfoldable pub take_aggregate : ℕ → Bytes → Tally → World → Option Tally × World
  unfolding store_report
  take_aggregate i x n w = store_report i (env.parse_report x) n w

  unfoldable pub store_tls :
      ℕ → Bytes → Result TlsError TlsReport → Tally → World → Option Tally × World
  unfolding after_tls
  store_tls i doc (err e) n w = (some (parse_failed n), w)
  store_tls i doc (ok rep) n w = after_tls rep n (save_tls (env.tls_fails i) rep doc w.tls) w

  -- one round of the loop over `pl.TLSRPT`
  unfoldable pub take_tls : ℕ → Bytes → Tally → World → Option Tally × World
  unfolding store_tls
  take_tls i doc n w = store_tls i doc (env.parse_tls_report doc) n w

  unfoldable pub store_forensic :
      ℕ → Result ForensicError ForensicReport → Tally → World → Option Tally × World
  unfolding after_forensic
  store_forensic i (err e) n w = (some (parse_failed n), w)
  store_forensic i (ok fr) n w =
      after_forensic n (save_forensic (env.forensic_fails i) fr w.forensics) w

  -- one round of the loop over `pl.Forensic`
  unfoldable pub take_forensic : ℕ → ForensicParts → Tally → World → Option Tally × World
  unfolding store_forensic
  take_forensic i fp n w =
      store_forensic i
        (env.parse_failure_report fp.feedback (original_of fp.original) env.ruf_redact) n w

-- a loop over documents that leaves at the first `return outcomeRetry`
unfoldable pub each_doc {ℓ} :
    {A : Type ℓ}
    → (ℕ → A → Tally → World → Option Tally × World)
    → ℕ
    → List A
    → Tally
    → World
    → Option Tally × World
each_doc take i [] n w = (some n, w)
each_doc take i (x ∷ xs) n w =
    let (o, w') = take i x n w in
    elim o [ none ↦ (none, w') | some n' ↦ each_doc take (i + 1) xs n' w' ]

-- the next loop, unless the one before it has returned
unfoldable pub and_then :
    Option Tally × World → (Tally → World → Option Tally × World) → Option Tally × World
and_then (none, w) f = (none, w)
and_then (some n, w) f = f n w

abbrev pub verdict : Option Tally → Outcome
verdict none = retry_mail
verdict (some n) = if n.stored == 0 && ltb 0 n.parse_errs then failed_mail else processed

abbrev pub no_tally : Tally
no_tally = record { stored = 0; parse_errs = 0 }

module _ (env : Env) where
  -- the three loops
  unfoldable pub store_payloads : Payloads → World → Option Tally × World
  unfolding each_doc and_then take_aggregate take_tls take_forensic
  store_payloads pl w =
      and_then
        (and_then (each_doc (take_aggregate env) 0 pl.aggregates no_tally w)
          (each_doc (take_tls env) 0 pl.tls_reports))
        (each_doc (take_forensic env) 0 pl.forensic)

  -- behind the extraction
  unfoldable pub process_payloads : Result MailError Payloads → World → Outcome × World
  unfolding store_payloads
  process_payloads (err e) w = (failed_mail, w)
  process_payloads (ok pl) w =
      if has_none pl
      then (ignored_mail, w)
      else (verdict (store_payloads pl w).0, (store_payloads pl w).1)

  unfoldable pub process_mail : Bytes → World → Outcome × World
  unfolding process_payloads
  process_mail raw w = process_payloads (env.extract raw) w
