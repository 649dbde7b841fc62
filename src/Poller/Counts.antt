-- ===== src/Poller/Counts.antt =====
-- The books of `processMail` of poller.go balance.
use dmarcparser.Rollup.{counted}
use dmarcparser.Forensic.{ForensicReport, ForensicError}
use dmarcparser.Mailx.{Payloads, MailError, has_none}
use dmarcparser.Report.Parse.{ParseError}
use dmarcparser.Store.TlsReports.{
  TlsRow, TlsTables, TlsStmt, save_tls_at, TlsStoreError, nullable, find_tls, save_tls,
  save_forensic,
}
use dmarcparser.Text.{Bytes}
use dmarcparser.TlsReport.{TlsReport, TlsError}
use dmarcparser.Base.{
  if◌then◌else◌, length, length-append, Result, ok, err, ℕ, ◌+◌, ◌≡◌, Bool, arith, Option, none,
  some, [], ◌∷◌, Bool-cases, Option-cases, inl, inr, List,
}
use dmarcparser.Poller.{
  World, Env, Tally, imap, after_report, store_report, original_of, after_tls, after_forensic,
  take_aggregate, store_tls, take_tls, store_forensic, take_forensic, each_doc, and_then, no_tally,
  store_payloads, process_payloads, process_mail,
}
use dmarcparser.Report.{Report}
use dmarcparser.Store.Atomic.{Saved, save_failed, save_found, save_stored, save_report-Saved}
use dmarcparser.Store.Reports.{Tables, SaveResult, StoreError, Stmt}

-- From `w` to `w'` the counters, the tables and the events emitted grew by the same amounts, and the
-- counters of mails are as they were.
pub record Balanced (w w' : World) : Type 0 where
  pub emitted_counted :
      length w'.emitted + w.counters.reports_ingested
      ≡ length w.emitted + w'.counters.reports_ingested
  pub stored_emitted :
      length w'.tables.reports + length w.emitted ≡ length w.tables.reports + length w'.emitted
  pub tls_counted :
      length w'.tls.reports + w.counters.tlsrpt_ingested_total
      ≡ length w.tls.reports + w'.counters.tlsrpt_ingested_total
  pub forensic_counted :
      length w'.forensics.rows + w.counters.forensic_ingested_total
      ≡ length w.forensics.rows + w'.counters.forensic_ingested_total
  pub processed_same : w'.counters.mails_processed ≡ w.counters.mails_processed
  pub ignored_same : w'.counters.mails_ignored ≡ w.counters.mails_ignored
  pub failed_same : w'.counters.mails_failed ≡ w.counters.mails_failed

pub Balanced-refl : (w : World) → Balanced w w
Balanced-refl w = omega arith

pub Balanced-trans : (u v w : World) → Balanced u v → Balanced v w → Balanced u w
Balanced-trans u v w a b = omega arith

-- how many reports a save adds
abbrev pub added : Result StoreError SaveResult → ℕ
added (err e) = 0
added (ok res) = if res.duplicate then 0 else 1

pub Saved-length :
    (fails : Stmt → Bool) (now : ℕ) (store_raw : Bool) (r : Report) (t : Tables)
    {p : Result StoreError SaveResult × Tables}
    → Saved fails now store_raw r t p
    → length p.1.reports ≡ length t.reports + added p.0
Saved-length fails now store_raw r t (save_failed h) = omega arith
Saved-length fails now store_raw r t (save_found h) = omega arith
Saved-length fails now store_raw r t (save_stored h k) =
    omega (arith, length-append {0} t.reports _)

after_report-Balanced :
    (rep : Report) (n : Tally) (p : Result StoreError SaveResult × Tables) (w : World)
    → length p.1.reports ≡ length w.tables.reports + added p.0
    → Balanced w (after_report rep n p w).1
unfolding after_report
after_report-Balanced rep n (err e, t) w h = ground arith
after_report-Balanced rep n (ok res, t) w h =
    ground
      (arith, length-append w.emitted (record { report = rep; result = res; source = imap } ∷ []))

store_report-Balanced :
    (env : Env) (i : ℕ) (p : Result ParseError Report) (n : Tally) (w : World)
    → Balanced w (store_report env i p n w).1
unfolding store_report
store_report-Balanced env i (err e) n w = Balanced-refl w
store_report-Balanced env i (ok rep) n w = after_report-Balanced rep n _ w (
    Saved-length (env.save_fails i) env.now env.store_raw_xml rep w.tables
      (save_report-Saved (env.save_fails i) env.now env.store_raw_xml rep w.tables))

-- how many TLS reports a save adds
abbrev pub added_tls : Result TlsStoreError (ℕ × Bool) → ℕ
added_tls (err e) = 0
added_tls (ok (id, duplicate)) = if duplicate then 0 else 1

save_tls_at-length :
    (fails : TlsStmt → Bool) (r : TlsReport) (raw : Bytes) (o : Option TlsRow) (t : TlsTables)
    → length (save_tls_at fails r raw o t).1.reports
      ≡ length t.reports + added_tls (save_tls_at fails r raw o t).0
unfolding save_tls_at
save_tls_at-length fails r raw none t = ground (
  arith,
  length-append t.reports (
      record { id = t.next_id; report = r; contact = nullable r.contact_info; raw_json = raw }
      ∷ []),
)
save_tls_at-length fails r raw (some row) t = ground arith

save_tls-length :
    (fails : TlsStmt → Bool) (r : TlsReport) (raw : Bytes) (t : TlsTables)
    → length (save_tls fails r raw t).1.reports
      ≡ length t.reports + added_tls (save_tls fails r raw t).0
unfolding save_tls
save_tls-length fails r raw t =
    ground (arith, save_tls_at-length fails r raw (find_tls r t.reports) t)

after_tls-Balanced :
    (rep : TlsReport) (n : Tally) (p : Result TlsStoreError (ℕ × Bool) × TlsTables) (w : World)
    → length p.1.reports ≡ length w.tls.reports + added_tls p.0
    → Balanced w (after_tls rep n p w).1
unfolding after_tls
after_tls-Balanced rep n (err e, t) w h = ground arith
after_tls-Balanced rep n (ok (id, duplicate), t) w h = ground arith

store_tls-Balanced :
    (env : Env) (i : ℕ) (doc : Bytes) (p : Result TlsError TlsReport) (n : Tally) (w : World)
    → Balanced w (store_tls env i doc p n w).1
unfolding store_tls
store_tls-Balanced env i doc (err e) n w = Balanced-refl w
store_tls-Balanced env i doc (ok rep) n w =
    after_tls-Balanced rep n _ w (save_tls-length (env.tls_fails i) rep doc w.tls)

store_forensic-Balanced :
    (env : Env) (i : ℕ) (p : Result ForensicError ForensicReport) (n : Tally) (w : World)
    → Balanced w (store_forensic env i p n w).1
unfolding store_forensic after_forensic save_forensic
store_forensic-Balanced env i (err e) n w = Balanced-refl w
store_forensic-Balanced env i (ok fr) n w =
    ground (arith, length-append w.forensics.rows ((w.forensics.next_row, fr) ∷ []))

each_doc-Balanced {ℓ} :
    {A : Type ℓ} (act : ℕ → A → Tally → World → Option Tally × World)
    → ((i : ℕ) (x : A) (n : Tally) (w : World) → Balanced w (act i x n w).1)
    → (xs : List A) (i : ℕ) (n : Tally) (w : World) → Balanced w (each_doc act i xs n w).1
unfolding each_doc
each_doc-Balanced act h [] i n w = Balanced-refl w
each_doc-Balanced act h (x ∷ xs) i n w = elim (Option-cases (act i x n w).0) [
  | inl early ↦ rw (early, each_doc) (h i x n w)
  | inr (n', counted) ↦
      rw (counted, each_doc)
        (Balanced-trans w _ _ (h i x n w) (each_doc-Balanced act h xs (i + 1) n' (act i x n w).1))
]

and_then-Balanced :
    (w : World) (p : Option Tally × World) (f : Tally → World → Option Tally × World)
    → Balanced w p.1
    → ((m : Tally) (v : World) → Balanced v (f m v).1)
    → Balanced w (and_then p f).1
unfolding and_then
and_then-Balanced w (none, v) f a h = a
and_then-Balanced w (some m, v) f a h = Balanced-trans w v (f m v).1 a (h m v)

module _ (env : Env) where
  store_payloads-Balanced : (pl : Payloads) (w : World) → Balanced w (store_payloads env pl w).1
  unfolding store_payloads take_aggregate take_tls take_forensic
  store_payloads-Balanced pl w =
      and_then-Balanced w _ _
        (and_then-Balanced w _ _
          (each_doc-Balanced (take_aggregate env)
            (λ i x n v. store_report-Balanced env i (env.parse_report x) n v) pl.aggregates 0
            no_tally w)
          (λ m v.
            each_doc-Balanced (take_tls env)
              (λ i x n u. store_tls-Balanced env i x (env.parse_tls_report x) n u) pl.tls_reports 0
              m v))
        (λ m v.
          each_doc-Balanced (take_forensic env)
            (λ i x n u.
              store_forensic-Balanced env i
                (env.parse_failure_report x.feedback (original_of x.original) env.ruf_redact) n u)
            pl.forensic 0 m v)

  process_payloads-Balanced :
      (p : Result MailError Payloads) (w : World) → Balanced w (process_payloads env p w).1
  unfolding process_payloads
  process_payloads-Balanced (err e) w = Balanced-refl w
  process_payloads-Balanced (ok pl) w = elim (Bool-cases (has_none pl)) [
    | inl h ↦ rw h (Balanced-refl w)
    | inr h ↦ rw h (store_payloads-Balanced pl w)
  ]

  -- Whatever parses and whatever fails while a mail is processed: as many reports were added to the
  -- table as events were emitted to the observers and as the counter of ingested reports grew by,
  -- the TLS and failure reports added match their counters, and the mail counters are unchanged.
  pub process_mail-Balanced : (raw : Bytes) (w : World) → Balanced w (process_mail env raw w).1
  unfolding process_mail
  process_mail-Balanced raw w = process_payloads-Balanced (env.extract raw) w
