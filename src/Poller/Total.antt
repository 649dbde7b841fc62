-- ===== src/Poller/Total.antt =====
-- With no failing statement no mail is left behind.
use dmarcparser.Rollup.{counted}
use dmarcparser.Base.{
  Bool-cases, Option-cases, Result, ok, err, ℕ, ◌+◌, ◌≡◌, refl, ◌≢◌, inl, inr, Bool, true, false,
  Option, none, some, List, [], ◌∷◌, arith,
}
use dmarcparser.Base.Int.{ℤ, pos, add64}
use dmarcparser.Forensic.{ForensicReport, ForensicError}
use dmarcparser.Mailx.{Payloads, MailError, has_none}
use dmarcparser.Poller.{
  retry_mail, World, Env, Tally, original_of, after_report, after_tls, after_forensic, store_report,
  take_aggregate, store_tls, take_tls, store_forensic, take_forensic, each_doc, and_then, verdict,
  no_tally, store_payloads, process_payloads, process_mail,
}
use dmarcparser.Poller.Outcomes.{process_mail_outcome}
use dmarcparser.Poller.Tallied.{expected, NoFaults}
use dmarcparser.Report.{Record, Report}
use dmarcparser.Report.Parse.{ParseError}
use dmarcparser.Store.Reports.{
  ReportRow, Tables, SaveResult, StoreError, Stmt, begin_tx, insert_report, lookup_duplicate,
  commit_tx, insert_record, find_report, insert_records, save_duplicate, save_new, save_at,
  save_report,
}
use dmarcparser.Store.TlsReports.{
  TlsRow, TlsTables, TlsStoreError, TlsStmt, tls_begin, tls_insert, tls_lookup, tls_commit,
  tls_policy, find_tls, insert_policies, save_tls_at, save_tls, save_forensic,
}
use dmarcparser.Text.{Bytes}
use dmarcparser.TlsReport.{PolicyResult, TlsReport, TlsError}

insert_records_total :
    (fails : Stmt → Bool) (i : ℕ) (m : ℤ) (recs : List Record)
    → ((s : Stmt) → fails s ≡ false)
    → (n : ℕ) × (k : ℤ) × (insert_records fails i m recs ≡ some (n, k))
unfolding insert_records
insert_records_total fails i m [] h = (i, m, refl)
insert_records_total fails i m (rec ∷ recs) h =
    rw (h (insert_record i)) (insert_records_total fails (i + 1) (add64 m rec.count) recs h)

save_at_total :
    (fails : Stmt → Bool) (now : ℕ) (store_raw : Bool) (r : Report) (o : Option ReportRow)
    (t : Tables)
    → ((s : Stmt) → fails s ≡ false)
    → (res : SaveResult) × ((save_at fails now store_raw r o t).0 ≡ ok res)
unfolding save_at save_duplicate save_new
save_at_total fails now store_raw r none t h =
    let (n, k, all) = insert_records_total fails 0 (pos 0) r.records h in
    (
      record { serial = t.next_serial; duplicate = false; records = n; messages = k },
      rw (all, h commit_tx),
    )
save_at_total fails now store_raw r (some row) t h = (
  record { serial = row.serial; duplicate = true; records = 0; messages = pos 0 },
  rw (h lookup_duplicate),
)

-- `SaveReport` succeeds if its statements do.
save_report_total :
    (fails : Stmt → Bool) (now : ℕ) (store_raw : Bool) (r : Report) (t : Tables)
    → ((s : Stmt) → fails s ≡ false)
    → (res : SaveResult) × ((save_report fails now store_raw r t).0 ≡ ok res)
unfolding save_report
save_report_total fails now store_raw r t h =
    rw (h begin_tx, h insert_report)
      (save_at_total fails now store_raw r (find_report r t.reports) t h)

insert_policies_total :
    (fails : TlsStmt → Bool) (i : ℕ) (ps : List PolicyResult)
    → ((s : TlsStmt) → fails s ≡ false)
    → insert_policies fails i ps ≡ true
unfolding insert_policies
insert_policies_total fails i [] h = refl
insert_policies_total fails i (p ∷ ps) h =
    rw (h (tls_policy i)) (insert_policies_total fails (i + 1) ps h)

save_tls_at_total :
    (fails : TlsStmt → Bool) (r : TlsReport) (raw : Bytes) (o : Option TlsRow) (t : TlsTables)
    → ((s : TlsStmt) → fails s ≡ false)
    → (res : ℕ × Bool) × ((save_tls_at fails r raw o t).0 ≡ ok res)
unfolding save_tls_at
save_tls_at_total fails r raw none t h =
    ((t.next_id, false), rw (insert_policies_total fails 0 r.policies h, h tls_commit))
save_tls_at_total fails r raw (some row) t h = ((row.id, true), rw (h tls_lookup))

save_tls_total :
    (fails : TlsStmt → Bool) (r : TlsReport) (raw : Bytes) (t : TlsTables)
    → ((s : TlsStmt) → fails s ≡ false)
    → (res : ℕ × Bool) × ((save_tls fails r raw t).0 ≡ ok res)
unfolding save_tls
save_tls_total fails r raw t h =
    rw (h tls_begin, h tls_insert) (save_tls_at_total fails r raw (find_tls r t.reports) t h)

after_report-ne_none :
    (rep : Report) (n : Tally) (p : Result StoreError SaveResult × Tables) (w : World)
    (res : SaveResult)
    → p.0 ≡ ok res
    → (after_report rep n p w).0 ≢ none
unfolding after_report
after_report-ne_none rep n (ok r, t) w res e = ground arith
after_report-ne_none rep n (err x, t) w res e = absurd (cc (e))

after_tls-ne_none :
    (rep : TlsReport) (n : Tally) (p : Result TlsStoreError (ℕ × Bool) × TlsTables) (w : World)
    (res : ℕ × Bool)
    → p.0 ≡ ok res
    → (after_tls rep n p w).0 ≢ none
unfolding after_tls
after_tls-ne_none rep n (ok r, t) w res e = ground arith
after_tls-ne_none rep n (err x, t) w res e = absurd (cc (e))

abbrev NeverEarly {ℓ} : {A : Type ℓ} → (ℕ → A → Tally → World → Option Tally × World) → Type ℓ
NeverEarly {A = A} act = (i : ℕ) (x : A) (n : Tally) (w : World) → (act i x n w).0 ≢ none

each_doc-ne_none {ℓ} :
    {A : Type ℓ} (act : ℕ → A → Tally → World → Option Tally × World)
    → NeverEarly act
    → (xs : List A) (i : ℕ) (n : Tally) (w : World) → (each_doc act i xs n w).0 ≢ none
unfolding each_doc
each_doc-ne_none act h [] i n w = ground arith
each_doc-ne_none act h (x ∷ xs) i n w = elim (Option-cases (act i x n w).0) [
  | inl early ↦ absurd (h i x n w early)
  | inr (n', counted) ↦
      rw (counted, each_doc) (each_doc-ne_none act h xs (i + 1) n' (act i x n w).1)
]

and_then-ne_none :
    (p : Option Tally × World) (f : Tally → World → Option Tally × World)
    → p.0 ≢ none
    → ((m : Tally) (v : World) → (f m v).0 ≢ none)
    → (and_then p f).0 ≢ none
unfolding and_then
and_then-ne_none (none, w) f a h = absurd (a refl)
and_then-ne_none (some m, w) f a h = h m w

module _ (env : Env) (ok_env : NoFaults env) where
  store_report-ne_none :
      (i : ℕ) (p : Result ParseError Report) (n : Tally) (w : World)
      → (store_report env i p n w).0 ≢ none
  unfolding store_report
  store_report-ne_none i (err e) n w = ground arith
  store_report-ne_none i (ok rep) n w =
      let (res, e) =
        save_report_total (env.save_fails i) env.now env.store_raw_xml rep w.tables
          (ok_env.no_save_fault i) in
      after_report-ne_none rep n _ w res e

  store_tls-ne_none :
      (i : ℕ) (doc : Bytes) (p : Result TlsError TlsReport) (n : Tally) (w : World)
      → (store_tls env i doc p n w).0 ≢ none
  unfolding store_tls
  store_tls-ne_none i doc (err e) n w = ground arith
  store_tls-ne_none i doc (ok rep) n w =
      let (res, e) = save_tls_total (env.tls_fails i) rep doc w.tls (ok_env.no_tls_fault i) in
      after_tls-ne_none rep n _ w res e

  store_forensic-ne_none :
      (i : ℕ) (p : Result ForensicError ForensicReport) (n : Tally) (w : World)
      → (store_forensic env i p n w).0 ≢ none
  unfolding store_forensic after_forensic save_forensic
  store_forensic-ne_none i (err e) n w = ground arith
  store_forensic-ne_none i (ok fr) n w = ground (arith, ok_env.no_forensic_fault i)

  store_payloads-ne_none : (pl : Payloads) (w : World) → (store_payloads env pl w).0 ≢ none
  unfolding store_payloads take_aggregate take_tls take_forensic
  store_payloads-ne_none pl w =
      and_then-ne_none _ _
        (and_then-ne_none _ _
          (each_doc-ne_none (take_aggregate env)
            (λ i x n v. store_report-ne_none i (env.parse_report x) n v) pl.aggregates 0 no_tally w)
          (λ m v.
            each_doc-ne_none (take_tls env)
              (λ i x n u. store_tls-ne_none i x (env.parse_tls_report x) n u) pl.tls_reports 0 m v))
        (λ m v.
          each_doc-ne_none (take_forensic env)
            (λ i x n u.
              store_forensic-ne_none i
                (env.parse_failure_report x.feedback (original_of x.original) env.ruf_redact) n u)
            pl.forensic 0 m v)

  verdict-ne_retry : (o : Option Tally) → o ≢ none → verdict o ≢ retry_mail
  verdict-ne_retry none h = absurd (h refl)
  verdict-ne_retry (some n) h = ground arith

  process_payloads-ne_retry :
      (p : Result MailError Payloads) (w : World) → (process_payloads env p w).0 ≢ retry_mail
  unfolding process_payloads
  process_payloads-ne_retry (err e) w = ground arith
  process_payloads-ne_retry (ok pl) w = elim (Bool-cases (has_none pl)) [
    | inl h ↦ rw h (ground arith)
    | inr h ↦ rw h (verdict-ne_retry (store_payloads env pl w).0 (store_payloads-ne_none pl w))
  ]

  -- If no statement of its saves fails, a mail is filed in the first cycle, by what it holds alone.
  pub process_mail_settled :
      (raw : Bytes) (w : World) → (process_mail env raw w).0 ≡ expected env raw
  process_mail_settled raw w = elim (process_mail_outcome env raw w) [
    | inl early ↦
        absurd (process_payloads-ne_retry (env.extract raw) w (unfold process_mail in early))
    | inr e ↦ e
  ]
