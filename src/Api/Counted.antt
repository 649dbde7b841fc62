-- ===== src/Api/Counted.antt =====
-- The counts of the ingest handler.
use dmarcparser.Report.Parse.{ParseError}
use dmarcparser.Report.Payload.{Archives, ExpandError, expand_payload}
use dmarcparser.Store.Atomic.{save_report-Saved}
use mathlib.Core.Path.{subst}
use dmarcparser.Api.{
  Response, IngestResult, Ingested, note_result, new_serials, result_for, report_ingested,
  unless_answered, ingest_doc, ingest_docs, ingest_payload, ingest,
}
use dmarcparser.Base.{
  if◌then◌else◌, Bool-cases, length, length-append, Result, ok, err, ◌+◌, ◌≡◌, inl, inr, Bool, List,
  [], ◌∷◌, ◌++◌, arith, ℕ, refl, ap, false, Option, none, some,
}
use dmarcparser.Forensic.{before}
use dmarcparser.Poller.{World, Env}
use dmarcparser.Poller.Counts.{Balanced, added, Balanced-refl, Balanced-trans, Saved-length}
use dmarcparser.Report.{Report}
use dmarcparser.Store.Reports.{Tables, SaveResult, StoreError}
use dmarcparser.Text.{codes, Bytes}

-- What `ingest` promises of the state behind it: the counters agree with the tables, and an answer
-- that lists results lists a new serial for each report that was added.
record Answered (w : World) (before : List IngestResult) (p : Result Response Ingested × World)
    : Type 0 where
  pub balanced : Balanced w p.1
  pub listed :
      {rs : List IngestResult} {any_new : Bool}
      → p.0 ≡ ok (rs, any_new)
      → length p.1.tables.reports + length (new_serials before)
        ≡ length w.tables.reports + length (new_serials rs)

new_serials-snoc :
    (rs : List IngestResult) (r : IngestResult)
    → length (new_serials (rs ++ r ∷ [])) ≡ length (new_serials rs) + (if r.duplicate then 0 else 1)
unfolding new_serials
new_serials-snoc [] r = ground arith
new_serials-snoc (x ∷ rs) r = elim (Bool-cases x.duplicate) [
  | inl h ↦ rw h (new_serials-snoc rs r)
  | inr h ↦ rw h (omega (arith, new_serials-snoc rs r))
]

-- the results of a document that was saved
listed_new :
    (rep : Report) (rs : List IngestResult) (any_new : Bool) (res : SaveResult) (t : Tables)
    (w : World) {rs' : List IngestResult}
    → length t.reports ≡ length w.tables.reports + added (ok res)
    → rs ++ result_for rep res ∷ [] ≡ rs'
    → length (report_ingested rep res (record w { tables = t })).tables.reports
        + length (new_serials rs)
      ≡ length w.tables.reports + length (new_serials rs')
unfolding report_ingested
listed_new rep rs any_new res t w {rs'} h e =
    subst
      (λ z.
        length (report_ingested rep res (record w { tables = t })).tables.reports
          + length (new_serials rs)
        ≡ length w.tables.reports + length (new_serials z))
      e (ground (arith, new_serials-snoc rs (result_for rep res)))

note_result-Answered :
    (rep : Report) (a : Ingested) (p : Result StoreError SaveResult × Tables) (w : World)
    → length p.1.reports ≡ length w.tables.reports + added p.0
    → Answered w a.0 (note_result rep a p w)
unfolding note_result
note_result-Answered rep (rs, any_new) (err e, t) w h = record {
  balanced = ground arith;
  listed = λ k. absurd (cc);
}
note_result-Answered rep (rs, any_new) (ok res, t) w h = record {
  balanced = ground (
    arith,
    length-append w.emitted (record { report = rep; result = res; source = codes "api" } ∷ []),
  );
  listed = λ k. listed_new rep rs any_new res t w h (cc);
}

ingest_doc-Answered :
    (env : Env) (i : ℕ) (r : Result ParseError Report) (a : Ingested) (w : World)
    → Answered w a.0 (ingest_doc env i r a w)
unfolding ingest_doc
ingest_doc-Answered env i (err e) a w = record {
  balanced = Balanced-refl w;
  listed = λ k. absurd (cc);
}
ingest_doc-Answered env i (ok rep) a w = note_result-Answered rep a _ w (
    Saved-length (env.save_fails i) env.now env.store_raw_xml rep w.tables
      (save_report-Saved (env.save_fails i) env.now env.store_raw_xml rep w.tables))

unless_answered-Answered :
    (w : World) (before : List IngestResult) (p : Result Response Ingested × World)
    (next : Ingested → World → Result Response Ingested × World)
    → Answered w before p
    → ((a : Ingested) (v : World) → Answered v a.0 (next a v))
    → Answered w before (unless_answered p next)
unfolding unless_answered
unless_answered-Answered w before (err e, v) next s f = record {
  balanced = s.balanced;
  listed = λ k. absurd (cc);
}
unless_answered-Answered w before (ok (rs, any_new), v) next s f =
    let t = f (rs, any_new) v in
    record {
      balanced = Balanced-trans w v _ s.balanced t.balanced;
      listed = λ k. omega (arith, t.listed k, s.listed refl);
    }

ingest_docs-Answered :
    (env : Env) (i : ℕ) (ds : List Bytes) (a : Ingested) (w : World)
    → Answered w a.0 (ingest_docs env i ds a w)
unfolding ingest_docs
ingest_docs-Answered env i [] (rs, any_new) w = record {
  balanced = Balanced-refl w;
  listed = λ {rs = rs'} k.
      let same : rs ≡ rs' = cc in ap (λ z. length w.tables.reports + length (new_serials z)) same;
}
ingest_docs-Answered env i (d ∷ ds) a w =
    unless_answered-Answered w a.0 (ingest_doc env i (env.parse_report d) a w)
      (ingest_docs env (i + 1) ds) (ingest_doc-Answered env i (env.parse_report d) a w)
      (λ b v. ingest_docs-Answered env (i + 1) ds b v)

ingest_payload-Answered :
    (env : Env) (p : Result ExpandError (List Bytes)) (w : World)
    → Answered w [] (ingest_payload env p w)
unfolding ingest_payload
ingest_payload-Answered env (err e) w = record {
  balanced = Balanced-refl w;
  listed = λ k. absurd (cc);
}
ingest_payload-Answered env (ok []) w = record {
  balanced = Balanced-refl w;
  listed = λ k. absurd (cc);
}
ingest_payload-Answered env (ok (d ∷ ds)) w = ingest_docs-Answered env 0 (d ∷ ds) ([], false) w

ingest-Answered :
    (env : Env) (ar : Archives) (body : Option Bytes) (w : World)
    → Answered w [] (ingest env ar body w)
unfolding ingest
ingest-Answered env ar none w = record { balanced = Balanced-refl w; listed = λ k. absurd (cc) }
ingest-Answered env ar (some b) w = ingest_payload-Answered env (expand_payload ar b) w

-- Whatever `ingest` answers, errors included, as many reports were added to the table as events were
-- emitted and as the counter of ingested reports grew by.
pub ingest-Balanced :
    (env : Env) (ar : Archives) (body : Option Bytes) (w : World)
    → Balanced w (ingest env ar body w).1
ingest-Balanced env ar body w = (ingest-Answered env ar body w).balanced

-- Where `ingest` answers with results, the serials that it hands to the audit are as many as the
-- reports that were added to the table.
ingest-new_serials :
    (env : Env) (ar : Archives) (body : Option Bytes) (w : World) {rs : List IngestResult}
    {any_new : Bool}
    → (ingest env ar body w).0 ≡ ok (rs, any_new)
    → length (ingest env ar body w).1.tables.reports
      ≡ length w.tables.reports + length (new_serials rs)
unfolding new_serials
ingest-new_serials env ar body w e = omega (arith, (ingest-Answered env ar body w).listed e)
