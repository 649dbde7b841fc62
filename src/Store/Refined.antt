-- ===== src/Store/Refined.antt =====
-- `SaveReport` as a change of a map from (domain, report id) to reports.
use dmarcparser.Store.Atomic.{Saved, save_failed, save_found, save_stored, save_report-Saved}
use dmarcparser.Base.{
  if◌then◌else◌, Bool-cases, Result, ok, err, ℕ, ◌≡◌, refl, inl, inr, Bool, ◌&&◌, Option, none,
  some, List, [], ◌∷◌, ◌++◌, sym, ap, ◌∙◌, true, false, arith,
}
use dmarcparser.Report.{Report}
use dmarcparser.Store.Reports.{
  ReportRow, Tables, SaveResult, StoreError, Stmt, find_report, save_report, same_key,
}
use dmarcparser.Text.{Bytes, beq, beq_iff}
use mathlib.Core.Path.{fun_ext}

-- domain and report id
abbrev pub ReportKey : Type 0
ReportKey = Bytes × Bytes

abbrev pub has_key : ReportKey → Report → Bool
has_key k r = beq r.domain k.0 && beq r.report_id k.1

-- The abstract view: what is stored under a key, without serials, order, times and failures.
abbrev pub stored : List ReportRow → ReportKey → Option Report
stored [] k = none
stored (row ∷ rows) k = if has_key k row.report then some row.report else stored rows k

abbrev pub or_else : Option Report → Option Report → Option Report
or_else none b = b
or_else (some a) b = some a

-- The first report of a key is kept.
abbrev pub put_new : Report → (ReportKey → Option Report) → ReportKey → Option Report
put_new r f k = or_else (f k) (if has_key k r then some r else none)

-- One call of `SaveReport`, with what fails in it.
pub record Save : Type 0 where
  pub save_fault : Stmt → Bool
  pub save_time : ℕ
  pub save_raw : Bool
  pub saved : Report

abbrev pub save_once : Save → Tables → Result StoreError SaveResult × Tables
save_once s t = save_report s.save_fault s.save_time s.save_raw s.saved t

abbrev pub save_all : List Save → Tables → Tables
save_all [] t = t
save_all (s ∷ ss) t = save_all ss (save_once s t).1

abbrev pub put_saved :
    Result StoreError SaveResult → Report → (ReportKey → Option Report) → ReportKey → Option Report
put_saved (ok res) r f = put_new r f
put_saved (err e) r f = f

-- The same calls on the map: those that return an error change nothing.
abbrev pub replay : List Save → Tables → (ReportKey → Option Report) → ReportKey → Option Report
replay [] t f = f
replay (s ∷ ss) t f = replay ss (save_once s t).1 (put_saved (save_once s t).0 s.saved f)

stored-append :
    (rows : List ReportRow) (row : ReportRow) (k : ReportKey)
    → stored (rows ++ row ∷ []) k ≡ put_new row.report (stored rows) k
stored-append [] row k = refl
stored-append (x ∷ rows) row k = elim (Bool-cases (has_key k x.report)) [
  | inl h ↦ rw (h, stored) refl
  | inr h ↦ rw (h, stored) (stored-append rows row k)
]

or_else-none : (o : Option Report) → or_else o none ≡ o
or_else-none none = refl
or_else-none (some a) = refl

has_key-same_key : (k : ReportKey) (a b : Report) → same_key a b ≡ true → has_key k a ≡ has_key k b
has_key-same_key k a b h =
    let d : a.domain ≡ b.domain = ground (arith, beq_iff a.domain b.domain) in
    let i : a.report_id ≡ b.report_id = ground (arith, beq_iff a.report_id b.report_id) in rw (d, i)

-- a report with the key of a stored one makes no difference
put_new-find_report :
    (r : Report) (rows : List ReportRow) {row : ReportRow} (k : ReportKey)
    → find_report r rows ≡ some row
    → put_new r (stored rows) k ≡ stored rows k
unfolding find_report
put_new-find_report r [] k h = absurd (cc)
put_new-find_report r (x ∷ rows) k h = elim (Bool-cases (has_key k x.report)) [
  | inl here ↦ rw (here, stored) refl
  | inr there ↦ elim (Bool-cases (same_key x.report r)) [
    | inl same ↦
        let miss : has_key k r ≡ false = sym (has_key-same_key k x.report r same) ∙ there in
        rw miss (or_else-none (stored (x ∷ rows) k))
    | inr other ↦ rw (there, stored) (put_new-find_report r rows k (rw other at h))
  ]
]

Saved-stored :
    (fails : Stmt → Bool) (now : ℕ) (store_raw : Bool) (r : Report) (t : Tables)
    {p : Result StoreError SaveResult × Tables}
    → Saved fails now store_raw r t p
    → stored p.1.reports ≡ put_saved p.0 r (stored t.reports)
Saved-stored fails now store_raw r t (save_failed h) = refl
Saved-stored fails now store_raw r t (save_found h) =
    fun_ext λ k. sym (put_new-find_report r t.reports k h)
Saved-stored fails now store_raw r t (save_stored h n) = fun_ext λ k. stored-append t.reports _ k

-- Any sequence of saves, with any failures, refines its replay on the map: of each key the first
-- report whose save returned without an error is stored, and nothing else.
pub save_all-replay :
    (ss : List Save) (t : Tables) → stored (save_all ss t).reports ≡ replay ss t (stored t.reports)
save_all-replay [] t = refl
save_all-replay (s ∷ ss) t =
    save_all-replay ss (save_once s t).1
    ∙ ap (replay ss (save_once s t).1) (
        Saved-stored s.save_fault s.save_time s.save_raw s.saved t
          (save_report-Saved s.save_fault s.save_time s.save_raw s.saved t))
