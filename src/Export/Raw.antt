-- ===== src/Export/Raw.antt =====
-- The document of a report comes back as it was stored.
use dmarcparser.Export.{raw_xml}
use dmarcparser.Store.Atomic.{Saved, save_failed, save_found, save_stored, save_report-Saved}
use dmarcparser.Store.Unique.{IsSound}
use dmarcparser.Text.{Bytes}
use mathlib.Core.Path.{subst}
use dmarcparser.Base.{
  ◌==◌, Bool-cases, All, Result, err, ℕ, ◌<◌, ◌≡◌, refl, inl, inr, Bool, false, List, [], ◌∷◌, ◌++◌,
  arith, if◌then◌else◌, ==_iff, ok, Option, is_empty, true, not, none, some,
}
use dmarcparser.Report.{Report}
use dmarcparser.Store.Listed.{find_serial}
use dmarcparser.Store.Reports.{
  ReportRow, Tables, SaveResult, StoreError, Stmt, raw_of, committed, save_report,
}

find_serial-append :
    (n : ℕ) (rows more : List ReportRow)
    → All (λ row. row.serial < n) rows
    → find_serial n (rows ++ more) ≡ find_serial n more
unfolding find_serial
find_serial-append n [] more h = refl
find_serial-append n (row ∷ rows) more (b, h) =
    let apart : (row.serial == n) ≡ false = ground arith in
    rw apart (find_serial-append n rows more h)

find_serial-other :
    (n : ℕ) (rows : List ReportRow) (row : ReportRow)
    → (row.serial == n) ≡ false
    → find_serial n (rows ++ row ∷ []) ≡ find_serial n rows
unfolding find_serial
find_serial-other n [] row h = rw h refl
find_serial-other n (x ∷ rows) row h = elim (Bool-cases (x.serial == n)) [
  | inl e ↦ rw e refl
  | inr e ↦ rw e (find_serial-other n rows row h)
]

-- the document that a save keeps of a report: none if it is not to be kept, or is empty
abbrev pub kept_document : Bool → Bytes → Option Bytes
kept_document false doc = none
kept_document true [] = none
kept_document true (c ∷ cs) = some (c ∷ cs)

document_lem :
    (doc : Bytes) → (if not (is_empty doc) then some doc else none) ≡ kept_document true doc
document_lem [] = refl
document_lem (c ∷ cs) = refl

raw_of-eq : (store_raw : Bool) (r : Report) → raw_of store_raw r ≡ kept_document store_raw r.raw_xml
raw_of-eq false r = refl
raw_of-eq true r = document_lem r.raw_xml

-- what `RawXML` is to answer behind a save
abbrev pub raw_after : Bool → Report → Tables → ℕ → Result StoreError SaveResult → Option Bytes
raw_after store_raw r t n (err e) = raw_xml n t
raw_after store_raw r t n (ok res) =
    if res.duplicate
    then raw_xml n t
    else if t.next_serial == n
    then kept_document store_raw r.raw_xml
    else raw_xml n t

find_serial-committed :
    (now n : ℕ) (store_raw : Bool) (r : Report) (t : Tables)
    → All (λ row. row.serial < t.next_serial) t.reports
    → raw_xml n (committed now store_raw r t)
      ≡ (if t.next_serial == n then kept_document store_raw r.raw_xml else raw_xml n t)
unfolding raw_xml find_serial
find_serial-committed now n store_raw r t below =
    let row : ReportRow = record {
      serial = t.next_serial;
      report = r;
      raw = raw_of store_raw r;
      seen = now;
    } in
    elim (Bool-cases (t.next_serial == n)) [
      | inl e ↦
          let same : t.next_serial ≡ n = (==_iff _ _).0 e in
          let fresh =
            find_serial-append n t.reports (row ∷ [])
              (subst (λ k. All (λ row. row.serial < k) t.reports) same below) in
          rw (fresh, e) (raw_of-eq store_raw r)
      | inr e ↦ rw (find_serial-other n t.reports row e, e) refl
    ]

Saved-raw_xml :
    (fails : Stmt → Bool) (now n : ℕ) (store_raw : Bool) (r : Report) (t : Tables)
    {p : Result StoreError SaveResult × Tables}
    → Saved fails now store_raw r t p
    → All (λ row. row.serial < t.next_serial) t.reports
    → raw_xml n p.1 ≡ raw_after store_raw r t n p.0
unfolding raw_xml
Saved-raw_xml fails now n store_raw r t (save_failed h) below = refl
Saved-raw_xml fails now n store_raw r t (save_found h) below = refl
Saved-raw_xml fails now n store_raw r t (save_stored h k) below =
    find_serial-committed now n store_raw r t below

-- Behind a save that stores the report, `RawXML` answers for the new serial with the report's
-- document if it is kept and not empty, and for every other serial as before; behind a duplicate or
-- a failed save it answers as before for all of them.
pub save_report-raw_xml :
    (fails : Stmt → Bool) (now n : ℕ) (store_raw : Bool) (r : Report) (t : Tables)
    → IsSound t
    → let p = save_report fails now store_raw r t in raw_xml n p.1 ≡ raw_after store_raw r t n p.0
save_report-raw_xml fails now n store_raw r t sound =
    Saved-raw_xml fails now n store_raw r t (save_report-Saved fails now store_raw r t)
      sound.reports_below
