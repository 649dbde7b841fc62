-- ===== src/Selectors/Backfill.antt =====
-- `Backfill` of parser/internal/selectors/selectors.go, with `ReportRawXMLBatch` of
-- store/store_reports2.go. The rows of `report` are given in the order of their serials.
pub mod Keyset
pub mod Resaved
use dmarcparser.Base.{
  ltb, if◌then◌else◌, length, take, is_empty, Result, ok, err, ℕ, zero, suc, ◌+◌, Bool, true, false,
  Option, none, some, List, [], ◌∷◌,
}
use dmarcparser.Report.{Report}
use dmarcparser.Report.Parse.{ParseError}
use dmarcparser.Store.Reports.{ReportRow}
use dmarcparser.Text.{Bytes}
use dmarcparser.Unicode.{Casing}
use dmarcparser.Selectors.{DkimRow, DkimStmt, dkim_auth_entries, save_dkim_auth, DkimAuthEntry}

-- `RawXMLRow`: serial and document
abbrev pub RawRow : Type 0
RawRow = ℕ × Bytes

abbrev pub raw_row : ReportRow → Option Bytes → List RawRow → List RawRow
raw_row row none rest = rest
raw_row row (some xml) rest = (row.serial, xml) ∷ rest

-- `raw_xml IS NOT NULL`
unfoldable pub raw_rows : List ReportRow → List RawRow
raw_rows [] = []
raw_rows (row ∷ rows) = raw_row row row.raw (raw_rows rows)

-- `serial > $1`
unfoldable pub newer : ℕ → List RawRow → List RawRow
newer after [] = []
newer after (row ∷ rows) =
    let rest = newer after rows in if ltb after row.0 then row ∷ rest else rest

-- `ReportRawXMLBatch`
unfoldable pub raw_xml_batch : ℕ → ℕ → List RawRow → List RawRow
unfolding newer
raw_xml_batch after limit rows = take limit (newer after rows)

abbrev pub backfill_batch : ℕ
backfill_batch = 500

pub data BackfillEnd : Type 0 where
  backfill_complete batch_failed resave_failed : BackfillEnd

-- the variables of the loop, and the table
pub record Progress : Type 0 where
  pub after : ℕ
  pub done_reports : ℕ
  pub done_entries : ℕ
  pub parse_errs : ℕ
  pub dkim_rows : List DkimRow

pub record BackfillFaults : Type 0 where
  pub batch_fails : ℕ → Bool
  pub stmt_fails : ℕ → DkimStmt → Bool

module _ (cs : Casing) (parse : Bytes → Result ParseError Report) (fa : BackfillFaults) where
  -- behind `SaveDKIMAuth`: does the loop go on?
  abbrev pub saved_row : ℕ → List DkimAuthEntry → Progress → Bool × List DkimRow → Bool × Progress
  saved_row serial es s (true, rows) = (
    true,
    record {
      after = serial;
      done_reports = s.done_reports + 1;
      done_entries = s.done_entries + length es;
      parse_errs = s.parse_errs;
      dkim_rows = rows;
    },
  )
  saved_row serial es s (false, rows) = (false, record s { after = serial; dkim_rows = rows })

  abbrev pub parsed_row : ℕ → Progress → Result ParseError Report → Bool × Progress
  parsed_row serial s (err e) = (true, record s { after = serial; parse_errs = s.parse_errs + 1 })
  parsed_row serial s (ok rep) =
      let es = dkim_auth_entries cs rep in
      saved_row serial es s (save_dkim_auth (fa.stmt_fails serial) serial es s.dkim_rows)

  unfoldable pub take_row : RawRow → Progress → Bool × Progress
  unfolding dkim_auth_entries save_dkim_auth
  take_row (serial, xml) s = parsed_row serial s (parse xml)

  -- the loop over a batch
  unfoldable pub take_batch : List RawRow → Progress → Bool × Progress
  unfolding take_row
  take_batch [] s = (true, s)
  take_batch (row ∷ rows) s =
      let r = take_row row s in let rest = take_batch rows r.1 in if r.0 then rest else r

  -- the outer loop, on fuel; `none` if that runs out
  unfoldable pub backfill_loop : ℕ → List RawRow → Progress → Option BackfillEnd × Progress
  unfolding take_batch raw_xml_batch
  backfill_loop zero rows s = (none, s)
  backfill_loop (suc fuel) rows s =
      let batch = raw_xml_batch s.after backfill_batch rows in
      let r = take_batch batch s in
      let next = backfill_loop fuel rows r.1 in
      if fa.batch_fails s.after
      then (some batch_failed, s)
      else if is_empty batch
      then (some backfill_complete, s)
      else if r.0
      then next
      else (some resave_failed, r.1)

  abbrev pub started : List DkimRow → Progress
  started rows = record {
    after = 0;
    done_reports = 0;
    done_entries = 0;
    parse_errs = 0;
    dkim_rows = rows;
  }

  -- `Backfill`: each round but the last takes a row at least
  unfoldable pub backfill_selectors : List ReportRow → List DkimRow → Option BackfillEnd × Progress
  unfolding backfill_loop raw_rows
  backfill_selectors rows t = backfill_loop (length (raw_rows rows) + 1) (raw_rows rows) (started t)
