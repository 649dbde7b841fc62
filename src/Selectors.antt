-- ===== src/Selectors.antt =====
-- parser/internal/selectors/selectors.go (`OnIngest`), with `DKIMAuthEntries` and `SaveDKIMAuth` of
-- store/store_reports2.go.
pub mod Inventory
pub mod Rewritten
pub mod Backfill
use dmarcparser.Base.{
  ◌==◌, if◌then◌else◌, is_empty, ℕ, ◌+◌, Bool, true, false, not, ◌&&◌, ◌||◌, Option, List, [], ◌∷◌,
  ◌++◌,
}
use dmarcparser.Pipeline.{IngestEvent}
use dmarcparser.Report.{AuthResult, Record, Report}
use dmarcparser.Store.TlsReports.{opt_trunc}
use dmarcparser.Text.{Bytes}
use dmarcparser.Unicode.{Casing}

pub record DkimAuthEntry : Type 0 where
  pub dkim_domain : Option Bytes
  pub dkim_selector : Option Bytes
  pub dkim_result : Option Bytes

-- a row of `dkim_auth`
abbrev pub DkimRow : Type 0
DkimRow = ℕ × DkimAuthEntry

module _ (cs : Casing) where
  unfoldable pub entries_of : List AuthResult → List DkimAuthEntry
  unfolding opt_trunc
  entries_of [] = []
  entries_of (a ∷ rest) =
      record {
        dkim_domain = opt_trunc a.domain 255;
        dkim_selector = opt_trunc a.selector 255;
        dkim_result = opt_trunc (cs.to_lower a.result) 20;
      }
      ∷ entries_of rest

  unfoldable pub record_entries : List Record → List DkimAuthEntry
  unfolding entries_of
  record_entries [] = []
  record_entries (r ∷ rs) = entries_of r.dkim_all ++ record_entries rs

  -- `DKIMAuthEntries`
  unfoldable pub dkim_auth_entries : Report → List DkimAuthEntry
  unfolding record_entries
  dkim_auth_entries r = record_entries r.records

-- the statements of `SaveDKIMAuth`
pub data DkimStmt : Type 0 where
  dkim_begin dkim_delete dkim_commit : DkimStmt
  dkim_insert : ℕ → DkimStmt

-- `DELETE FROM dkim_auth WHERE serial = $1`
unfoldable pub delete_serial : ℕ → List DkimRow → List DkimRow
delete_serial serial [] = []
delete_serial serial ((s, e) ∷ rows) =
    let rest = delete_serial serial rows in if s == serial then rest else (s, e) ∷ rest

unfoldable pub rows_for : ℕ → List DkimAuthEntry → List DkimRow
rows_for serial [] = []
rows_for serial (e ∷ es) = (serial, e) ∷ rows_for serial es

-- do all the inserts succeed?
unfoldable pub inserts_succeed : (DkimStmt → Bool) → ℕ → List DkimAuthEntry → Bool
inserts_succeed fails n [] = true
inserts_succeed fails n (e ∷ es) = not (fails (dkim_insert n)) && inserts_succeed fails (n + 1) es

-- `SaveDKIMAuth`: whether it succeeds, and the table
unfoldable pub save_dkim_auth :
    (DkimStmt → Bool) → ℕ → List DkimAuthEntry → List DkimRow → Bool × List DkimRow
unfolding delete_serial rows_for inserts_succeed
save_dkim_auth fails serial es t =
    if fails dkim_begin || fails dkim_delete
    then (false, t)
    else if not (inserts_succeed fails 0 es)
    then (false, t)
    else if fails dkim_commit
    then (false, t)
    else (true, delete_serial serial t ++ rows_for serial es)

-- `OnIngest`: an error is only logged
unfoldable pub on_ingest : Casing → (DkimStmt → Bool) → IngestEvent → List DkimRow → List DkimRow
unfolding save_dkim_auth dkim_auth_entries
on_ingest cs fails ev t =
    let es = dkim_auth_entries cs ev.report in
    if is_empty es then t else (save_dkim_auth fails ev.result.serial es t).1
