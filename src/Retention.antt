-- ===== src/Retention.antt =====
-- parser/internal/retention/retention.go: `purgeRawXML`, `expungeMail` and `runOnce`. Of the rows
-- that a statement may pick, the model picks the first ones of the table.
pub mod Purged
use dmarcparser.Base.{
  ltb, if◌then◌else◌, ℕ, zero, suc, ◌+◌, Bool, true, false, ◌&&◌, Option, none, some, List, [], ◌∷◌,
  ◌==◌, length, ◌||◌, ◌++◌,
}
use dmarcparser.Store.Reports.{ReportRow}
use dmarcparser.Text.{Bytes, is_some}

abbrev pub purge_batch : ℕ
purge_batch = 5000

-- `seen < $1 AND raw_xml IS NOT NULL`
abbrev pub is_due : ℕ → ReportRow → Bool
is_due cutoff row = is_some row.raw && ltb row.seen cutoff

abbrev pub cleared : ReportRow → ReportRow
cleared row = record row { raw = none }

-- one UPDATE: the rows, and how many of them it changed
unfoldable pub purge : ℕ → ℕ → List ReportRow → List ReportRow × ℕ
purge cutoff room [] = ([], 0)
purge cutoff zero (row ∷ rows) = (row ∷ rows, 0)
purge cutoff (suc room) (row ∷ rows) =
    let due = purge cutoff room rows in
    let other = purge cutoff (suc room) rows in
    if is_due cutoff row then (cleared row ∷ due.0, due.1 + 1) else (row ∷ other.0, other.1)

-- How one round of the loop goes: the statement fails, or it succeeds and the context may be done.
pub data Round : Type 0 where
  exec_fails cancelled goes_on : Round

pub data PurgeError : Type 0 where
  statement_failed context_done : PurgeError

-- what the loop returns: the total, and the error that ended it
abbrev pub Ended : Type 0
Ended = ℕ × Option PurgeError × List ReportRow

-- behind one UPDATE; the last argument is what the rest of the loop returns
unfoldable pub end_round :
    Round → ℕ → List ReportRow → List ReportRow × ℕ → Option Ended → Option Ended
end_round exec_fails total rows p rest = some (total, some statement_failed, rows)
end_round cancelled total rows (rows', k) rest =
    if ltb k purge_batch
    then some (total + k, none, rows')
    else some (total + k, some context_done, rows')
end_round goes_on total rows (rows', k) rest =
    if ltb k purge_batch then some (total + k, none, rows') else rest

-- `none` when the fuel is used up
unfoldable pub purge_loop : ℕ → ℕ → (ℕ → Round) → ℕ → ℕ → List ReportRow → Option Ended
unfolding purge end_round
purge_loop zero cutoff answer n total rows = none
purge_loop (suc f) cutoff answer n total rows =
    let p = purge cutoff purge_batch rows in
    end_round (answer n) total rows p (purge_loop f cutoff answer (n + 1) (total + p.1) p.0)

-- the rows that are due
unfoldable pub due_count : ℕ → List ReportRow → ℕ
due_count cutoff [] = 0
due_count cutoff (row ∷ rows) =
    if is_due cutoff row then due_count cutoff rows + 1 else due_count cutoff rows

-- `purgeRawXML`: every round but the last clears rows that were due
unfoldable pub purge_raw_xml : ℕ → (ℕ → Round) → List ReportRow → Option Ended
unfolding purge_loop due_count
purge_raw_xml cutoff answer rows = purge_loop (due_count cutoff rows + 1) cutoff answer 0 0 rows

-- What the IMAP server answers for one folder.
pub record Folder : Type 0 where
  pub selects : Bool
  -- the messages before the cutoff
  pub search : Option (List ℕ)
  pub flags : Bool
  pub expunges : Bool
  -- the context is done behind this folder
  pub done : Bool

unfoldable pub expunge_uids : Folder → List ℕ → Option ℕ
expunge_uids f [] = some 0
expunge_uids f (u ∷ us) = if f.flags && f.expunges then some (length (u ∷ us)) else none

-- `expungeFolder`: the number of messages expunged, or `none` for an error
unfoldable pub expunge_folder : Folder → Option ℕ
unfolding expunge_uids
expunge_folder f =
    if f.selects then (elim f.search [ none ↦ none | some us ↦ expunge_uids f us ]) else none

-- the loop of `expungeMail`: the total, and whether an error ended it
unfoldable pub expunge_folders : ℕ → List Folder → ℕ × Bool
unfolding expunge_folder
expunge_folders total [] = (total, false)
expunge_folders total (f ∷ fs) = elim (expunge_folder f) [
  | none ↦ (total, true)
  | some n ↦ if f.done then (total + n, true) else expunge_folders (total + n) fs
]

-- `expungeMail`
unfoldable pub expunge_mail : Bool → List Folder → ℕ × Bool
unfolding expunge_folders
expunge_mail connects fs = if connects then expunge_folders 0 fs else (0, true)

pub data PurgeKind : Type 0 where
  raw_xml mail : PurgeKind

pub record Purges : Type 0 where
  pub purged_raw_xml : ℕ
  pub purged_mail : ℕ
  -- the rows that `audit` inserts
  pub audited : List (PurgeKind × ℕ)

-- behind `purgeRawXML` and behind `expungeMail`: only a purge that ends well and changed something
-- is counted
unfoldable pub note_raw_xml : ℕ → Bool → Purges → Purges
note_raw_xml n failed s = if failed || n == 0 then s else record {
  purged_raw_xml = s.purged_raw_xml + n;
  purged_mail = s.purged_mail;
  audited = s.audited ++ (raw_xml, n) ∷ [];
}

unfoldable pub note_mail : ℕ → Bool → Purges → Purges
note_mail n failed s = if failed || n == 0 then s else record {
  purged_raw_xml = s.purged_raw_xml;
  purged_mail = s.purged_mail + n;
  audited = s.audited ++ (mail, n) ∷ [];
}

-- `runOnce`: the two periods that are switched on, each with what its purge returns
unfoldable pub run_once : Option (ℕ × Bool) → Option (ℕ × Bool) → Purges → Purges
unfolding note_raw_xml note_mail
run_once none none s = s
run_once (some (n, e)) none s = note_raw_xml n e s
run_once none (some (n, e)) s = note_mail n e s
run_once (some (n, e)) (some (n', e')) s = note_mail n' e' (note_raw_xml n e s)
