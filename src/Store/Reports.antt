-- ===== src/Store/Reports.antt =====
-- `SaveReport` and `LastIngestAt` of store.go, over the tables `report` and `rptrecord`.
-- A transaction works on the tables it began with and replaces them at the commit; the sequence
-- behind `serial` is not transactional.
use dmarcparser.Base.{
  ltb, if◌then◌else◌, is_empty, Result, ok, err, ℕ, ◌+◌, Bool, true, false, not, ◌&&◌, Option, none,
  some, List, [], ◌∷◌, ◌++◌, map, ◌==◌,
}
use dmarcparser.Base.Int.{ℤ, pos, add64}
use dmarcparser.Report.{Record, Report}
use dmarcparser.Text.{Bytes, beq}
use Prim.Native.Nat.{max}

pub record ReportRow : Type 0 where
  pub serial : ℕ
  pub report : Report
  pub raw : Option Bytes
  pub seen : ℕ

pub record RecordRow : Type 0 where
  pub serial : ℕ
  pub entry : Record

pub record Tables : Type 0 where
  pub reports : List ReportRow
  pub records : List RecordRow
  pub next_serial : ℕ
  -- Unix seconds of the last insert, in memory; 0 before the first
  pub last_insert : ℕ

pub record SaveResult : Type 0 where
  pub serial : ℕ
  pub duplicate : Bool
  pub records : ℕ
  pub messages : ℤ

pub data StoreError : Type 0 where
  begin_failed insert_report_failed lookup_failed insert_record_failed commit_failed : StoreError

-- the statements of `SaveReport`; a record's statement is told by its position
pub data Stmt : Type 0 where
  begin_tx insert_report lookup_duplicate commit_tx : Stmt
  insert_record : ℕ → Stmt

abbrev pub same_key : Report → Report → Bool
same_key a b = beq a.domain b.domain && beq a.report_id b.report_id

-- the row that `ON CONFLICT (domain, reportid)` meets
unfoldable pub find_report : Report → List ReportRow → Option ReportRow
find_report r [] = none
find_report r (row ∷ rows) = if same_key row.report r then some row else find_report r rows

-- the loop over `r.Records`: the counters, or `none` at the first statement that fails
unfoldable pub insert_records : (Stmt → Bool) → ℕ → ℤ → List Record → Option (ℕ × ℤ)
insert_records fails n messages [] = some (n, messages)
insert_records fails n messages (rec ∷ recs) =
    let rest = insert_records fails (n + 1) (add64 messages rec.count) recs in
    if fails (insert_record n) then none else rest

abbrev pub rows_of : ℕ → List Record → List RecordRow
rows_of serial = map (λ rec. record { serial = serial; entry = rec })

-- the raw document is kept on request, and never as an empty string
abbrev pub raw_of : Bool → Report → Option Bytes
raw_of store_raw r = if store_raw && not (is_empty r.raw_xml) then some r.raw_xml else none

-- the sequence has moved on, and nothing else has
abbrev pub advance : Tables → Tables
advance t = record t { next_serial = t.next_serial + 1 }

abbrev pub committed : ℕ → Bool → Report → Tables → Tables
committed now store_raw r t = record {
  reports =
      t.reports
      ++ (record { serial = t.next_serial; report = r; raw = raw_of store_raw r; seen = now } ∷ []);
  records = t.records ++ rows_of t.next_serial r.records;
  next_serial = t.next_serial + 1;
  last_insert = now;
}

module _ (fails : Stmt → Bool) (now : ℕ) (store_raw : Bool) (r : Report) where
  -- the report is there already
  unfoldable pub save_duplicate : ReportRow → Tables → Result StoreError SaveResult × Tables
  save_duplicate row t = if fails lookup_duplicate then (err lookup_failed, advance t) else (
    ok (record { serial = row.serial; duplicate = true; records = 0; messages = pos 0 }),
    advance t,
  )

  -- the records, then the commit
  unfoldable pub save_new : Option (ℕ × ℤ) → Tables → Result StoreError SaveResult × Tables
  save_new none t = (err insert_record_failed, advance t)
  save_new (some (n, messages)) t = if fails commit_tx then (err commit_failed, advance t) else (
    ok (record { serial = t.next_serial; duplicate = false; records = n; messages = messages }),
    committed now store_raw r t,
  )

  unfoldable pub save_at : Option ReportRow → Tables → Result StoreError SaveResult × Tables
  unfolding save_duplicate save_new insert_records
  save_at (some row) t = save_duplicate row t
  save_at none t = save_new (insert_records fails 0 (pos 0) r.records) t

  unfoldable pub save_report : Tables → Result StoreError SaveResult × Tables
  unfolding save_at find_report
  save_report t =
      if fails begin_tx
      then (err begin_failed, t)
      else if fails insert_report
      then (err insert_report_failed, t)
      else save_at (find_report r t.reports) t

-- the records that `WHERE serial = $1` finds
unfoldable pub records_of : ℕ → List RecordRow → List Record
records_of serial [] = []
records_of serial (row ∷ rows) =
    let rest = records_of serial rows in if row.serial == serial then row.entry ∷ rest else rest

abbrev pub max_seen : List ReportRow → ℕ
max_seen [] = 0
max_seen (row ∷ rows) = max row.seen (max_seen rows)

-- `LastIngestAt`: 0 stands for the zero time
unfoldable pub last_ingest_at : Tables → ℕ
last_ingest_at t =
    if ltb (max_seen t.reports) t.last_insert then t.last_insert else max_seen t.reports
