-- ===== src/Store/TlsReports.antt =====
-- `SaveTLSRPT` and `SaveForensic` of store_reports2.go.
use dmarcparser.Base.{
  if◌then◌else◌, Result, ok, err, ℕ, ◌+◌, ◌^◌, Bool, true, false, not, ◌&&◌, Option, none, some,
  List, [], ◌∷◌, ◌++◌, map,
}
use dmarcparser.Base.Int.{ℤ}
use dmarcparser.Forensic.{ForensicReport}
use dmarcparser.Report.Fields.{cut_to, non_empty}
use dmarcparser.Text.{Bytes, codes, beq, trim_space, join}
use dmarcparser.TlsReport.{FailureDetail, PolicyResult, TlsReport}

pub record TlsRow : Type 0 where
  pub id : ℕ
  pub report : TlsReport
  pub contact : Option Bytes
  pub raw_json : Bytes

pub record PolicyRow : Type 0 where
  pub report_fk : ℕ
  pub policy_type : Option Bytes
  pub policy_domain : Option Bytes
  pub mx_host : Option Bytes
  pub success_count : ℤ
  pub failure_count : ℤ
  pub failure_details : Option (List FailureDetail)

pub record TlsTables : Type 0 where
  pub reports : List TlsRow
  pub policies : List PolicyRow
  pub next_id : ℕ

pub data TlsStoreError : Type 0 where
  tls_begin_failed tls_insert_failed tls_lookup_failed tls_policy_failed tls_commit_failed :
      TlsStoreError

pub data TlsStmt : Type 0 where
  tls_begin tls_insert tls_lookup tls_commit : TlsStmt
  tls_policy : ℕ → TlsStmt

-- `optTrunc`: trimmed, `nil` if empty, and then cut
unfoldable pub opt_trunc : Bytes → ℕ → Option Bytes
unfolding non_empty cut_to
opt_trunc s n = elim (non_empty (trim_space s)) [ none ↦ none | some t ↦ some (cut_to n t) ]

unfoldable pub nullable : Bytes → Option Bytes
unfolding opt_trunc
nullable s = opt_trunc s (2 ^ 30)

-- the row that `ON CONFLICT (org, report_id)` meets
unfoldable pub find_tls : TlsReport → List TlsRow → Option TlsRow
find_tls r [] = none
find_tls r (row ∷ rows) =
    if beq row.report.organization_name r.organization_name && beq row.report.report_id r.report_id
    then some row
    else find_tls r rows

abbrev pub details_of : List FailureDetail → Option (List FailureDetail)
details_of [] = none
details_of (d ∷ ds) = some (d ∷ ds)

unfoldable pub policy_row : ℕ → PolicyResult → PolicyRow
policy_row id p = record {
  report_fk = id;
  policy_type = nullable p.policy_type;
  policy_domain = nullable p.policy_domain;
  mx_host = nullable (join (codes ", ") p.mx_host);
  success_count = p.total_success;
  failure_count = p.total_failure;
  failure_details = details_of p.failure_details;
}

-- the loop over `r.Policies`: do all statements succeed?
unfoldable pub insert_policies : (TlsStmt → Bool) → ℕ → List PolicyResult → Bool
insert_policies fails n [] = true
insert_policies fails n (p ∷ ps) = not (fails (tls_policy n)) && insert_policies fails (n + 1) ps

abbrev pub advance_tls : TlsTables → TlsTables
advance_tls t = record t { next_id = t.next_id + 1 }

abbrev pub commit_tls : TlsReport → Bytes → TlsTables → TlsTables
commit_tls r raw t = record {
  reports =
      t.reports
      ++ (record { id = t.next_id; report = r; contact = nullable r.contact_info; raw_json = raw }
          ∷ []);
  policies = t.policies ++ map (policy_row t.next_id) r.policies;
  next_id = t.next_id + 1;
}

module _ (fails : TlsStmt → Bool) (r : TlsReport) (raw : Bytes) where
  unfoldable pub save_tls_at :
      Option TlsRow → TlsTables → Result TlsStoreError (ℕ × Bool) × TlsTables
  unfolding insert_policies
  save_tls_at (some row) t =
      if fails tls_lookup
      then (err tls_lookup_failed, advance_tls t)
      else (ok (row.id, true), advance_tls t)
  save_tls_at none t =
      if not (insert_policies fails 0 r.policies)
      then (err tls_policy_failed, advance_tls t)
      else if fails tls_commit
      then (err tls_commit_failed, advance_tls t)
      else (ok (t.next_id, false), commit_tls r raw t)

  -- the id, and whether the report was there already
  unfoldable pub save_tls : TlsTables → Result TlsStoreError (ℕ × Bool) × TlsTables
  unfolding save_tls_at find_tls
  save_tls t =
      if fails tls_begin
      then (err tls_begin_failed, t)
      else if fails tls_insert
      then (err tls_insert_failed, t)
      else save_tls_at (find_tls r t.reports) t

pub record ForensicTable : Type 0 where
  pub rows : List (ℕ × ForensicReport)
  pub next_row : ℕ

-- `SaveForensic`: one statement, and no key to tell a report that is there already
unfoldable pub save_forensic : Bool → ForensicReport → ForensicTable → Option ℕ × ForensicTable
save_forensic fails r t = if fails then (none, t) else (
  some t.next_row,
  record { rows = t.rows ++ (t.next_row, r) ∷ []; next_row = t.next_row + 1 },
)
