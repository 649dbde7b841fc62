-- ===== src/Store/TlsListed/Read.antt =====
-- TLS reports that are saved and read back.
use dmarcparser.Base.Int.{ℤ, pos, add64}
use dmarcparser.Base.{
  ◌==◌, Result, ok, err, ℕ, ◌≡◌, Bool, true, false, Option, some, List, [], ◌∷◌, ◌++◌, map, none,
  length, ◌+◌, ◌⊎◌,
}
use dmarcparser.Text.{Bytes, codes, join}
use dmarcparser.TlsReport.{PolicyResult, TlsReport, FailureDetail}
use dmarcparser.Store.TlsListed.{get_tls, TlsDetail}
use dmarcparser.Store.TlsReports.{PolicyRow, TlsTables, policy_row, nullable, TlsStoreError}

-- the sum of a column of the policies, which wraps around
abbrev pub total_of : (PolicyResult → ℤ) → List PolicyResult → ℤ → ℤ
total_of column [] n = n
total_of column (p ∷ ps) n = total_of column ps (add64 n (column p))

-- the details of a row; none are stored as NULL
abbrev pub details_in : Option (List FailureDetail) → List FailureDetail
details_in none = []
details_in (some ds) = ds

-- the row of a policy under an id
pub record IsRow (n : ℕ) (p : PolicyResult) (q : PolicyRow) : Type 0 where
  pub owner : q.report_fk ≡ n
  pub same_type : q.policy_type ≡ nullable p.policy_type
  pub same_domain : q.policy_domain ≡ nullable p.policy_domain
  pub same_hosts : q.mx_host ≡ nullable (join (codes ", ") p.mx_host)
  pub same_success : q.success_count ≡ p.total_success
  pub same_failure : q.failure_count ≡ p.total_failure
  pub same_details : details_in q.failure_details ≡ p.failure_details

abbrev pub AreRows : ℕ → List PolicyResult → List PolicyRow → Type 0
AreRows n [] [] = Unit
AreRows n [] (q ∷ qs) = ⊥
AreRows n (p ∷ ps) [] = ⊥
AreRows n (p ∷ ps) (q ∷ qs) = IsRow n p q × AreRows n ps qs

-- What is read for a new report: its row, a row for each policy, in order, their number and totals.
pub record IsReport (r : TlsReport) (raw : Bytes) (n : ℕ) (d : TlsDetail) : Type 0 where
  pub head_id : d.tls_head.id ≡ n
  pub head_report : d.tls_head.report ≡ r
  pub head_contact : d.tls_head.contact ≡ nullable r.contact_info
  pub head_raw : d.tls_head.raw_json ≡ raw
  pub all_policies : AreRows n r.policies d.tls_policies
  pub as_many : d.policies_read ≡ length r.policies
  pub success_sum : d.success_read ≡ total_of (λ p. p.total_success) r.policies (pos 0)
  pub failure_sum : d.failure_read ≡ total_of (λ p. p.total_failure) r.policies (pos 0)

-- what `GetTLSRPT` answers behind a save
abbrev pub ReadAfter :
    TlsReport → Bytes → TlsTables → ℕ → Result TlsStoreError (ℕ × Bool) → Option TlsDetail → Type 0
ReadAfter r raw t n (err e) o = o ≡ get_tls n t
ReadAfter r raw t n (ok (id, true)) o = o ≡ get_tls n t
ReadAfter r raw t n (ok (id, false)) o =
    ((n ≡ id) × (d : TlsDetail) × (o ≡ some d) × IsReport r raw n d)
    ⊎ (((id == n) ≡ false) × (o ≡ get_tls n t))

-- what the loop over the rows of policies makes of what it has read
record HasRead (n : ℕ) (ps : List PolicyResult) (d e : TlsDetail) : Type 0 where
  head_kept : e.tls_head ≡ d.tls_head
  rows_added : e.tls_policies ≡ d.tls_policies ++ map (policy_row n) ps
  number_added : e.policies_read ≡ d.policies_read + length ps
  success_added : e.success_read ≡ total_of (λ p. p.total_success) ps d.success_read
  failure_added : e.failure_read ≡ total_of (λ p. p.total_failure) ps d.failure_read
