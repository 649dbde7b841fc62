-- ===== src/Store/TlsListed.antt =====
-- `ListTLSRPT`, `GetTLSRPT`, `ListForensic` and `GetForensic` of parser/internal/store/
-- store_reports2.go, over the tables of Store/TlsReports, where the queries themselves succeed. The
-- column `seen`, which the database fills, is a function of the id.
pub mod Rows
pub mod Read
use dmarcparser.Stats.{filtered, all_of, sort_by}
use dmarcparser.Base.{
  if◌then◌else◌, length, take, drop, is_empty, any, leb, ◌==◌, ℕ, ◌+◌, Bool, true, false, ◌&&◌,
  ◌||◌, Option, none, some, List, [], ◌∷◌, ◌++◌, map,
}
use dmarcparser.Base.Int.{ℤ, pos, add_int, add64, lt_int, le_int, is_bigint}
use dmarcparser.Forensic.{ForensicReport}
use dmarcparser.Store.Listed.{is_or_any}
use dmarcparser.Store.TlsReports.{TlsRow, PolicyRow, TlsTables, ForensicTable}
use dmarcparser.Text.{Bytes, beq}

pub record TlsFilter : Type 0 where
  pub tls_domain : Bytes
  pub tls_org : Bytes
  pub tls_since : Option ℤ
  pub tls_until : Option ℤ
  pub tls_limit : ℕ
  pub tls_offset : ℕ

pub record TlsSummary : Type 0 where
  pub tls_row : TlsRow
  pub tls_seen : ℤ
  pub policy_count : ℕ
  pub success_total : ℤ
  pub failure_total : ℤ

-- `report_fk = id`
unfoldable pub policies_of : ℕ → List PolicyRow → List PolicyRow
policies_of n [] = []
policies_of n (p ∷ ps) = let rest = policies_of n ps in if p.report_fk == n then p ∷ rest else rest

abbrev pub names_domain : Bytes → PolicyRow → Bool
names_domain domain p = elim p.policy_domain [ none ↦ false | some d ↦ beq d domain ]

-- a comparison with NULL lets no row through
abbrev pub not_before : Option ℤ → Option ℤ → Bool
not_before none t = true
not_before (some s) none = false
not_before (some s) (some t) = le_int s t

abbrev pub not_after : Option ℤ → Option ℤ → Bool
not_after none t = true
not_after (some u) none = false
not_after (some u) (some t) = le_int t u

unfoldable pub matches_tls : TlsFilter → List PolicyRow → TlsRow → Bool
unfolding policies_of
matches_tls f ps row =
    (is_empty f.tls_domain || any (names_domain f.tls_domain) (policies_of row.id ps))
    && (is_or_any f.tls_org row.report.organization_name
        && (not_before f.tls_since row.report.date_end
            && not_after f.tls_until row.report.date_start))

unfoldable pub matching_tls : TlsFilter → List PolicyRow → List TlsRow → List TlsRow
unfolding matches_tls
matching_tls f ps [] = []
matching_tls f ps (row ∷ rows) =
    let rest = matching_tls f ps rows in if matches_tls f ps row then row ∷ rest else rest

-- `ORDER BY date_begin DESC NULLS LAST, id DESC`
abbrev pub tls_ahead : TlsRow → TlsRow → Bool
tls_ahead a b = elim a.report.date_start [
  | none ↦ elim b.report.date_start [ none ↦ leb b.id a.id | some t ↦ false ]
  | some s ↦ elim b.report.date_start [
    | none ↦ true
    | some t ↦ if lt_int t s then true else if lt_int s t then false else leb b.id a.id
  ]
]

abbrev pub sum_success : List PolicyRow → ℤ
sum_success [] = pos 0
sum_success (p ∷ ps) = add_int p.success_count (sum_success ps)

abbrev pub sum_failure : List PolicyRow → ℤ
sum_failure [] = pos 0
sum_failure (p ∷ ps) = add_int p.failure_count (sum_failure ps)

abbrev pub tls_summary : (ℕ → ℤ) → List PolicyRow → TlsRow → TlsSummary
tls_summary seen ps row = record {
  tls_row = row;
  tls_seen = seen row.id;
  policy_count = length (policies_of row.id ps);
  success_total = sum_success (policies_of row.id ps);
  failure_total = sum_failure (policies_of row.id ps);
}

abbrev pub fits_summary : TlsSummary → Bool
fits_summary s = is_bigint s.success_total && is_bigint s.failure_total

-- `ListTLSRPT`; `none` where a sum of the page does not fit an int64
unfoldable pub list_tls : (ℕ → ℤ) → TlsFilter → TlsTables → Option (List TlsSummary)
unfolding matching_tls sort_by all_of policies_of
list_tls seen f t =
    let page = map (tls_summary seen t.policies) (
      take f.tls_limit
        (drop f.tls_offset (sort_by tls_ahead (matching_tls f t.policies t.reports)))) in
    if all_of fits_summary page then some page else none

pub record TlsDetail : Type 0 where
  pub tls_head : TlsRow
  pub tls_policies : List PolicyRow
  pub policies_read : ℕ
  pub success_read : ℤ
  pub failure_read : ℤ

-- the loop over the rows
unfoldable pub read_policies : List PolicyRow → TlsDetail → TlsDetail
read_policies [] d = d
read_policies (p ∷ ps) d = read_policies ps (record {
  tls_head = d.tls_head;
  tls_policies = d.tls_policies ++ p ∷ [];
  policies_read = d.policies_read + 1;
  success_read = add64 d.success_read p.success_count;
  failure_read = add64 d.failure_read p.failure_count;
})

unfoldable pub find_tls_id : ℕ → List TlsRow → Option TlsRow
find_tls_id n [] = none
find_tls_id n (row ∷ rows) = if row.id == n then some row else find_tls_id n rows

abbrev pub tls_detail : List PolicyRow → Option TlsRow → Option TlsDetail
tls_detail ps none = none
tls_detail ps (some row) = some (
    read_policies ps (record {
      tls_head = row;
      tls_policies = [];
      policies_read = 0;
      success_read = pos 0;
      failure_read = pos 0;
    }))

-- `GetTLSRPT`
unfoldable pub get_tls : ℕ → TlsTables → Option TlsDetail
unfolding find_tls_id policies_of read_policies
get_tls n t = tls_detail (policies_of n t.policies) (find_tls_id n t.reports)

pub record ForensicFilter : Type 0 where
  pub forensic_domain : Bytes
  pub forensic_since : Option ℤ
  pub forensic_until : Option ℤ
  pub forensic_limit : ℕ
  pub forensic_offset : ℕ

abbrev pub reported_for : Bytes → Option Bytes → Bool
reported_for wanted none = is_empty wanted
reported_for wanted (some d) = is_or_any wanted d

abbrev pub matches_forensic : (ℕ → ℤ) → ForensicFilter → ℕ × ForensicReport → Bool
matches_forensic seen f (n, r) =
    reported_for f.forensic_domain r.reported_domain
    && (not_before f.forensic_since (some (seen n)) && not_after f.forensic_until (some (seen n)))

-- `ORDER BY seen DESC, id DESC`
abbrev pub forensic_ahead : (ℕ → ℤ) → ℕ × ForensicReport → ℕ × ForensicReport → Bool
forensic_ahead seen (m, a) (n, b) =
    if lt_int (seen n) (seen m) then true else if lt_int (seen m) (seen n) then false else leb n m

-- `ListForensic`: the rows, with their ids; the header text is left out
unfoldable pub list_forensic : (ℕ → ℤ) → ForensicFilter → ForensicTable → List (ℕ × ForensicReport)
unfolding filtered sort_by
list_forensic seen f t = take f.forensic_limit (
    drop f.forensic_offset
      (sort_by (forensic_ahead seen) (filtered (matches_forensic seen f) t.rows)))

unfoldable pub find_forensic : ℕ → List (ℕ × ForensicReport) → Option ForensicReport
find_forensic n [] = none
find_forensic n ((m, r) ∷ rows) = if m == n then some r else find_forensic n rows

-- `GetForensic`
unfoldable pub get_forensic : ℕ → ForensicTable → Option ForensicReport
unfolding find_forensic
get_forensic n t = find_forensic n t.rows
