-- ===== src/Store/TlsListed/Rows.antt =====
-- What `GetTLSRPT` finds in the tables that a commit of `SaveTLSRPT` leaves.
use dmarcparser.Base.{
  ◌==◌, if◌then◌else◌, Bool-cases, All, ℕ, ◌<◌, ◌≡◌, refl, ap, ◌∙◌, inl, inr, false, some, List, [],
  ◌∷◌, ◌++◌, map, arith, ==_iff,
}
use dmarcparser.Text.{Bytes}
use dmarcparser.TlsReport.{PolicyResult, TlsReport}
use mathlib.Core.Path.{subst}
use mathlib.Core.List.{append-nil}
use dmarcparser.Store.TlsListed.{policies_of, find_tls_id, tls_detail, get_tls}
use dmarcparser.Store.TlsReports.{TlsRow, PolicyRow, TlsTables, policy_row, commit_tls, nullable}

-- The ids of both tables are below the next one.
pub record TlsBelow (t : TlsTables) : Type 0 where
  pub rows_below : All (λ row. row.id < t.next_id) t.reports
  pub policies_below : All (λ p. p.report_fk < t.next_id) t.policies

policies_of-append :
    (n : ℕ) (xs ys : List PolicyRow)
    → policies_of n (xs ++ ys) ≡ policies_of n xs ++ policies_of n ys
unfolding policies_of
policies_of-append n [] ys = refl
policies_of-append n (x ∷ xs) ys = elim (Bool-cases (x.report_fk == n)) [
  | inl h ↦ rw h (ap (◌∷◌ x) (policies_of-append n xs ys))
  | inr h ↦ rw h (policies_of-append n xs ys)
]

policies_of_below :
    (n : ℕ) (ps : List PolicyRow) → All (λ p. p.report_fk < n) ps → policies_of n ps ≡ []
unfolding policies_of
policies_of_below n [] h = refl
policies_of_below n (p ∷ ps) (b, h) =
    let apart : (p.report_fk == n) ≡ false = ground arith in rw apart (policies_of_below n ps h)

policies_of-policy_row :
    (n m : ℕ) (ps : List PolicyResult)
    → policies_of n (map (policy_row m) ps) ≡ (if m == n then map (policy_row m) ps else [])
unfolding policies_of policy_row
policies_of-policy_row n m [] = elim (Bool-cases (m == n)) [ inl h ↦ rw h refl | inr h ↦ rw h refl ]
policies_of-policy_row n m (p ∷ ps) =
    let rest = policies_of-policy_row n m ps in
    elim (Bool-cases (m == n)) [
      | inl h ↦ rw h (ap (◌∷◌ (policy_row m p)) (rest ∙ rw h refl))
      | inr h ↦ rw h (rest ∙ rw h refl)
    ]

find_tls_id-append :
    (n : ℕ) (rows : List TlsRow) (row : TlsRow)
    → All (λ x. x.id < row.id) rows
    → find_tls_id n (rows ++ row ∷ []) ≡ (if row.id == n then some row else find_tls_id n rows)
unfolding find_tls_id
find_tls_id-append n [] row h = refl
find_tls_id-append n (x ∷ rows) row (b, h) =
    let rest = find_tls_id-append n rows row h in
    elim (Bool-cases (x.id == n)) [
      | inl e ↦ let apart : (row.id == n) ≡ false = ground arith in rw (e, apart) refl
      | inr e ↦ rw e rest
    ]

-- the row of a report under the next id
abbrev pub new_tls_row : TlsReport → Bytes → TlsTables → TlsRow
new_tls_row r raw t = record {
  id = t.next_id;
  report = r;
  contact = nullable r.contact_info;
  raw_json = raw;
}

pub commit_tls-get_tls :
    (r : TlsReport) (raw : Bytes) (t : TlsTables) (n : ℕ)
    → TlsBelow t
    → get_tls n (commit_tls r raw t) ≡ (
        if t.next_id == n
        then tls_detail (map (policy_row n) r.policies) (some (new_tls_row r raw t))
        else get_tls n t)
unfolding get_tls
commit_tls-get_tls r raw t n b =
    let row = find_tls_id-append n t.reports (new_tls_row r raw t) b.rows_below in
    let ps = policies_of-append n t.policies (map (policy_row t.next_id) r.policies) in
    let new = policies_of-policy_row n t.next_id r.policies in
    elim (Bool-cases (t.next_id == n)) [
      | inl h ↦
          let same : t.next_id ≡ n = (==_iff _ _).0 h in
          let fresh =
            policies_of_below n t.policies
              (subst (λ k. All (λ p. p.report_fk < k) t.policies) same b.policies_below) in
          let found : find_tls_id n (t.reports ++ new_tls_row r raw t ∷ [])
              ≡ some (new_tls_row r raw t) =
            row ∙ rw h refl in
          let policies : policies_of n (t.policies ++ map (policy_row t.next_id) r.policies)
              ≡ map (policy_row n) r.policies =
            ps
            ∙ ap (λ xs. xs ++ policies_of n (map (policy_row t.next_id) r.policies)) fresh
            ∙ new
            ∙ rw h (ap (λ m. map (policy_row m) r.policies) same) in
          ap (λ xs. tls_detail xs (find_tls_id n (t.reports ++ new_tls_row r raw t ∷ []))) policies
          ∙ ap (tls_detail (map (policy_row n) r.policies)) found
          ∙ rw h refl
      | inr h ↦
          let found : find_tls_id n (t.reports ++ new_tls_row r raw t ∷ [])
              ≡ find_tls_id n t.reports =
            row ∙ rw h refl in
          let policies : policies_of n (t.policies ++ map (policy_row t.next_id) r.policies)
              ≡ policies_of n t.policies =
            ps
            ∙ ap (◌++◌ (policies_of n t.policies)) (new ∙ rw h refl)
            ∙ append-nil (policies_of n t.policies) in
          ap (λ xs. tls_detail xs (find_tls_id n (t.reports ++ new_tls_row r raw t ∷ []))) policies
          ∙ ap (tls_detail (policies_of n t.policies)) found
          ∙ rw h refl
    ]
