-- ===== src/Stats/Domains/Found.antt =====
-- A domain that is listed has a report, and a latest one.
use dmarcparser.Store.Listed.{before_row}
use dmarcparser.Store.Reports.{ReportRow}
use dmarcparser.Base.{
  Bool-cases, All, ◌≡◌, refl, inl, inr, Bool, true, List, [], ◌∷◌, arith, any, Option, none, some,
}
use dmarcparser.Text.{Bytes, beq, beq_refl}
use dmarcparser.Stats.Domains.{fold_rows, later_row, domain_of_report}
use dmarcparser.Stats.{filtered, group_by, add_to_group}

-- a domain that some report is about has a latest report
later_row-is_some :
    (row : ReportRow) (best : Option ReportRow)
    → (row' : ReportRow) × (later_row row best ≡ some row')
later_row-is_some row none = (row, refl)
later_row-is_some row (some best) = elim (Bool-cases (before_row row best)) [
  | inl h ↦ (row, rw h refl)
  | inr h ↦ (best, rw h refl)
]

latest_kept :
    (rows : List ReportRow) (best : ReportRow)
    → (row : ReportRow) × (fold_rows later_row rows (some best) ≡ some row)
unfolding fold_rows
latest_kept [] best = (best, refl)
latest_kept (row ∷ rows) best =
    let (next, e) = later_row-is_some row (some best) in
    let (last, e') = latest_kept rows next in (last, rw e e')

pub latest_found :
    (domain : Bytes) (rows : List ReportRow)
    → any (λ r. beq (domain_of_report r) domain) rows ≡ true
    → (row : ReportRow) × (fold_rows later_row
          (filtered (λ r. beq (domain_of_report r) domain) rows)
          none
        ≡ some row)
unfolding filtered fold_rows
latest_found domain [] h = absurd (cc h)
latest_found domain (row ∷ rows) h = elim (Bool-cases (beq (domain_of_report row) domain)) [
  | inl e ↦
      let (last, e') = latest_kept (filtered (λ r. beq (domain_of_report r) domain) rows) row in
      (last, rw e e')
  | inr e ↦ let (last, e') = latest_found domain rows (rw e at h) in (last, rw e e')
]

-- each domain that is listed has a report
module _ (P : Bytes → Type 0) where
  add_to_group-All :
      (row : ReportRow) (gs : List (Bytes × Unit))
      → P (domain_of_report row)
      → All (λ g. P g.0) gs
      → All (λ g. P g.0) (add_to_group beq tt domain_of_report (λ r u. u) row gs)
  unfolding add_to_group
  add_to_group-All row [] p ps = (p, tt)
  add_to_group-All row ((k, u) ∷ gs) p (q, ps) = elim (Bool-cases (beq k (domain_of_report row))) [
    | inl h ↦ rw h (q, ps)
    | inr h ↦ rw h (q, add_to_group-All row gs p ps)
  ]

  pub group_by-All :
      (rows : List ReportRow) (gs : List (Bytes × Unit))
      → All (λ r. P (domain_of_report r)) rows
      → All (λ g. P g.0) gs
      → All (λ g. P g.0) (group_by beq tt domain_of_report (λ r u. u) rows gs)
  unfolding group_by
  group_by-All [] gs ps qs = qs
  group_by-All (row ∷ rows) gs (p, ps) qs = group_by-All rows _ ps (add_to_group-All row gs p qs)

abbrev pub has_domain : List ReportRow → Bytes → Bool
has_domain rows d = any (λ r. beq (domain_of_report r) d) rows

has_domain-weaken :
    (row : ReportRow) (rows xs : List ReportRow)
    → All (λ r. has_domain rows (domain_of_report r) ≡ true) xs
    → All (λ r. has_domain (row ∷ rows) (domain_of_report r) ≡ true) xs
has_domain-weaken row rows [] ps = tt
has_domain-weaken row rows (x ∷ xs) (p, ps) = (ground arith, has_domain-weaken row rows xs ps)

pub has_domain-All :
    (rows : List ReportRow) → All (λ r. has_domain rows (domain_of_report r) ≡ true) rows
has_domain-All [] = tt
has_domain-All (row ∷ rows) =
    let own = beq_refl (domain_of_report row) in
    (rw own refl, has_domain-weaken row rows rows (has_domain-All rows))
