-- ===== src/Stats/Domains/Agreed.antt =====
-- The list of domains and the page of a domain agree.
use dmarcparser.Stats.Domains.Found.{latest_found, group_by-All, has_domain, has_domain-All}
use dmarcparser.Stats.Domains.Rows.{
  find_group-fold_rows, filtered-filtered, All-sort_by, later-cutoff, rotate-and, implied-and,
  All-map, both_true, All-implies,
}
use dmarcparser.Stats.Health.{HealthInputs, compute_health}
use mathlib.Core.Path.{fun_ext, subst}
use dmarcparser.Export.{HostOf}
use dmarcparser.Rollup.{AggRow}
use dmarcparser.Stats.Grouped.{find_group-all_of}
use dmarcparser.Base.{
  Bool-cases, All, ◌≡◌, refl, ap, inl, inr, Bool, true, ◌&&◌, List, [], sym, ◌∙◌, none, some, map,
}
use dmarcparser.Base.Int.{pos, lt_int, le_int, is_bigint}
use dmarcparser.Text.{Bytes, beq}
use dmarcparser.Stats.Domains.{
  fold_rows, days_ago, Database, no_days, add_day, domain_of_day, unknown_rows, is_current,
  is_prior, later_row, domain_of_report, add_fail, domain_health_inputs, fits_sums,
}
use dmarcparser.Stats.Domains.Overview.{
  groups_of, DomainSummary, groups_fit, listed_inputs, list_domains, domains_of, list_ahead,
  summary_of,
}
use dmarcparser.Stats.{filtered, sort_by, group_by, find_group, Reals, all_of}

module _ (host : HostOf) (db : Database) (domain : Bytes) where
  -- the two orders of the tests
  cur-tests :
      (d : AggRow)
      → (is_current db.today d && beq (domain_of_day d) domain) ≡ (
          (beq (domain_of_day d) domain && le_int (days_ago 60 db.today) d.0.0)
          && is_current db.today d)
  cur-tests d =
      implied-and (is_current db.today d) (beq (domain_of_day d) domain)
        (le_int (days_ago 60 db.today) d.0.0) (later-cutoff db.today d.0.0)

  prior-tests :
      (d : AggRow)
      → (is_prior db.today d && beq (domain_of_day d) domain) ≡ (
          (beq (domain_of_day d) domain && le_int (days_ago 60 db.today) d.0.0)
          && lt_int d.0.0 (days_ago 30 db.today))
  prior-tests d =
      rotate-and (le_int (days_ago 60 db.today) d.0.0) (lt_int d.0.0 (days_ago 30 db.today))
        (beq (domain_of_day d) domain)

  cur-agreed :
      find_group beq no_days domain (groups_of host db).cur
      ≡ fold_rows add_day
          (filtered (is_current db.today) (
            filtered
              (λ d. beq (domain_of_day d) domain && le_int (days_ago 60 db.today) d.0.0)
              db.agg))
          no_days
  cur-agreed =
      find_group-fold_rows no_days domain_of_day add_day domain _
      ∙ ap (λ rows. fold_rows add_day rows no_days)
          (filtered-filtered _ _ db.agg
            ∙ ap (λ p. filtered p db.agg) (fun_ext (λ d. cur-tests d))
            ∙ sym (filtered-filtered _ _ db.agg))

  prior-agreed :
      find_group beq no_days domain (groups_of host db).prior
      ≡ fold_rows add_day
          (filtered
            (λ d. lt_int d.0.0 (days_ago 30 db.today))
            (filtered
              (λ d. beq (domain_of_day d) domain && le_int (days_ago 60 db.today) d.0.0)
              db.agg))
          no_days
  prior-agreed =
      find_group-fold_rows no_days domain_of_day add_day domain _
      ∙ ap (λ rows. fold_rows add_day rows no_days)
          (filtered-filtered _ _ db.agg
            ∙ ap (λ p. filtered p db.agg) (fun_ext (λ d. prior-tests d))
            ∙ sym (filtered-filtered _ _ db.agg))

  unknown-agreed :
      find_group beq (pos 0) domain (groups_of host db).unk
      ≡ fold_rows add_fail (filtered (λ r. beq r.0 domain) (unknown_rows host db)) (pos 0)
  unknown-agreed = find_group-fold_rows (pos 0) (λ r. r.0) add_fail domain (unknown_rows host db)

  policy-agreed :
      find_group beq none domain (groups_of host db).pol
      ≡ fold_rows later_row (filtered (λ r. beq (domain_of_report r) domain) db.tables.reports) none
  policy-agreed = find_group-fold_rows none domain_of_report later_row domain db.tables.reports

-- what the page of a domain computes is what the list does
domain_health_inputs-listed :
    (host : HostOf) (db : Database) (domain : Bytes)
    → groups_fit (groups_of host db) ≡ true
    → has_domain db.tables.reports domain ≡ true
    → domain_health_inputs host db domain ≡ some (some (listed_inputs (groups_of host db) domain))
unfolding domain_health_inputs
domain_health_inputs-listed host db domain fit h =
    let (row, found) = latest_found domain db.tables.reports h in
    let g = groups_of host db in
    let (fit_cur, rest) = both_true (all_of (λ x. fits_sums x.1) g.cur) _ fit in
    let (fit_prior, fit_unknown) = both_true (all_of (λ x. fits_sums x.1) g.prior) _ rest in
    let one =
      rw (cur-agreed host db domain) at
        (find_group-all_of beq no_days fits_sums domain g.cur refl fit_cur) in
    let two =
      rw (prior-agreed host db domain) at
        (find_group-all_of beq no_days fits_sums domain g.prior refl fit_prior) in
    let three =
      rw (unknown-agreed host db domain) at
        (find_group-all_of beq (pos 0) is_bigint domain g.unk refl fit_unknown) in
    rw
      (
        found,
        cur-agreed host db domain,
        prior-agreed host db domain,
        unknown-agreed host db domain,
        policy-agreed host db domain,
        found,
        one,
        two,
        three,
      )
      refl

-- a row of the list, and the page of its domain
abbrev Agrees : {F : Type 0} → Reals F → HostOf → Database → DomainSummary F → Type 0
Agrees fl host db s =
    (x : HealthInputs) × (domain_health_inputs host db s.domain ≡ some (some x))
    × (s.summary_msgs_30d ≡ x.msgs_30d)
    × (s.health ≡ (compute_health fl x).0)

summary_of-Agrees :
    {F : Type 0} (fl : Reals F) (host : HostOf) (db : Database)
    → groups_fit (groups_of host db) ≡ true
    → All
        (Agrees fl host db)
        (map (summary_of fl (groups_of host db)) (domains_of db.tables.reports))
summary_of-Agrees fl host db fit =
    let g = groups_of host db in
    let rows = db.tables.reports in
    let P : Bytes → Type 0 = λ d. Agrees fl host db (summary_of fl g d) in
    All-map (Agrees fl host db) (summary_of fl g) (domains_of rows) (
      All-map P (λ x. x.0) (group_by beq tt domain_of_report (λ r u. u) rows [])
        (group_by-All P rows []
          (All-implies (λ r. has_domain rows (domain_of_report r) ≡ true)
            (λ r. P (domain_of_report r)) rows
            (λ r h. (
              listed_inputs g (domain_of_report r),
              domain_health_inputs-listed host db (domain_of_report r) fit h,
              refl,
              refl,
            ))
            (has_domain-All rows))
          tt))

-- Where the list of domains is read, it agrees with the page of each domain that it names: the domain
-- is found there, none of its sums is out of range, its traffic is the same, and the score of the
-- list is that of `ComputeHealth` on the inputs of the page.
pub list_domains-domain_health_inputs :
    {F : Type 0} (fl : Reals F) (text_le : Bytes → Bytes → Bool) (host : HostOf) (db : Database)
    {ds : List (DomainSummary F)}
    → list_domains fl text_le host db ≡ some ds
    → All
        (λ s.
          (x : HealthInputs) × (domain_health_inputs host db s.domain ≡ some (some x))
          × (s.summary_msgs_30d ≡ x.msgs_30d)
          × (s.health ≡ (compute_health fl x).0))
        ds
unfolding list_domains
list_domains-domain_health_inputs fl text_le host db {ds} e =
    let g = groups_of host db in
    let rows = map (summary_of fl g) (domains_of db.tables.reports) in
    elim (Bool-cases (groups_fit g)) [
      | inr h ↦ absurd (cc (rw (list_domains, h) at e))
      | inl h ↦
          let same : sort_by (list_ahead text_le) rows ≡ ds = cc (rw (list_domains, h) at e) in
          subst (All (Agrees fl host db)) same (
            All-sort_by (Agrees fl host db) (list_ahead text_le) rows
              (summary_of-Agrees fl host db h))
    ]
