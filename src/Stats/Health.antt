-- ===== src/Stats/Health.antt =====
-- `ComputeHealth` of store_stats.go. A detail is told by its parts: its text is for display.
use dmarcparser.Rollup.{same_int}
use dmarcparser.Base.{
  if◌then◌else◌, is_empty, ℕ, String, Bool, ◌&&◌, Option, none, some, List, [], ◌∷◌,
}
use dmarcparser.Base.Int.{ℤ, pos, lt_int, le_int}
use dmarcparser.Text.{Bytes, codes, beq}
use dmarcparser.Stats.{Reals, ratio}

pub record HealthInputs : Type 0 where
  pub msgs_30d : ℤ
  pub aligned_30d : ℤ
  pub msgs_prior : ℤ
  pub aligned_prior : ℤ
  pub days_with_data : ℕ
  pub unknown_failing : ℤ
  pub policy_p : Option Bytes
  pub policy_pct : Option ℤ

pub data Detail (F : Type 0) : Type 0 where
  aligned_share : F → ℤ → Detail F
  no_traffic no_prior no_unknown : Detail F
  rate_change : F → Detail F
  policy_share : Bytes → F → Detail F
  days_covered : ℕ → Detail F
  unknown_share : ℤ → F → Detail F

pub record HealthComponent (F : Type 0) : Type 0 where
  pub component : Bytes
  pub score : F
  pub max_score : F
  pub detail : Detail F

abbrev pub policy_or_none : Option Bytes → Bytes
policy_or_none none = codes "none"
policy_or_none (some p) = if is_empty p then codes "none" else p

module _ {F : Type 0} (fl : Reals F) where
  abbrev pub whole : ℕ → F
  whole n = fl.literal n 1

  -- `round1`
  abbrev pub round1 : F → F
  round1 v =
      if fl.less v (whole 0)
      then whole 0
      else fl.div (fl.of_int (fl.to_int (fl.add (fl.mul v (whole 10)) (fl.literal 1 2)))) (whole 10)

  -- the map of the three policies
  abbrev pub base_of : Bytes → F
  base_of pol =
      if beq pol (codes "reject")
      then whole 1
      else if beq pol (codes "quarantine")
      then fl.literal 6 10
      else if beq pol (codes "none")
      then fl.literal 1 10
      else whole 0

  abbrev pub pct_share : Option ℤ → F
  pct_share none = whole 1
  pct_share (some pct) =
      if le_int (pos 0) pct
      then (if le_int pct (pos 100) then fl.div (fl.of_int pct) (whole 100) else whole 1)
      else whole 1

  -- `policyStrength`
  unfoldable pub policy_strength : Option Bytes → Option ℤ → F × Detail F
  policy_strength p pct =
      let pol = policy_or_none p in
      let share = if beq pol (codes "none") then whole 1 else pct_share pct in
      (
        fl.mul (fl.mul (whole 20) (base_of pol)) share,
        policy_share pol (fl.mul (whole 100) (pct_share pct)),
      )

  abbrev pub is_positive : ℤ → Bool
  is_positive n = lt_int (pos 0) n

  abbrev pub alignment_of : HealthInputs → F × Detail F
  alignment_of x =
      let rate = ratio fl x.aligned_30d x.msgs_30d in
      (
        fl.mul (whole 40) rate,
        if same_int x.msgs_30d (pos 0)
            then no_traffic
            else aligned_share (fl.mul (whole 100) rate) x.msgs_30d,
      )

  abbrev pub trend_of : HealthInputs → F × Detail F
  trend_of x =
      let delta =
        fl.sub (ratio fl x.aligned_30d x.msgs_30d) (ratio fl x.aligned_prior x.msgs_prior) in
      if is_positive x.msgs_prior && is_positive x.msgs_30d
      then (
        if fl.less delta (whole 0)
            then fl.mul (whole 15) (fl.max_of (whole 0) (fl.add (whole 1) (fl.mul delta (whole 4))))
            else whole 15,
        rate_change (fl.mul (whole 100) delta),
      )
      else (whole 15, no_prior)

  abbrev pub coverage_of : HealthInputs → F × Detail F
  coverage_of x = (
    fl.mul (whole 10) (fl.min_of (whole 1) (fl.div (fl.of_int (pos x.days_with_data)) (whole 14))),
    days_covered x.days_with_data,
  )

  abbrev pub unknown_of : HealthInputs → F × Detail F
  unknown_of x =
      let share = fl.div (fl.of_int x.unknown_failing) (fl.of_int x.msgs_30d) in
      if is_positive x.msgs_30d && is_positive x.unknown_failing
      then (
        fl.mul (whole 15) (fl.max_of (whole 0) (fl.sub (whole 1) (fl.mul share (whole 10)))),
        unknown_share x.unknown_failing (fl.mul (whole 100) share),
      )
      else (whole 15, no_unknown)

  abbrev pub component_of : String → ℕ → F × Detail F → HealthComponent F
  component_of name m (v, d) = record {
    component = codes name;
    score = round1 v;
    max_score = whole m;
    detail = d;
  }

  abbrev pub health_components : HealthInputs → List (HealthComponent F)
  health_components x =
      component_of "alignment" 40 (alignment_of x)
      ∷ component_of "trend" 15 (trend_of x)
      ∷ component_of "policy" 20 (policy_strength x.policy_p x.policy_pct)
      ∷ component_of "coverage" 10 (coverage_of x)
      ∷ component_of "unknown_sources" 15 (unknown_of x)
      ∷ []

  unfoldable pub sum_scores : F → List (HealthComponent F) → F
  sum_scores acc [] = acc
  sum_scores acc (c ∷ cs) = sum_scores (fl.add acc c.score) cs

  -- `ComputeHealth`
  unfoldable pub compute_health : HealthInputs → ℤ × List (HealthComponent F)
  unfolding sum_scores policy_strength
  compute_health x =
      let comps = health_components x in
      (fl.to_int (fl.add (sum_scores (whole 0) comps) (fl.literal 1 2)), comps)
