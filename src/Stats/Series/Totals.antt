-- ===== src/Stats/Series/Totals.antt =====
-- The points of a series add up to its rows.
use mathlib.Core.Path.{subst}
use dmarcparser.Rollup.{
  Column, all_msgs, aligned_msgs, none_msgs, quarantine_msgs, reject_msgs, AggRow, same_int,
}
use dmarcparser.Stats.{Reals, add_to_group, group_by, filtered, all_of, insert_by, sort_by}
use dmarcparser.Stats.Series.{
  StatsFilter, BucketSize, TimeseriesPoint, bucket_start, in_series, Sums, add_row, fits_point,
  bucket_groups, point_of, stats_timeseries,
}
use dmarcparser.Base.{
  ◌≡◌, refl, arith, Bool-cases, All, sym, ap, ◌∙◌, inl, inr, Bool, some, List, [], ◌∷◌, map,
}
use dmarcparser.Base.Int.{ℤ, pos, negsuc, add_int, le_int}

add_int_comm : (a b : ℤ) → add_int a b ≡ add_int b a
unfolding add_int
add_int_comm (pos a) (pos b) = ground arith
add_int_comm (pos a) (negsuc b) = refl
add_int_comm (negsuc a) (pos b) = refl
add_int_comm (negsuc a) (negsuc b) = ground arith

add_int_assoc : (a b c : ℤ) → add_int (add_int a b) c ≡ add_int a (add_int b c)
unfolding add_int
add_int_assoc (pos a) (pos b) (pos c) = ground arith
add_int_assoc (pos a) (pos b) (negsuc c) = ground arith
add_int_assoc (pos a) (negsuc b) (pos c) = ground arith
add_int_assoc (pos a) (negsuc b) (negsuc c) = ground arith
add_int_assoc (negsuc a) (pos b) (pos c) = ground arith
add_int_assoc (negsuc a) (pos b) (negsuc c) = ground arith
add_int_assoc (negsuc a) (negsuc b) (pos c) = ground arith
add_int_assoc (negsuc a) (negsuc b) (negsuc c) = ground arith

add_int_zero : (a : ℤ) → add_int a (pos 0) ≡ a
unfolding add_int
add_int_zero (pos a) = ground arith
add_int_zero (negsuc a) = ground arith

zero_add_int : (a : ℤ) → add_int (pos 0) a ≡ a
zero_add_int a = add_int_comm (pos 0) a ∙ add_int_zero a

-- the last two summands change places
add_int_swap : (a b c : ℤ) → add_int (add_int a b) c ≡ add_int (add_int a c) b
add_int_swap a b c =
    add_int_assoc a b c ∙ ap (add_int a) (add_int_comm b c) ∙ sym (add_int_assoc a c b)

-- The sum of a measure over a list.
abbrev pub sum_by : {A : Type 0} → (A → ℤ) → List A → ℤ
sum_by f [] = pos 0
sum_by f (x ∷ xs) = add_int (f x) (sum_by f xs)

sum_by-insert_by :
    {A : Type 0} (f : A → ℤ) (ahead : A → A → Bool) (x : A) (xs : List A)
    → sum_by f (insert_by ahead x xs) ≡ add_int (f x) (sum_by f xs)
unfolding insert_by
sum_by-insert_by f ahead x [] = refl
sum_by-insert_by f ahead x (y ∷ ys) = elim (Bool-cases (ahead x y)) [
  | inl h ↦ rw h refl
  | inr h ↦ rw h (
      ap (add_int (f y)) (sum_by-insert_by f ahead x ys)
      ∙ sym (add_int_assoc (f y) (f x) (sum_by f ys))
      ∙ ap (λ a. add_int a (sum_by f ys)) (add_int_comm (f y) (f x))
      ∙ add_int_assoc (f x) (f y) (sum_by f ys))
]

sum_by-sort_by :
    {A : Type 0} (f : A → ℤ) (ahead : A → A → Bool) (xs : List A)
    → sum_by f (sort_by ahead xs) ≡ sum_by f xs
unfolding sort_by
sum_by-sort_by f ahead [] = refl
sum_by-sort_by f ahead (x ∷ xs) =
    sum_by-insert_by f ahead x (sort_by ahead xs) ∙ ap (add_int (f x)) (sum_by-sort_by f ahead xs)

sum_by-map :
    {A B : Type 0} (f : B → ℤ) (g : A → B) (h : A → ℤ) (xs : List A)
    → ((x : A) → f (g x) ≡ h x)
    → sum_by f (map g xs) ≡ sum_by h xs
sum_by-map f g h [] e = refl
sum_by-map f g h (x ∷ xs) e = rw (e x) (ap (add_int (h x)) (sum_by-map f g h xs e))

module _ (size : BucketSize) (c : Column) where
  abbrev row_start : AggRow → ℤ
  row_start row = bucket_start size row.0.0

  abbrev at : ℤ × Sums → ℤ
  at g = g.1 c

  add_to_group-sum :
      (row : AggRow) (gs : List (ℤ × Sums))
      → sum_by at (add_to_group same_int (λ c. pos 0) row_start add_row row gs)
        ≡ add_int (sum_by at gs) (row.1.msgs c)
  unfolding add_to_group
  add_to_group-sum row [] = add_int_zero _ ∙ refl
  add_to_group-sum row ((k, s) ∷ gs) = elim (Bool-cases (same_int k (row_start row))) [
    | inl h ↦ rw h (add_int_swap (s c) (row.1.msgs c) (sum_by at gs))
    | inr h ↦ rw h (
        ap (add_int (s c)) (add_to_group-sum row gs)
        ∙ sym (add_int_assoc (s c) (sum_by at gs) (row.1.msgs c)))
  ]

  group_by-sum :
      (rows : List AggRow) (gs : List (ℤ × Sums))
      → sum_by at (group_by same_int (λ c. pos 0) row_start add_row rows gs)
        ≡ add_int (sum_by at gs) (sum_by (λ row. row.1.msgs c) rows)
  unfolding group_by
  group_by-sum [] gs = sym (add_int_zero (sum_by at gs))
  group_by-sum (row ∷ rows) gs =
      group_by-sum rows _
      ∙ ap (λ a. add_int a (sum_by (λ row. row.1.msgs c) rows)) (add_to_group-sum row gs)
      ∙ add_int_assoc (sum_by at gs) (row.1.msgs c) (sum_by (λ row. row.1.msgs c) rows)

-- the columns of a point
abbrev pub point_columns : {F : Type 0} → List (Column × (TimeseriesPoint F → ℤ))
point_columns =
    (all_msgs, λ p. p.point_total)
    ∷ (aligned_msgs, λ p. p.point_aligned)
    ∷ (none_msgs, λ p. p.point_none)
    ∷ (quarantine_msgs, λ p. p.point_quarantine)
    ∷ (reject_msgs, λ p. p.point_reject)
    ∷ []

-- the points of the groups, in one column
column-sum :
    {F : Type 0} (fl : Reals F) (f : StatsFilter) (size : BucketSize) (agg : List AggRow)
    (c : Column) (field : TimeseriesPoint F → ℤ)
    → ((g : ℤ × Sums) → field (point_of fl g) ≡ g.1 c)
    → sum_by field (map (point_of fl) (sort_by (λ a b. le_int a.0 b.0) (bucket_groups size f agg)))
      ≡ sum_by (λ row. row.1.msgs c) (filtered (in_series f) agg)
column-sum fl f size agg c field e =
    sum_by-map field (point_of fl) (λ g. g.1 c) _ e
    ∙ sum_by-sort_by (λ g. g.1 c) (λ a b. le_int a.0 b.0) (bucket_groups size f agg)
    ∙ group_by-sum size c (filtered (in_series f) agg) []
    ∙ zero_add_int _

-- The points of a series, by day or by week, add up to the rows that the filter lets through, in each
-- of the five columns: no row is lost and none is counted in two buckets.
pub stats_timeseries-sum :
    {F : Type 0} (fl : Reals F) (f : StatsFilter) (size : BucketSize) (agg : List AggRow)
    {ps : List (TimeseriesPoint F)}
    → stats_timeseries fl f size agg ≡ some ps
    → All
        (λ x. sum_by x.1 ps ≡ sum_by (λ row. row.1.msgs x.0) (filtered (in_series f) agg))
        point_columns
unfolding stats_timeseries
stats_timeseries-sum {F} fl f size agg {ps} e =
    let points = map (point_of fl) (sort_by (λ a b. le_int a.0 b.0) (bucket_groups size f agg)) in
    let rows = filtered (in_series f) agg in
    elim (Bool-cases (all_of (λ g. fits_point g.1) (bucket_groups size f agg))) [
      | inr h ↦ absurd (cc (rw (stats_timeseries, h) at e))
      | inl h ↦
          let same : points ≡ ps = cc (rw (stats_timeseries, h) at e) in
          subst
            (λ (qs : List (TimeseriesPoint F)).
              All (λ x. sum_by x.1 qs ≡ sum_by (λ row. row.1.msgs x.0) rows) point_columns)
            same
            (
              column-sum fl f size agg all_msgs (λ p. p.point_total) (λ g. refl),
              (
                column-sum fl f size agg aligned_msgs (λ p. p.point_aligned) (λ g. refl),
                (
                  column-sum fl f size agg none_msgs (λ p. p.point_none) (λ g. refl),
                  (
                    column-sum fl f size agg quarantine_msgs (λ p. p.point_quarantine) (λ g. refl),
                    (column-sum fl f size agg reject_msgs (λ p. p.point_reject) (λ g. refl), tt),
                  ),
                ),
              ),
            )
    ]
