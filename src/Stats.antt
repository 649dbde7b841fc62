-- ===== src/Stats.antt =====
-- parser/internal/store/store_stats.go: the statistics over `dmarc_agg_daily`, `report` and
-- `rptrecord`. Here: what they share, the grouping of SQL, and floats, which are a parameter.
pub mod Grouped
pub mod Health
pub mod Domains
pub mod Readiness
pub mod Series
pub mod Top
use dmarcparser.Base.{if◌then◌else◌, Bool, false, Option, none, some, List, [], ◌∷◌, ℕ, true, ◌&&◌}
use dmarcparser.Base.Int.{ℤ, pos, le_int}
use dmarcparser.Text.{Bytes, is_some, beq}

-- float64; `literal a b` is the constant that the source writes for a / b
pub record Reals (F : Type 0) : Type 0 where
  pub of_int : ℤ → F
  pub literal : ℕ → ℕ → F
  pub add : F → F → F
  pub sub : F → F → F
  pub mul : F → F → F
  pub div : F → F → F
  pub min_of : F → F → F
  pub max_of : F → F → F
  pub less : F → F → Bool
  pub to_int : F → ℤ

-- `ratio`
abbrev pub ratio : {F : Type 0} → Reals F → ℤ → ℤ → F
ratio fl n d = if le_int d (pos 0) then fl.literal 0 1 else fl.div (fl.of_int n) (fl.of_int d)

-- `GROUP BY`: the groups in the order of their first rows, each with what `step` makes of its rows
module _ {K A R : Type 0} (same : K → K → Bool) (start : A) (key : R → K) (step : R → A → A) where
  unfoldable pub add_to_group : R → List (K × A) → List (K × A)
  add_to_group r [] = (key r, step r start) ∷ []
  add_to_group r ((k, a) ∷ gs) =
      let rest = add_to_group r gs in if same k (key r) then (k, step r a) ∷ gs else (k, a) ∷ rest

  unfoldable pub group_by : List R → List (K × A) → List (K × A)
  unfolding add_to_group
  group_by [] gs = gs
  group_by (r ∷ rs) gs = group_by rs (add_to_group r gs)

  -- the rows of one key alone, without grouping
  unfoldable pub over_key : K → List R → A → A
  over_key k [] a = a
  over_key k (r ∷ rs) a = over_key k rs (if same (key r) k then step r a else a)

-- `LEFT JOIN` with the groups, and `COALESCE`
module _ {K A : Type 0} (same : K → K → Bool) (start : A) where
  unfoldable pub find_group : K → List (K × A) → A
  find_group k [] = start
  find_group k ((k', a) ∷ gs) = if same k' k then a else find_group k gs

unfoldable pub filtered : {A : Type 0} → (A → Bool) → List A → List A
filtered p [] = []
filtered p (x ∷ xs) = let rest = filtered p xs in if p x then x ∷ rest else rest

unfoldable pub all_of : {A : Type 0} → (A → Bool) → List A → Bool
all_of p [] = true
all_of p (x ∷ xs) = p x && all_of p xs

-- `ORDER BY`: `ahead a b` if `a` may stand before `b`; rows that are level keep their order
module _ {A : Type 0} (ahead : A → A → Bool) where
  unfoldable pub insert_by : A → List A → List A
  insert_by x [] = x ∷ []
  insert_by x (y ∷ ys) = let rest = insert_by x ys in if ahead x y then x ∷ y ∷ ys else y ∷ rest

  unfoldable pub sort_by : List A → List A
  unfolding insert_by
  sort_by [] = []
  sort_by (x ∷ xs) = insert_by x (sort_by xs)
