-- ===== src/Rollup/Bounded.antt =====
-- Sums of counts that stay within a bigint.
use dmarcparser.Base.{
  Bool-cases, All, ℕ, ◌+◌, ◌^◌, ◌≤◌, ◌<◌, ◌≡◌, refl, inl, inr, true, List, [], ◌∷◌, arith,
}
use dmarcparser.Base.Int.{ℤ, pos, negsuc, add_int, add64_pos}
use dmarcparser.Report.{Record}
use dmarcparser.Rollup.{
  Column, all_msgs, aligned_msgs, dkim_msgs, spf_msgs, none_msgs, quarantine_msgs, reject_msgs,
  Bucket, counted, tally_column, sum_column, fits, add_bucket,
}

abbrev pub count_of : ℤ → ℕ
count_of (pos n) = n
count_of (negsuc n) = 0

-- All counts are zero or more.
abbrev pub Counts : List Record → Type 0
Counts = All (λ rec. rec.count ≡ pos (count_of rec.count))

abbrev pub total : List Record → ℕ
total [] = 0
total (rec ∷ recs) = count_of rec.count + total recs

-- Where the sum fits an int64, the wrapping sum of `OnIngest` is the exact sum of the query.
pub tally_column-sum_column :
    (c : Column) (a : ℕ) (recs : List Record)
    → Counts recs
    → a + total recs < 2 ^ 63
    → (k : ℕ) × (tally_column c (pos a) recs ≡ pos k)
      × (sum_column c (pos a) recs ≡ pos k)
      × (k ≤ a + total recs)
unfolding tally_column sum_column add_int
tally_column-sum_column c a [] p h = (a, refl, refl, omega arith)
tally_column-sum_column c a (rec ∷ recs) (e, p) h = elim (Bool-cases (counted c rec)) [
  | inl yes_counted ↦
      let n = count_of rec.count in
      let (k, t, s, le) = tally_column-sum_column c (a + n) recs p (omega arith) in
      (k, rw (yes_counted, e, add64_pos a n (omega arith)) t, rw (yes_counted, e) s, omega arith)
  | inr not_counted ↦
      let (k, t, s, le) = tally_column-sum_column c a recs p (omega arith) in
      (k, rw not_counted t, rw not_counted s, omega arith)
]

-- All columns of a row are counts of at most `n`, and it has at most `q` reports.
pub record IsSmall (n q : ℕ) (b : Bucket) : Type 0 where
  pub small_msgs : (c : Column) → (k : ℕ) × (b.msgs c ≡ pos k) × (k ≤ n)
  pub small_reports : b.reports ≤ q

pub IsSmall-fits : (n q : ℕ) (b : Bucket) → n < 2 ^ 63 → q < 2 ^ 31 → IsSmall n q b → fits b ≡ true
unfolding fits
IsSmall-fits n q b h g s =
    let (k1, e1, l1) = s.small_msgs all_msgs in
    let (k2, e2, l2) = s.small_msgs aligned_msgs in
    let (k3, e3, l3) = s.small_msgs dkim_msgs in
    let (k4, e4, l4) = s.small_msgs spf_msgs in
    let (k5, e5, l5) = s.small_msgs none_msgs in
    let (k6, e6, l6) = s.small_msgs quarantine_msgs in
    let (k7, e7, l7) = s.small_msgs reject_msgs in
    let r = s.small_reports in rw (e1, e2, e3, e4, e5, e6, e7) (ground arith)

-- A sum of small rows.
pub add_bucket-IsSmall :
    (n x q : ℕ) (b : Bucket) (m : Column → ℤ)
    → IsSmall n q b
    → ((c : Column) → (k : ℕ) × (m c ≡ pos k) × (k ≤ x))
    → IsSmall (n + x) (q + 1) (add_bucket b m)
unfolding add_int
add_bucket-IsSmall n x q b m s small = record {
  small_msgs = λ c.
      let (k, e, l) = s.small_msgs c in let (j, d, i) = small c in (k + j, rw (e, d), omega arith);
  small_reports = let r = s.small_reports in omega arith;
}

pub IsSmall-weaken : (n x q : ℕ) (b : Bucket) → IsSmall n q b → IsSmall (n + x) (q + 1) b
IsSmall-weaken n x q b s = record {
  small_msgs = λ c. let (k, e, l) = s.small_msgs c in (k, e, omega arith);
  small_reports = let r = s.small_reports in omega arith;
}
