-- ===== src/Stats/Top/Ranked.antt =====
-- What a ranking holds.
use dmarcparser.Base.{
  Bool-cases, length, take, All, length-take_le, All-append, ℕ, zero, suc, ◌≤◌, ◌≡◌, refl, ap, inl,
  inr, Bool, true, false, Option, none, some, List, [], ◌∷◌,
}
use dmarcparser.Base.Int.{lt_int, add_int}
use dmarcparser.Report.{Record}
use dmarcparser.Rollup.Bounded.{total}
use dmarcparser.Stats.Domains.{is_failing}
use dmarcparser.Stats.Readiness.{same_address}
use dmarcparser.Stats.Series.{StatsFilter}
use dmarcparser.Store.Reports.{ReportRow, RecordRow, Tables, records_of}
use dmarcparser.Text.{Bytes}
use mathlib.Core.Path.{subst}
use dmarcparser.Stats.{insert_by, sort_by, add_to_group, group_by}
use dmarcparser.Stats.Top.{
  TopRow, top_ahead, stats_top, keyed_rows, TopTally, empty_tally, add_joined, Joined,
  joined_records, joined_rows, top_groups, Dimension, in_top,
}
use dmarcparser.Stats.Domains.Rows.{All-sort_by, if_some}
use dmarcparser.Export.{HostOf}

-- Each row may stand before the next.
abbrev pub SortedBy : {A : Type 0} → (A → A → Bool) → List A → Type 0
SortedBy ahead [] = Unit
SortedBy ahead (x ∷ []) = Unit
SortedBy ahead (x ∷ y ∷ ys) = (ahead x y ≡ true) × SortedBy ahead (y ∷ ys)

module _ {A : Type 0} (ahead : A → A → Bool)
    (total : (a b : A) → ahead a b ≡ false → ahead b a ≡ true) where
  insert_by-SortedBy :
      (x : A) (xs : List A) → SortedBy ahead xs → SortedBy ahead (insert_by ahead x xs)
  unfolding insert_by
  insert_by-SortedBy x [] s = tt
  insert_by-SortedBy x (y ∷ []) s = elim (Bool-cases (ahead x y)) [
    | inl h ↦ rw h (h, tt)
    | inr h ↦ rw h (total x y h, tt)
  ]
  insert_by-SortedBy x (y ∷ z ∷ zs) (e, s) = elim (Bool-cases (ahead x y)) [
    | inl h ↦ rw h (h, (e, s))
    | inr h ↦ elim (Bool-cases (ahead x z)) [
      | inl g ↦ rw (h, g) (total x y h, rw (insert_by, g) at (insert_by-SortedBy x (z ∷ zs) s))
      | inr g ↦ rw (h, g) (e, rw (insert_by, g) at (insert_by-SortedBy x (z ∷ zs) s))
    ]
  ]

  sort_by-SortedBy : (xs : List A) → SortedBy ahead (sort_by ahead xs)
  unfolding sort_by
  sort_by-SortedBy [] = tt
  sort_by-SortedBy (x ∷ xs) = insert_by-SortedBy x (sort_by ahead xs) (sort_by-SortedBy xs)

take-SortedBy :
    {A : Type 0} (ahead : A → A → Bool) (n : ℕ) (xs : List A)
    → SortedBy ahead xs
    → SortedBy ahead (take n xs)
take-SortedBy ahead zero xs s = tt
take-SortedBy ahead (suc n) [] s = tt
take-SortedBy ahead (suc zero) (x ∷ xs) s = tt
take-SortedBy ahead (suc (suc n)) (x ∷ []) s = tt
take-SortedBy ahead (suc (suc n)) (x ∷ y ∷ ys) (e, s) = (e, take-SortedBy ahead (suc n) (y ∷ ys) s)

take-All : {A : Type 0} (P : A → Type 0) (n : ℕ) (xs : List A) → All P xs → All P (take n xs)
take-All P zero xs ps = tt
take-All P (suc n) [] ps = tt
take-All P (suc n) (x ∷ xs) (p, ps) = (p, take-All P n xs ps)

top_ahead_total :
    (text_le : Bytes → Bytes → Bool) (a b : TopRow)
    → ((x y : Bytes) → text_le x y ≡ false → text_le y x ≡ true)
    → top_ahead text_le a b ≡ false
    → top_ahead text_le b a ≡ true
top_ahead_total text_le a b total h = elim (Bool-cases (lt_int b.top_msgs a.top_msgs)) [
  | inl e ↦ absurd (cc (rw e at h))
  | inr e ↦ elim (Bool-cases (lt_int a.top_msgs b.top_msgs)) [
    | inl g ↦ rw g refl
    | inr g ↦ rw (g, e) (total a.top_key b.top_key (rw (e, g) at h))
  ]
]

-- with `failing` only failing records are joined
joined_records_failing :
    (host : HostOf) (dim : Dimension) (row : ReportRow) (recs : List Record)
    → All (λ j. j.joined_failing ≡ true) (joined_records host dim true row recs)
unfolding joined_records
joined_records_failing host dim row [] = tt
joined_records_failing host dim row (rec ∷ recs) = elim (Bool-cases (is_failing rec)) [
  | inl h ↦ rw h (refl, joined_records_failing host dim row recs)
  | inr h ↦ rw h (joined_records_failing host dim row recs)
]

joined_rows_failing :
    (host : HostOf) (f : StatsFilter) (dim : Dimension) (recs : List RecordRow)
    (rows : List ReportRow)
    → All (λ j. j.joined_failing ≡ true) (joined_rows host f dim true recs rows)
unfolding joined_rows
joined_rows_failing host f dim recs [] = tt
joined_rows_failing host f dim recs (row ∷ rows) = elim (Bool-cases (in_top f row)) [
  | inl h ↦ rw h (
      All-append (λ j. j.joined_failing ≡ true) _ _
        (joined_records_failing host dim row (records_of row.serial recs))
        (joined_rows_failing host f dim recs rows))
  | inr h ↦ rw h (joined_rows_failing host f dim recs rows)
]

-- all of a tally is failing
abbrev AllFailing : Option Bytes × TopTally → Type 0
AllFailing g = g.1.tally_msgs ≡ g.1.tally_failed

add_to_group-AllFailing :
    (j : Joined) (gs : List (Option Bytes × TopTally))
    → j.joined_failing ≡ true
    → All AllFailing gs
    → All AllFailing (add_to_group same_address empty_tally (λ j. j.joined_key) add_joined j gs)
unfolding add_to_group
add_to_group-AllFailing j [] h ps = (rw h refl, tt)
add_to_group-AllFailing j ((k, t) ∷ gs) h (p, ps) =
    elim (Bool-cases (same_address k j.joined_key)) [
      | inl e ↦ rw (e, h) (ap (λ n. add_int n j.joined_count) p, ps)
      | inr e ↦ rw e (p, add_to_group-AllFailing j gs h ps)
    ]

group_by-AllFailing :
    (js : List Joined) (gs : List (Option Bytes × TopTally))
    → All (λ j. j.joined_failing ≡ true) js
    → All AllFailing gs
    → All AllFailing (group_by same_address empty_tally (λ j. j.joined_key) add_joined js gs)
unfolding group_by
group_by-AllFailing [] gs hs ps = ps
group_by-AllFailing (j ∷ js) gs (h, hs) ps =
    group_by-AllFailing js _ hs (add_to_group-AllFailing j gs h ps)

keyed_rows-AllFailing :
    (gs : List (Option Bytes × TopTally))
    → All AllFailing gs
    → All (λ r. r.top_msgs ≡ r.top_failed) (keyed_rows gs)
unfolding keyed_rows
keyed_rows-AllFailing [] ps = tt
keyed_rows-AllFailing ((none, t) ∷ gs) (p, ps) = keyed_rows-AllFailing gs ps
keyed_rows-AllFailing ((some [], t) ∷ gs) (p, ps) = keyed_rows-AllFailing gs ps
keyed_rows-AllFailing ((some (c ∷ cs), t) ∷ gs) (p, ps) = (p, keyed_rows-AllFailing gs ps)

-- Where the collation orders every two keys, a ranking has at most limit rows, the ones with the most
-- messages first and those with as many in the order of their keys.
stats_top-SortedBy :
    (text_le : Bytes → Bytes → Bool) (host : HostOf) (f : StatsFilter) (dim : Dimension)
    (only_failing : Bool) (limit : ℕ) (t : Tables) {rows : List TopRow}
    → ((x y : Bytes) → text_le x y ≡ false → text_le y x ≡ true)
    → stats_top text_le host f dim only_failing limit t ≡ some rows
    → (length rows ≤ limit) × SortedBy (top_ahead text_le) rows
unfolding stats_top
stats_top-SortedBy text_le host f dim only_failing limit t {rows} total e =
    let ranked = sort_by (top_ahead text_le) (keyed_rows (top_groups host f dim only_failing t)) in
    let same = if_some _ _ _ e in
    subst (λ rows. (length rows ≤ limit) × SortedBy (top_ahead text_le) rows) same
      (
        length-take_le limit ranked,
        take-SortedBy (top_ahead text_le) limit ranked (
            sort_by-SortedBy (top_ahead text_le) (λ a b. top_ahead_total text_le a b total)
              (keyed_rows (top_groups host f dim only_failing t))),
      )

-- In a ranking of failing mail alone, the messages of each row are all failing.
stats_top_failing :
    (text_le : Bytes → Bytes → Bool) (host : HostOf) (f : StatsFilter) (dim : Dimension) (limit : ℕ)
    (t : Tables) {rows : List TopRow}
    → stats_top text_le host f dim true limit t ≡ some rows
    → All (λ r. r.top_msgs ≡ r.top_failed) rows
unfolding stats_top
stats_top_failing text_le host f dim limit t {rows} e =
    let same = if_some _ _ _ e in
    let js = joined_rows host f dim true t.records t.reports in
    let gs = top_groups host f dim true t in
    subst (All (λ (r : TopRow). r.top_msgs ≡ r.top_failed)) same (
      take-All (λ r. r.top_msgs ≡ r.top_failed) limit _
        (All-sort_by (λ r. r.top_msgs ≡ r.top_failed) (top_ahead text_le) (keyed_rows gs)
          (keyed_rows-AllFailing gs
            (group_by-AllFailing js [] (joined_rows_failing host f dim t.records t.reports) tt))))
