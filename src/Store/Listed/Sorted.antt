-- ===== src/Store/Listed/Sorted.antt =====
-- The order of `ListReports`.
use dmarcparser.Stats.Domains.Rows.{both_true}
use dmarcparser.Text.{Bytes, beq_iff}
use dmarcparser.Base.Int.{lt_int, ℤ, is_bigint, pos, negsuc}
use dmarcparser.Store.Listed.{
  ListFilter, ReportSummary, matches, matching, before_row, insert_row, sort_rows, summaries,
  with_summary, page_of, list_reports, sum_counts, is_or_any, ends_after, begins_before,
}
use dmarcparser.Store.Reports.{ReportRow, RecordRow, Tables, records_of}
use dmarcparser.Base.{◌⊎◌, Bool, not}
use dmarcparser.Base.{
  Bool-cases, leb, take, drop, All, ℕ, zero, suc, ◌≡◌, refl, inl, inr, true, false, some, List, [],
  ◌∷◌, map, arith, length, length-take_le, ◌≤◌, ap, ◌∙◌, Option, none,
}

-- each row may stand before the next
abbrev pub IsSorted : List ReportRow → Type 0
IsSorted [] = Unit
IsSorted (x ∷ []) = Unit
IsSorted (x ∷ y ∷ rows) = (before_row x y ≡ true) × IsSorted (y ∷ rows)

before_row_total : (a b : ReportRow) → before_row a b ≡ false → before_row b a ≡ true
unfolding before_row
before_row_total a b h = elim (Bool-cases (lt_int b.report.begin a.report.begin)) [
  | inl e ↦ absurd (cc (rw e at h))
  | inr e ↦ elim (Bool-cases (lt_int a.report.begin b.report.begin)) [
    | inl g ↦ rw g refl
    | inr g ↦ let far : leb b.serial a.serial ≡ false = rw (e, g) at h in rw (e, g) (ground arith)
  ]
]

insert_row-IsSorted :
    (row : ReportRow) (rows : List ReportRow) → IsSorted rows → IsSorted (insert_row row rows)
unfolding insert_row
insert_row-IsSorted row [] s = tt
insert_row-IsSorted row (x ∷ []) s = elim (Bool-cases (before_row row x)) [
  | inl h ↦ rw h (h, tt)
  | inr h ↦ rw h (before_row_total row x h, tt)
]
insert_row-IsSorted row (x ∷ y ∷ rows) (e, s) = elim (Bool-cases (before_row row x)) [
  | inl h ↦ rw h (h, (e, s))
  | inr h ↦ elim (Bool-cases (before_row row y)) [
    | inl g ↦ rw (h, g) (before_row_total row x h, (g, s))
    | inr g ↦ rw (h, g) (e, rw (insert_row, g) at (insert_row-IsSorted row (y ∷ rows) s))
  ]
]

sort_rows-IsSorted : (rows : List ReportRow) → IsSorted (sort_rows rows)
unfolding sort_rows
sort_rows-IsSorted [] = tt
sort_rows-IsSorted (row ∷ rows) = insert_row-IsSorted row (sort_rows rows) (sort_rows-IsSorted rows)

IsSorted-tail : (x : ReportRow) (rows : List ReportRow) → IsSorted (x ∷ rows) → IsSorted rows
IsSorted-tail x [] s = tt
IsSorted-tail x (y ∷ rows) (e, s) = s

drop-IsSorted : (n : ℕ) (rows : List ReportRow) → IsSorted rows → IsSorted (drop n rows)
drop-IsSorted zero rows s = s
drop-IsSorted (suc n) [] s = tt
drop-IsSorted (suc n) (x ∷ rows) s = drop-IsSorted n rows (IsSorted-tail x rows s)

take-IsSorted : (n : ℕ) (rows : List ReportRow) → IsSorted rows → IsSorted (take n rows)
take-IsSorted zero rows s = tt
take-IsSorted (suc n) [] s = tt
take-IsSorted (suc zero) (x ∷ rows) s = tt
take-IsSorted (suc (suc n)) (x ∷ []) s = tt
take-IsSorted (suc (suc n)) (x ∷ y ∷ rows) (e, s) = (e, take-IsSorted (suc n) (y ∷ rows) s)

with_summary-eq_some :
    (row : ReportRow) (n : ℕ) (m : ℤ) (o : Option (List ReportSummary)) {out : List ReportSummary}
    → with_summary row n m o ≡ some out
    → (rest : List ReportSummary) × (o ≡ some rest)
      × (map (λ s. s.summary_row) out ≡ row ∷ map (λ s. s.summary_row) rest)
with_summary-eq_some row n m none h = absurd (cc)
with_summary-eq_some row n m (some rest) {out} h = elim (Bool-cases (is_bigint m)) [
  | inr big ↦ absurd (cc (rw big at h))
  | inl fit ↦
      let same : record { summary_row = row; summary_records = n; summary_messages = m } ∷ rest
          ≡ out =
        cc (rw fit at h) in
      (rest, refl, rw (← same) refl)
]

-- what is listed are the rows of the page
pub summaries-rows :
    (recs : List RecordRow) (rows : List ReportRow) {out : List ReportSummary}
    → summaries recs rows ≡ some out
    → map (λ s. s.summary_row) out ≡ rows
unfolding summaries
summaries-rows recs [] {out} h = let same : [] ≡ out = cc in rw (← same) refl
summaries-rows recs (row ∷ rows) {out} h =
    let own = records_of row.serial recs in
    let (rest, e, rows_same) =
      with_summary-eq_some row (length own) (sum_counts own) (summaries recs rows) h in
    rows_same ∙ ap (◌∷◌ row) (summaries-rows recs rows e)

module _ {κ} (P : ReportRow → Type κ) where
  insert_row-All :
      (row : ReportRow) (rows : List ReportRow) → P row → All P rows → All P (insert_row row rows)
  unfolding insert_row
  insert_row-All row [] p a = (p, tt)
  insert_row-All row (x ∷ xs) p (q, a) = elim (Bool-cases (before_row row x)) [
    | inl h ↦ rw h (p, (q, a))
    | inr h ↦ rw h (q, insert_row-All row xs p a)
  ]

  sort_rows-All : (rows : List ReportRow) → All P rows → All P (sort_rows rows)
  unfolding sort_rows
  sort_rows-All [] a = tt
  sort_rows-All (row ∷ rows) (p, a) = insert_row-All row (sort_rows rows) p (sort_rows-All rows a)

  drop-All : (n : ℕ) (rows : List ReportRow) → All P rows → All P (drop n rows)
  drop-All zero rows a = a
  drop-All (suc n) [] a = tt
  drop-All (suc n) (x ∷ rows) (p, a) = drop-All n rows a

  take-All : (n : ℕ) (rows : List ReportRow) → All P rows → All P (take n rows)
  take-All zero rows a = tt
  take-All (suc n) [] a = tt
  take-All (suc n) (x ∷ rows) (p, a) = (p, take-All n rows a)

-- begins later, or at the same time under a serial that is not lower
abbrev pub Newer : ReportRow → ReportRow → Type 0
Newer a b =
    (lt_int b.report.begin a.report.begin ≡ true)
    ⊎ ((a.report.begin ≡ b.report.begin) × (b.serial ≤ a.serial))

abbrev pub NewestFirst : List ReportRow → Type 0
NewestFirst [] = Unit
NewestFirst (x ∷ []) = Unit
NewestFirst (x ∷ y ∷ rows) = Newer x y × NewestFirst (y ∷ rows)

not_lt_int : (a b : ℤ) → lt_int a b ≡ false → lt_int b a ≡ false → a ≡ b
unfolding lt_int
not_lt_int (pos a) (pos b) g h = let same : a ≡ b = ground arith in ap pos same
not_lt_int (pos a) (negsuc b) g h = absurd (cc)
not_lt_int (negsuc a) (pos b) g h = absurd (cc)
not_lt_int (negsuc a) (negsuc b) g h = let same : a ≡ b = ground arith in ap negsuc same

before_row-Newer : (a b : ReportRow) → before_row a b ≡ true → Newer a b
unfolding before_row
before_row-Newer a b h = elim (Bool-cases (lt_int b.report.begin a.report.begin)) [
  | inl e ↦ inl e
  | inr e ↦ elim (Bool-cases (lt_int a.report.begin b.report.begin)) [
    | inl g ↦ absurd (cc (rw (e, g) at h))
    | inr g ↦
        let near : leb b.serial a.serial ≡ true = rw (e, g) at h in
        inr (not_lt_int a.report.begin b.report.begin g e, ground arith)
  ]
]

IsSorted-NewestFirst : (rows : List ReportRow) → IsSorted rows → NewestFirst rows
IsSorted-NewestFirst [] s = tt
IsSorted-NewestFirst (x ∷ []) s = tt
IsSorted-NewestFirst (x ∷ y ∷ rows) (e, s) =
    (before_row-Newer x y e, IsSorted-NewestFirst (y ∷ rows) s)

abbrev pub NotBefore : Option ℤ → ℤ → Type 0
NotBefore none t = Unit
NotBefore (some s) t = lt_int t s ≡ false

abbrev pub NotAfter : Option ℤ → ℤ → Type 0
NotAfter none t = Unit
NotAfter (some u) t = lt_int u t ≡ false

-- The row has the domain and the organisation that are asked for, if any, does not end before `since`
-- and does not begin after `until`, if there is one.
pub record IsWanted (f : ListFilter) (row : ReportRow) : Type 0 where
  pub domain_wanted : (f.of_domain ≡ []) ⊎ (row.report.domain ≡ f.of_domain)
  pub org_wanted : (f.of_org ≡ []) ⊎ (row.report.org ≡ f.of_org)
  pub end_wanted : NotBefore f.since row.report.end
  pub begin_wanted : NotAfter f.until row.report.begin

wanted_text : (wanted s : Bytes) → is_or_any wanted s ≡ true → (wanted ≡ []) ⊎ (s ≡ wanted)
wanted_text [] s h = inl refl
wanted_text (c ∷ cs) s h = inr ((beq_iff s (c ∷ cs)).0 h)

not-true : (b : Bool) → not b ≡ true → b ≡ false
not-true true h = absurd (cc)
not-true false h = refl

ends_after-NotBefore : (o : Option ℤ) (t : ℤ) → ends_after o t ≡ true → NotBefore o t
ends_after-NotBefore none t h = tt
ends_after-NotBefore (some s) t h = not-true (lt_int t s) h

begins_before-NotAfter : (o : Option ℤ) (t : ℤ) → begins_before o t ≡ true → NotAfter o t
begins_before-NotAfter none t h = tt
begins_before-NotAfter (some u) t h = not-true (lt_int u t) h

matches-IsWanted : (f : ListFilter) (row : ReportRow) → matches f row ≡ true → IsWanted f row
unfolding matches
matches-IsWanted f row h =
    let (a, more) = both_true (is_or_any f.of_domain row.report.domain) _ h in
    let (b, times) = both_true (is_or_any f.of_org row.report.org) _ more in
    let (c, d) = both_true (ends_after f.since row.report.end) _ times in
    record {
      domain_wanted = wanted_text f.of_domain row.report.domain a;
      org_wanted = wanted_text f.of_org row.report.org b;
      end_wanted = ends_after-NotBefore f.since row.report.end c;
      begin_wanted = begins_before-NotAfter f.until row.report.begin d;
    }

matching-IsWanted : (f : ListFilter) (rows : List ReportRow) → All (IsWanted f) (matching f rows)
unfolding matching
matching-IsWanted f [] = tt
matching-IsWanted f (row ∷ rows) = elim (Bool-cases (matches f row)) [
  | inl h ↦ rw h (matches-IsWanted f row h, matching-IsWanted f rows)
  | inr h ↦ rw h (matching-IsWanted f rows)
]

-- A list of reports has at most `limit` of them; each has the domain and the organisation that are
-- asked for, does not end before `since` and does not begin after `until`, where these are given; and
-- each begins later than the next, or at the same time with no lower serial.
pub list_reports-NewestFirst :
    (f : ListFilter) (t : Tables) {out : List ReportSummary}
    → list_reports f t ≡ some out
    → (length (map (λ s. s.summary_row) out) ≤ f.limit)
      × All (IsWanted f) (map (λ s. s.summary_row) out)
      × NewestFirst (map (λ s. s.summary_row) out)
unfolding list_reports
list_reports-NewestFirst f t h =
    let rows = sort_rows (matching f t.reports) in
    let same = summaries-rows t.records (page_of f.limit f.offset rows) h in
    let sorted =
      take-IsSorted f.limit (drop f.offset rows)
        (drop-IsSorted f.offset rows (sort_rows-IsSorted (matching f t.reports))) in
    rw same (
      length-take_le f.limit (drop f.offset rows),
      take-All (IsWanted f) f.limit (drop f.offset rows) (
          drop-All (IsWanted f) f.offset rows
            (sort_rows-All (IsWanted f) (matching f t.reports) (matching-IsWanted f t.reports))),
      IsSorted-NewestFirst _ sorted,
    )
