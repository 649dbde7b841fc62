-- ===== src/Store/Listed/Listing.antt =====
-- The rows that `ListReports` gives where the limit is large enough.
use dmarcparser.Base.Int.{ℤ}
use dmarcparser.Store.Listed.{
  ListFilter, ReportSummary, is_or_any, ends_after, begins_before, matches, matching, before_row,
  insert_row, sort_rows, page_of, list_reports,
}
use dmarcparser.Store.Listed.Sorted.{summaries-rows, NotBefore, NotAfter, IsWanted}
use dmarcparser.Store.Reports.{ReportRow, Tables}
use dmarcparser.Text.{Bytes, beq_iff}
use mathlib.Core.Path.{subst}
use dmarcparser.Base.{
  take_all, Bool-cases, length, take, drop, is_empty, ◌+◌, ◌≤◌, ◌≡◌, refl, sym, ap, ◌∙◌, ◌⊎◌, inl,
  inr, true, Option, none, some, List, [], ◌∷◌, map, arith,
}

abbrev pub IsIn : ReportRow → List ReportRow → Type 0
IsIn row [] = ⊥
IsIn row (x ∷ rows) = (x ≡ row) ⊎ IsIn row rows

is_or_any_lem : (ask s : Bytes) → (ask ≡ []) ⊎ (s ≡ ask) → is_or_any ask s ≡ true
is_or_any_lem ask s (inl h) = rw h refl
is_or_any_lem ask s (inr h) = elim (Bool-cases (is_empty ask)) [
  | inl e ↦ rw e refl
  | inr e ↦ rw e ((beq_iff s ask).1 h)
]

NotBefore-ends_after : (o : Option ℤ) (t : ℤ) → NotBefore o t → ends_after o t ≡ true
NotBefore-ends_after none t h = refl
NotBefore-ends_after (some s) t h = rw h refl

NotAfter-begins_before : (o : Option ℤ) (t : ℤ) → NotAfter o t → begins_before o t ≡ true
NotAfter-begins_before none t h = refl
NotAfter-begins_before (some u) t h = rw h refl

IsWanted-matches : (f : ListFilter) (row : ReportRow) → IsWanted f row → matches f row ≡ true
unfolding matches
IsWanted-matches f row w =
    let a = is_or_any_lem f.of_domain row.report.domain w.domain_wanted in
    let b = is_or_any_lem f.of_org row.report.org w.org_wanted in
    let c = NotBefore-ends_after f.since row.report.end w.end_wanted in
    let d = NotAfter-begins_before f.until row.report.begin w.begin_wanted in rw (a, b, c, d) refl

matching-IsIn :
    (f : ListFilter) (row : ReportRow) (rows : List ReportRow)
    → matches f row ≡ true
    → IsIn row rows
    → IsIn row (matching f rows)
unfolding matching
matching-IsIn f row [] h i = absurd i
matching-IsIn f row (x ∷ rows) h (inl e) =
    let here : matches f x ≡ true = subst (λ z. matches f z ≡ true) (sym e) h in rw here (inl e)
matching-IsIn f row (x ∷ rows) h (inr i) =
    let rest = matching-IsIn f row rows h i in
    elim (Bool-cases (matches f x)) [ inl c ↦ rw c (inr rest) | inr c ↦ rw c rest ]

matching-length : (f : ListFilter) (rows : List ReportRow) → length (matching f rows) ≤ length rows
unfolding matching
matching-length f [] = omega arith
matching-length f (x ∷ rows) =
    let rest = matching-length f rows in
    elim (Bool-cases (matches f x)) [ inl c ↦ rw c (omega arith) | inr c ↦ rw c (omega arith) ]

insert_row-here : (row : ReportRow) (rows : List ReportRow) → IsIn row (insert_row row rows)
unfolding insert_row
insert_row-here row [] = inl refl
insert_row-here row (x ∷ rows) = elim (Bool-cases (before_row row x)) [
  | inl c ↦ rw c (inl refl)
  | inr c ↦ rw c (inr (insert_row-here row rows))
]

insert_row-IsIn :
    (row x : ReportRow) (rows : List ReportRow) → IsIn row rows → IsIn row (insert_row x rows)
unfolding insert_row
insert_row-IsIn row x [] i = absurd i
insert_row-IsIn row x (y ∷ rows) i = elim (Bool-cases (before_row x y)) [
  | inl c ↦ rw c (inr i)
  | inr c ↦ rw c (elim i [ inl e ↦ inl e | inr j ↦ inr (insert_row-IsIn row x rows j) ])
]

insert_row-length :
    (row : ReportRow) (rows : List ReportRow) → length (insert_row row rows) ≡ length rows + 1
unfolding insert_row
insert_row-length row [] = omega arith
insert_row-length row (x ∷ rows) =
    let rest = insert_row-length row rows in
    elim (Bool-cases (before_row row x)) [ inl c ↦ rw c (omega arith) | inr c ↦ rw c (omega arith) ]

sort_rows-IsIn :
    (row : ReportRow) (rows : List ReportRow) → IsIn row rows → IsIn row (sort_rows rows)
unfolding sort_rows
sort_rows-IsIn row [] i = absurd i
sort_rows-IsIn row (x ∷ rows) (inl e) =
    subst (λ z. IsIn z (insert_row x (sort_rows rows))) e (insert_row-here x (sort_rows rows))
sort_rows-IsIn row (x ∷ rows) (inr i) =
    insert_row-IsIn row x (sort_rows rows) (sort_rows-IsIn row rows i)

sort_rows-length : (rows : List ReportRow) → length (sort_rows rows) ≡ length rows
unfolding sort_rows
sort_rows-length [] = refl
sort_rows-length (x ∷ rows) =
    omega (arith, insert_row-length x (sort_rows rows), sort_rows-length rows)

-- From the first page on, with a limit that is not below the number of reports, a list of reports leaves
-- none out: each report of the table with the domain and the organisation that are asked for, that does
-- not end before `since` and does not begin after `until`, is listed.
pub list_reports-IsIn :
    (f : ListFilter) (t : Tables) (row : ReportRow) {out : List ReportSummary}
    → list_reports f t ≡ some out
    → f.offset ≡ 0
    → length t.reports ≤ f.limit
    → IsIn row t.reports
    → IsWanted f row
    → IsIn row (map (λ s. s.summary_row) out)
unfolding list_reports
list_reports-IsIn f t row {out} h first enough i w =
    let rows = sort_rows (matching f t.reports) in
    let same : map (λ s. s.summary_row) out ≡ page_of f.limit f.offset rows =
      summaries-rows t.records (page_of f.limit f.offset rows) h in
    let short : length rows ≤ f.limit =
      omega (arith, matching-length f t.reports, sort_rows-length (matching f t.reports)) in
    let entire : page_of f.limit f.offset rows ≡ rows =
      ap (λ o. take f.limit (drop o rows)) first ∙ take_all f.limit rows short in
    let found =
      sort_rows-IsIn row (matching f t.reports)
        (matching-IsIn f row t.reports (IsWanted-matches f row w) i) in
    subst (IsIn row) (sym (same ∙ entire)) found
