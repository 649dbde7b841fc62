-- ===== src/Retention/Purged.antt =====
-- The loop of `purgeRawXML` ends, and clears what is due.
use dmarcparser.Base.{
  Bool-cases, ℕ, zero, suc, ◌+◌, ◌≤◌, ◌<◌, ◌≡◌, refl, inl, inr, List, [], ◌∷◌, arith, ltb,
  if◌then◌else◌, sym, ap, ◌∙◌, true, false, Option, none, some, map, ◌≢◌, ◌⊎◌,
}
use dmarcparser.Retention.{
  is_due, purge, due_count, purge_batch, cleared, Round, exec_fails, cancelled, goes_on,
  statement_failed, context_done, Ended, end_round, purge_loop, purge_raw_xml,
}
use dmarcparser.Store.Reports.{ReportRow}

-- One statement clears rows that are due, at most as many as it may, and leaves none if it stops
-- short of that.
purge-due_count :
    (cutoff room : ℕ) (rows : List ReportRow)
    → (due_count cutoff (purge cutoff room rows).0 + (purge cutoff room rows).1
        ≡ due_count cutoff rows)
      × ((purge cutoff room rows).1 ≤ room)
      × ((purge cutoff room rows).1 < room → due_count cutoff (purge cutoff room rows).0 ≡ 0)
unfolding purge due_count
purge-due_count cutoff zero [] = (omega arith, omega arith, λ h. refl)
purge-due_count cutoff (suc room) [] = (omega arith, omega arith, λ h. refl)
purge-due_count cutoff zero (row ∷ rows) = (omega arith, omega arith, λ h. omega arith)
purge-due_count cutoff (suc room) (row ∷ rows) = elim (Bool-cases (is_due cutoff row)) [
  | inl h ↦
      let (a, b, c) = purge-due_count cutoff room rows in
      rw h (omega arith, omega arith, λ k. c (omega arith))
  | inr h ↦
      let (a, b, c) = purge-due_count cutoff (suc room) rows in rw h (rw h a, b, λ k. rw h (c k))
]

-- a row as a complete purge leaves it
abbrev pub swept : ℕ → ReportRow → ReportRow
swept cutoff row = if is_due cutoff row then cleared row else row

purge-swept :
    (cutoff room : ℕ) (rows : List ReportRow)
    → map (swept cutoff) (purge cutoff room rows).0 ≡ map (swept cutoff) rows
unfolding purge
purge-swept cutoff zero [] = refl
purge-swept cutoff (suc room) [] = refl
purge-swept cutoff zero (row ∷ rows) = refl
purge-swept cutoff (suc room) (row ∷ rows) = elim (Bool-cases (is_due cutoff row)) [
  | inl h ↦ rw h (ap (◌∷◌ (cleared row)) (purge-swept cutoff room rows))
  | inr h ↦ rw h (rw h (ap (◌∷◌ row) (purge-swept cutoff (suc room) rows)))
]

swept-none_due :
    (cutoff : ℕ) (rows : List ReportRow)
    → due_count cutoff rows ≡ 0
    → map (swept cutoff) rows ≡ rows
unfolding due_count
swept-none_due cutoff [] h = refl
swept-none_due cutoff (row ∷ rows) h = elim (Bool-cases (is_due cutoff row)) [
  | inl due ↦ absurd (omega (arith, rw due at h))
  | inr not_due ↦ rw not_due (ap (◌∷◌ row) (swept-none_due cutoff rows (rw not_due at h)))
]

-- The loop has ended: the total is the number of rows it cleared, only rows that were due have
-- changed, and if it ended without an error it has cleared all of them.
pub record Settled (cutoff total : ℕ) (rows : List ReportRow) (e : Ended) : Type 0 where
  pub counted : e.0 + due_count cutoff e.2 ≡ total + due_count cutoff rows
  pub only_due : map (swept cutoff) e.2 ≡ map (swept cutoff) rows
  pub complete : (e.1 ≢ none) ⊎ (e.2 ≡ map (swept cutoff) rows)

-- the state behind one UPDATE that cleared less than a full batch
last_round-Settled :
    (cutoff total : ℕ) (rows : List ReportRow)
    → ltb (purge cutoff purge_batch rows).1 purge_batch ≡ true
    → Settled cutoff total rows
        (total + (purge cutoff purge_batch rows).1, none, (purge cutoff purge_batch rows).0)
last_round-Settled cutoff total rows short =
    let (a, b, c) = purge-due_count cutoff purge_batch rows in
    let left = c (ground arith) in
    record {
      counted = omega arith;
      only_due = purge-swept cutoff purge_batch rows;
      complete = inr (sym (swept-none_due cutoff _ left) ∙ purge-swept cutoff purge_batch rows);
    }

full_round-Settled :
    (cutoff total : ℕ) (rows : List ReportRow)
    → Settled cutoff total rows (
      total + (purge cutoff purge_batch rows).1,
      some context_done,
      (purge cutoff purge_batch rows).0,
    )
full_round-Settled cutoff total rows =
    let (a, b, c) = purge-due_count cutoff purge_batch rows in
    record {
      counted = omega arith;
      only_due = purge-swept cutoff purge_batch rows;
      complete = inl (cc);
    }

later_round-Settled :
    (cutoff total : ℕ) (rows : List ReportRow) (e : Ended)
    → Settled cutoff (total + (purge cutoff purge_batch rows).1) (purge cutoff purge_batch rows).0 e
    → Settled cutoff total rows e
later_round-Settled cutoff total rows e s =
    let (a, b, c) = purge-due_count cutoff purge_batch rows in
    let same = purge-swept cutoff purge_batch rows in
    record {
      counted = omega (arith, s.counted);
      only_due = s.only_due ∙ same;
      complete = elim s.complete [ inl failed ↦ inl failed | inr all ↦ inr (all ∙ same) ];
    }

end_round-Settled :
    (r : Round) (cutoff total : ℕ) (rows : List ReportRow) (rest : Option Ended)
    → (ltb (purge cutoff purge_batch rows).1 purge_batch ≡ false
        → (e : Ended) × (rest ≡ some e) × Settled cutoff total rows e)
    → (e : Ended) × (end_round r total rows (purge cutoff purge_batch rows) rest ≡ some e)
      × Settled cutoff total rows e
unfolding end_round
end_round-Settled exec_fails cutoff total rows rest h = (
  (total, some statement_failed, rows),
  refl,
  record { counted = refl; only_due = refl; complete = inl (cc) },
)
end_round-Settled cancelled cutoff total rows rest h =
    elim (Bool-cases (ltb (purge cutoff purge_batch rows).1 purge_batch)) [
      | inl short ↦ (_, rw short, last_round-Settled cutoff total rows short)
      | inr full ↦ (_, rw full, full_round-Settled cutoff total rows)
    ]
end_round-Settled goes_on cutoff total rows rest h =
    elim (Bool-cases (ltb (purge cutoff purge_batch rows).1 purge_batch)) [
      | inl short ↦ (_, rw short, last_round-Settled cutoff total rows short)
      | inr full ↦ let (e, r, s) = h full in (e, rw full r, s)
    ]

purge_loop-Settled :
    (f cutoff : ℕ) (answer : ℕ → Round) (n total : ℕ) (rows : List ReportRow)
    → due_count cutoff rows < f
    → (e : Ended) × (purge_loop f cutoff answer n total rows ≡ some e) × Settled cutoff total rows e
unfolding purge_loop
purge_loop-Settled zero cutoff answer n total rows h = absurd (omega arith)
purge_loop-Settled (suc f) cutoff answer n total rows h =
    let (a, b, c) = purge-due_count cutoff purge_batch rows in
    let p = purge cutoff purge_batch rows in
    end_round-Settled (answer n) cutoff total rows _ (λ full.
      let (e, r, s) = purge_loop-Settled f cutoff answer (n + 1) (total + p.1) p.0 (ground arith) in
      (e, r, later_round-Settled cutoff total rows e s))

-- Whatever fails and whenever the context is done, the loop of `purgeRawXML` ends, its total is the
-- number of documents it cleared, and only documents older than the cutoff are cleared; if it ends
-- without an error it has cleared all of those.
pub purge_raw_xml-Settled :
    (cutoff : ℕ) (answer : ℕ → Round) (rows : List ReportRow)
    → (e : Ended) × (purge_raw_xml cutoff answer rows ≡ some e) × Settled cutoff 0 rows e
unfolding purge_raw_xml
purge_raw_xml-Settled cutoff answer rows =
    purge_loop-Settled (due_count cutoff rows + 1) cutoff answer 0 0 rows (omega arith)
