-- ===== src/Stats/Readiness/Advances.antt =====
-- When the next step of enforcement is recommended.
use dmarcparser.Stats.Domains.{no_class}
use dmarcparser.Base.{
  is_empty, ◌≡◌, Bool, true, false, not, ◌&&◌, ◌||◌, Option, List, Bool-cases, refl, sym, ap, ◌∙◌,
  inl, inr, some, [], ◌∷◌, ◌++◌, none, zero, suc, arith,
}
use dmarcparser.Base.Int.{ℤ, pos, negsuc, lt_int}
use dmarcparser.Rollup.{same_int}
use dmarcparser.Stats.{Reals, all_of}
use dmarcparser.Text.{Bytes, codes, beq}
use dmarcparser.Stats.Readiness.{
  FailSource, Recommendation, monitor, enforce, step_pct, fix_alignment, Blocker, has_class,
  is_heavy, full_pct, next_step, scan_sources, rate_blockers, recommended, recommend,
  unknown_source,
}
use dmarcparser.Stats.Health.{policy_or_none}

abbrev pub advances : Recommendation → Bool
advances monitor = false
advances enforce = true
advances step_pct = true
advances fix_alignment = false

-- nothing is left to enforce
abbrev pub is_enforced : Option Bytes → Option ℤ → Bool
is_enforced p pct = beq (policy_or_none p) (codes "reject") && full_pct pct

-- a source that does not stand in the way: its class is known, or it fails at most 100 messages
abbrev pub is_harmless : FailSource → Bool
is_harmless f = has_class f || not (is_heavy f)

next_step-advances :
    (pol : Bytes) (full : Bool)
    → advances (next_step pol full) ≡ not (beq pol (codes "reject") && full)
unfolding next_step
next_step-advances pol full = elim (Bool-cases (beq pol (codes "reject"))) [
  | inl r ↦ elim (Bool-cases full) [ inl f ↦ rw (r, f) refl | inr f ↦ rw (r, f) refl ]
  | inr r ↦ elim (Bool-cases (beq pol (codes "quarantine") && not full)) [
    | inl q ↦ rw (r, q) refl
    | inr q ↦ rw (r, q) refl
  ]
]

is_empty-append : {A : Type 0} (xs : List A) (x : A) → is_empty (xs ++ x ∷ []) ≡ false
is_empty-append [] x = refl
is_empty-append (y ∷ ys) x = refl

and_false : (a : Bool) → (a && false) ≡ false
and_false true = refl
and_false false = refl

module _ {F : Type 0} (fl : Reals F) where
  -- the gate of `Recommend`
  abbrev pub is_clean : F → ℤ → List FailSource → Bool
  is_clean rate msgs fails =
      not (same_int msgs (pos 0))
      && (not (fl.less rate (fl.literal 995 1000)) && all_of is_harmless fails)

  scan_sources-clean :
      (fails : List FailSource) (known : Bool) (bs : List (Blocker F))
      → is_empty (scan_sources fl fails (known, bs)).1 ≡ (is_empty bs && all_of is_harmless fails)
  unfolding scan_sources all_of
  scan_sources-clean [] known [] = refl
  scan_sources-clean [] known (b ∷ bs) = refl
  scan_sources-clean (f ∷ fs) known bs = elim (Bool-cases (has_class f)) [
    | inl c ↦ rw (scan_sources, c) (scan_sources-clean fs true bs)
    | inr c ↦ elim (Bool-cases (is_heavy f)) [
      | inr h ↦ rw (scan_sources, c, h) (scan_sources-clean fs known bs)
      | inl h ↦
          let rest =
            scan_sources-clean fs known (bs ++ unknown_source f.fail_ip f.fail_msgs ∷ []) in
          rw (scan_sources, c, h)
            (rest
              ∙ ap (λ b. b && all_of is_harmless fs) (is_empty-append bs _)
              ∙ sym (and_false (is_empty bs)))
    ]
  ]

  recommended-advances :
      (p : Option Bytes) (pct : Option ℤ) (s : Bool × List (Blocker F))
      → advances (recommended fl p pct s).0 ≡ (is_empty s.1 && not (is_enforced p pct))
  recommended-advances p pct (known, []) = next_step-advances (policy_or_none p) (full_pct pct)
  recommended-advances p pct (true, b ∷ bs) = refl
  recommended-advances p pct (false, b ∷ bs) = refl

  rate_blockers-clean :
      (rate : F) → is_empty (rate_blockers fl rate) ≡ not (fl.less rate (fl.literal 995 1000))
  rate_blockers-clean rate = elim (Bool-cases (fl.less rate (fl.literal 995 1000))) [
    | inl h ↦ rw h refl
    | inr h ↦ rw h refl
  ]

  recommend-gate :
      (p : Option Bytes) (pct : Option ℤ) (rate : F) (msgs : ℤ) (fails : List FailSource)
      → advances (recommend fl p pct rate msgs fails).0
        ≡ (is_clean rate msgs fails && not (is_enforced p pct))
  unfolding recommend
  recommend-gate p pct rate msgs fails = elim (Bool-cases (same_int msgs (pos 0))) [
    | inl h ↦ rw h refl
    | inr h ↦
        let scan =
          scan_sources-clean fails false (rate_blockers fl rate)
          ∙ ap (λ b. b && all_of is_harmless fails) (rate_blockers-clean rate) in
        rw h (
          recommended-advances p pct (scan_sources fl fails (false, rate_blockers fl rate))
          ∙ ap (λ b. b && not (is_enforced p pct)) scan)
  ]

-- of a class that is not empty, or with at most 100 messages failing
abbrev pub is_classed : Option Bytes → Bool
is_classed none = false
is_classed (some []) = false
is_classed (some (c ∷ cs)) = true

abbrev pub is_tolerated : FailSource → Bool
is_tolerated f = is_classed f.fail_class || not (lt_int (pos 100) f.fail_msgs)

abbrev pub all_tolerated : List FailSource → Bool
all_tolerated [] = true
all_tolerated (f ∷ fs) = is_tolerated f && all_tolerated fs

-- the policy is reject, for all mail
abbrev pub for_all_mail : Option ℤ → Bool
for_all_mail none = true
for_all_mail (some pct) = not (lt_int pct (pos 100))

abbrev pub rejects_all : Option Bytes → Option ℤ → Bool
rejects_all none pct = false
rejects_all (some p) pct = beq p (codes "reject") && for_all_mail pct

abbrev pub has_mail : ℤ → Bool
has_mail (pos zero) = false
has_mail (pos (suc n)) = true
has_mail (negsuc n) = true

has_mail_lem : (msgs : ℤ) → not (same_int msgs (pos 0)) ≡ has_mail msgs
unfolding same_int
has_mail_lem (pos zero) = refl
has_mail_lem (pos (suc n)) = ground arith
has_mail_lem (negsuc n) = refl

is_classed_lem : (o : Option Bytes) → not (no_class o) ≡ is_classed o
is_classed_lem none = refl
is_classed_lem (some []) = refl
is_classed_lem (some (c ∷ cs)) = refl

all_tolerated_lem : (fs : List FailSource) → all_of is_harmless fs ≡ all_tolerated fs
unfolding all_of
all_tolerated_lem [] = refl
all_tolerated_lem (f ∷ fs) =
    rw (is_classed_lem f.fail_class) (ap (λ b. is_tolerated f && b) (all_tolerated_lem fs))

for_all_mail_lem : (pct : Option ℤ) → full_pct pct ≡ for_all_mail pct
for_all_mail_lem none = refl
for_all_mail_lem (some pct) = refl

rejects_all_lem : (p : Option Bytes) (pct : Option ℤ) → is_enforced p pct ≡ rejects_all p pct
unfolding beq
rejects_all_lem none pct = refl
rejects_all_lem (some []) pct = refl
rejects_all_lem (some (c ∷ cs)) pct =
    ap (λ b. beq (c ∷ cs) (codes "reject") && b) (for_all_mail_lem pct)

-- What `Recommend` answers, of the sources that it is given: it advances enforcement, by raising the
-- policy or its share of mail, exactly if there was mail in 90 days, the aligned rate of that time is
-- not below 99.5 %, each of these sources has a class or at most 100 failing messages, and the policy
-- is not yet reject for all mail.
pub recommend-advances :
    {F : Type 0} (fl : Reals F) (p : Option Bytes) (pct : Option ℤ) (rate : F) (msgs : ℤ)
    (fails : List FailSource)
    → advances (recommend fl p pct rate msgs fails).0 ≡ (
        (has_mail msgs && (not (fl.less rate (fl.literal 995 1000)) && all_tolerated fails))
        && not (rejects_all p pct))
recommend-advances fl p pct rate msgs fails =
    rw (← has_mail_lem msgs, ← all_tolerated_lem fails, ← rejects_all_lem p pct)
      (recommend-gate fl p pct rate msgs fails)
