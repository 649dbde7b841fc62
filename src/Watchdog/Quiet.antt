-- ===== src/Watchdog/Quiet.antt =====
-- The cooldown between two alerts, and the window of the failed mails.
use dmarcparser.Store.Alerts.{alert_last_fired-mark}
use mathlib.Core.Path.{subst}
use dmarcparser.Store.Alerts.{alert_last_fired-other}
use dmarcparser.Base.{
  ltb, Bool-cases, ℕ, ◌+◌, ◌≤◌, ◌<◌, ◌≡◌, refl, inl, inr, true, false, some, List, [], ◌∷◌, ◌++◌,
  arith, Bool, ◌∙◌, if◌then◌else◌, All, sym, ap,
}
use dmarcparser.Watchdog.{
  Rule, silence, poll_failures, failed_spike, webhook_dead, same_rule, Sample, Dog, Moment,
  cooldown, window, alert_last_fired, mark_alert_fired, cooling, fire, drop_old, Limits, Reading,
  delivered, fire_if, check, sampled, check_first, check_failed, check_webhook, marked,
}

same_rule_refl : (r : Rule) → same_rule r r ≡ true
same_rule_refl silence = refl
same_rule_refl poll_failures = refl
same_rule_refl failed_spike = refl
same_rule_refl webhook_dead = refl

fire-marked :
    (r : Rule) (m : Moment) (d : Dog)
    → m.lookup_fails ≡ false
    → cooling m.clock (alert_last_fired same_rule r d.alert_state) ≡ false
    → m.mark_fails ≡ false
    → fire r m d ≡ (record (delivered r m d) {
      alert_state = mark_alert_fired same_rule r m.db_clock d.alert_state;
    })
unfolding fire
fire-marked r m d a b c = rw (a, b, c)

fire-cooling :
    (r : Rule) (m : Moment) (d : Dog) (t : ℕ)
    → alert_last_fired same_rule r d.alert_state ≡ some t
    → m.clock < t + cooldown
    → fire r m d ≡ d
unfolding fire
fire-cooling r m d t e h = elim (Bool-cases m.lookup_fails) [
  | inl a ↦ rw a
  | inr a ↦ let early : ltb m.clock (t + cooldown) ≡ true = ground arith in rw (a, e, early)
]

same_rule-eq : (q r : Rule) → same_rule q r ≡ true → q ≡ r
same_rule-eq silence silence h = refl
same_rule-eq silence poll_failures h = absurd (cc)
same_rule-eq silence failed_spike h = absurd (cc)
same_rule-eq silence webhook_dead h = absurd (cc)
same_rule-eq poll_failures silence h = absurd (cc)
same_rule-eq poll_failures poll_failures h = refl
same_rule-eq poll_failures failed_spike h = absurd (cc)
same_rule-eq poll_failures webhook_dead h = absurd (cc)
same_rule-eq failed_spike silence h = absurd (cc)
same_rule-eq failed_spike poll_failures h = absurd (cc)
same_rule-eq failed_spike failed_spike h = refl
same_rule-eq failed_spike webhook_dead h = absurd (cc)
same_rule-eq webhook_dead silence h = absurd (cc)
same_rule-eq webhook_dead poll_failures h = absurd (cc)
same_rule-eq webhook_dead failed_spike h = absurd (cc)
same_rule-eq webhook_dead webhook_dead h = refl

-- calls of `fire`, one after the other
abbrev pub fire_all : List (Rule × Moment) → Dog → Dog
fire_all [] d = d
fire_all ((r, m) ∷ steps) d = fire_all steps (fire r m d)

-- the number of alerts of a rule
abbrev pub alerts_of : Rule → List (Rule × ℕ) → ℕ
alerts_of r [] = 0
alerts_of r ((q, t) ∷ alerts) = (if same_rule q r then 1 else 0) + alerts_of r alerts

alerts_of-append :
    (r q : Rule) (t : ℕ) (alerts : List (Rule × ℕ))
    → same_rule q r ≡ false
    → alerts_of r (alerts ++ (q, t) ∷ []) ≡ alerts_of r alerts
alerts_of-append r q t [] h = rw h refl
alerts_of-append r q t ((k, u) ∷ alerts) h =
    ap (λ n. (if same_rule k r then 1 else 0) + n) (alerts_of-append r q t alerts h)

-- the rule was last marked at the time, and has had as many alerts
record Keeps (r : Rule) (t n : ℕ) (d : Dog) : Type 0 where
  on_record : alert_last_fired same_rule r d.alert_state ≡ some t
  as_many : alerts_of r d.alerts ≡ n

mark-Keeps :
    (r q : Rule) (t n : ℕ) (m : Moment) (d : Dog)
    → same_rule q r ≡ false
    → Keeps r t n d
    → Keeps r t n (marked q m (delivered q m d))
mark-Keeps r q t n m d h k = elim (Bool-cases m.mark_fails) [
  | inl a ↦ rw a (record {
    on_record = k.on_record;
    as_many = alerts_of-append r q m.clock d.alerts h ∙ k.as_many;
  })
  | inr a ↦ rw a (record {
    on_record =
        alert_last_fired-other same_rule r q m.db_clock d.alert_state h
          (λ x e. ap (λ z. same_rule z r) (same_rule-eq x q e))
        ∙ k.on_record;
    as_many = alerts_of-append r q m.clock d.alerts h ∙ k.as_many;
  })
]

fire-Keeps :
    (r q : Rule) (t n : ℕ) (m : Moment) (d : Dog)
    → m.clock < t + cooldown
    → Keeps r t n d
    → Keeps r t n (fire q m d)
unfolding fire
fire-Keeps r q t n m d c k = elim (Bool-cases (same_rule q r)) [
  | inl e ↦
      let same : fire q m d ≡ d =
        ap (λ z. fire z m d) (same_rule-eq q r e) ∙ fire-cooling r m d t k.on_record c in
      subst (Keeps r t n) (sym same) k
  | inr e ↦ elim (Bool-cases m.lookup_fails) [
    | inl a ↦ rw a k
    | inr a ↦ elim (Bool-cases (cooling m.clock (alert_last_fired same_rule q d.alert_state))) [
      | inl b ↦ rw (a, b) k
      | inr b ↦ rw (a, b) (mark-Keeps r q t n m d e k)
    ]
  ]
]

fire_all-Keeps :
    (r : Rule) (t n : ℕ) (steps : List (Rule × Moment)) (d : Dog)
    → All (λ s. s.1.clock < t + cooldown) steps
    → Keeps r t n d
    → Keeps r t n (fire_all steps d)
fire_all-Keeps r t n [] d c k = k
fire_all-Keeps r t n ((q, m) ∷ steps) d (c, cs) k =
    fire_all-Keeps r t n steps (fire q m d) cs (fire-Keeps r q t n m d c k)

-- Once an alert is delivered and on record, its rule stays quiet until six hours have passed since
-- the recorded time: whatever calls of `fire` for this and the other rules come before then and
-- whatever they meet, none of them delivers an alert of the rule, and a further call for the rule
-- changes nothing.
pub fire_all-quiet :
    (r : Rule) (m m' : Moment) (steps : List (Rule × Moment)) (d : Dog)
    → m.lookup_fails ≡ false
    → cooling m.clock (alert_last_fired same_rule r d.alert_state) ≡ false
    → m.mark_fails ≡ false
    → All (λ s. s.1.clock < m.db_clock + cooldown) steps
    → m'.clock < m.db_clock + cooldown
    → let e = fire r m d in
      let later = fire_all steps e in
      (alerts_of r later.alerts ≡ alerts_of r e.alerts) × (fire r m' later ≡ later)
fire_all-quiet r m m' steps d a b c hs h =
    let e = fire r m d in
    let marks : alert_last_fired same_rule r e.alert_state ≡ some m.db_clock =
      rw (fire-marked r m d a b c)
        (alert_last_fired-mark same_rule r m.db_clock d.alert_state (same_rule_refl r)) in
    let k =
      fire_all-Keeps r m.db_clock (alerts_of r e.alerts) steps e hs
        (record { on_record = marks; as_many = refl }) in
    (k.as_many, fire-cooling r m' (fire_all steps e) m.db_clock k.on_record h)

fire_if-samples :
    (b : Bool) (r : Rule) (m : Moment) (d : Dog)
    → (fire_if b r m d).failed_samples ≡ d.failed_samples
unfolding fire
fire_if-samples false r m d = refl
fire_if-samples true r m d = ground arith

drop_old-head :
    (now : ℕ) (ss : List Sample) (s : Sample)
    → s.ts ≡ now
    → (first : Sample) × (rest : List Sample) × (drop_old now (ss ++ s ∷ []) ≡ first ∷ rest)
      × (now ≤ first.ts + window)
unfolding drop_old
drop_old-head now [] s h = (s, [], refl, omega arith)
drop_old-head now (x ∷ []) s h = elim (Bool-cases (ltb (x.ts + window) now)) [
  | inl old ↦ (s, [], rw old, omega arith)
  | inr young ↦ (x, s ∷ [], rw young, ground arith)
]
drop_old-head now (x ∷ y ∷ ss) s h = elim (Bool-cases (ltb (x.ts + window) now)) [
  | inl old ↦ let (f, rest, e, k) = drop_old-head now (y ∷ ss) s h in (f, rest, rw old e, k)
  | inr young ↦ (x, y ∷ ss ++ s ∷ [], rw young, ground arith)
]

check_failed-samples :
    (lim : Limits) (x : Reading) (d : Dog)
    → (check_failed lim x d).failed_samples ≡ (sampled lim x d).failed_samples
unfolding check_failed
check_failed-samples lim x d = fire_if-samples _ failed_spike (x.moment failed_spike) _

check_webhook-samples :
    (lim : Limits) (x : Reading) (d : Dog)
    → (check_webhook lim x d).failed_samples ≡ d.failed_samples
unfolding check_webhook
check_webhook-samples lim x d = fire_if-samples _ webhook_dead (x.moment webhook_dead) _

-- Behind every check there is a sample, and the oldest is at most 24 hours old.
check-window :
    (lim : Limits) (x : Reading) (d : Dog)
    → (first : Sample) × (rest : List Sample) × ((check lim x d).failed_samples ≡ first ∷ rest)
      × (x.now ≤ first.ts + window)
unfolding check
check-window lim x d =
    let (first, rest, e, young) =
      drop_old-head x.now (check_first lim x d).failed_samples
        (record { ts = x.now; failed = x.mails_failed }) refl in
    (first, rest, check_webhook-samples lim x _ ∙ (check_failed-samples lim x _ ∙ e), young)
