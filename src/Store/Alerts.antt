-- ===== src/Store/Alerts.antt =====
-- `AlertLastFired` and `MarkAlertFired` of parser/internal/store/store.go: the table `alert_state`,
-- without the detail. Rules are compared by the parameter.
use dmarcparser.Base.{
  if◌then◌else◌, Bool-cases, ℕ, ◌≡◌, inl, inr, Bool, true, Option, none, some, List, [], ◌∷◌, refl,
  ◌∙◌, false,
}

module _ {ℓ} {K : Type ℓ} (same : K → K → Bool) where
  -- `none` stands for the zero time
  unfoldable pub alert_last_fired : K → List (K × ℕ) → Option ℕ
  alert_last_fired r [] = none
  alert_last_fired r ((q, t) ∷ rows) = if same q r then some t else alert_last_fired r rows

  -- one row for each rule
  unfoldable pub mark_alert_fired : K → ℕ → List (K × ℕ) → List (K × ℕ)
  mark_alert_fired r t [] = (r, t) ∷ []
  mark_alert_fired r t ((q, u) ∷ rows) =
      if same q r then (q, t) ∷ rows else (q, u) ∷ mark_alert_fired r t rows

  -- what was marked last is what is read
  pub alert_last_fired-mark :
      (r : K) (t : ℕ) (rows : List (K × ℕ))
      → same r r ≡ true
      → alert_last_fired r (mark_alert_fired r t rows) ≡ some t
  unfolding alert_last_fired mark_alert_fired
  alert_last_fired-mark r t [] e = rw e
  alert_last_fired-mark r t ((q, u) ∷ rows) e = elim (Bool-cases (same q r)) [
    | inl h ↦ rw h (rw h)
    | inr h ↦ rw h (rw h (alert_last_fired-mark r t rows e))
  ]

  -- and what is read for another rule is what it was
  pub alert_last_fired-other :
      (q r : K) (t : ℕ) (rows : List (K × ℕ))
      → same r q ≡ false
      → ((k : K) → same k r ≡ true → same k q ≡ same r q)
      → alert_last_fired q (mark_alert_fired r t rows) ≡ alert_last_fired q rows
  unfolding alert_last_fired mark_alert_fired
  alert_last_fired-other q r t [] e like = rw e refl
  alert_last_fired-other q r t ((k, u) ∷ rows) e like = elim (Bool-cases (same k r)) [
    | inl h ↦ let miss : same k q ≡ false = like k h ∙ e in rw h (rw miss refl)
    | inr h ↦ rw h (elim (Bool-cases (same k q)) [
      | inl g ↦ rw g refl
      | inr g ↦ rw g (alert_last_fired-other q r t rows e like)
    ])
  ]
