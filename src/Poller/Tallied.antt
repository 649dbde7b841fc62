-- ===== src/Poller/Tallied.antt =====
-- What the loops of `processMail` count.
use dmarcparser.Rollup.{counted}
use mathlib.Core.Path.{subst}
use dmarcparser.Base.{
  if◌then◌else◌, any, Result, ok, err, ℕ, ◌+◌, ◌≡◌, refl, ◌⊎◌, inl, inr, Bool, true, false, ◌||◌,
  Option, none, some, List, [], ◌∷◌, arith,
}
use dmarcparser.Mailx.{ForensicParts, Payloads, has_none, MailError}
use dmarcparser.Poller.{
  Outcome, processed, ignored_mail, failed_mail, World, Env, Tally, parse_failed, was_stored,
  original_of, take_aggregate, take_tls, take_forensic, each_doc, and_then, no_tally,
  store_payloads,
}
use dmarcparser.Store.Reports.{Stmt}
use dmarcparser.Store.TlsReports.{TlsStmt}
use dmarcparser.Text.{Bytes}

-- the tally after one document
abbrev pub tally_doc : Bool → Tally → Tally
tally_doc true n = was_stored n
tally_doc false n = parse_failed n

abbrev pub tally_docs {ℓ} : {A : Type ℓ} → (A → Bool) → List A → Tally → Tally
tally_docs good [] n = n
tally_docs good (x ∷ xs) n = tally_docs good xs (tally_doc (good x) n)

abbrev pub succeeds {ℓ κ} : {E : Type ℓ} {A : Type κ} → Result E A → Bool
succeeds (ok a) = true
succeeds (err e) = false

module _ (env : Env) where
  abbrev pub good_report : Bytes → Bool
  good_report x = succeeds (env.parse_report x)

  abbrev pub good_tls : Bytes → Bool
  good_tls x = succeeds (env.parse_tls_report x)

  abbrev pub good_forensic : ForensicParts → Bool
  good_forensic f =
      succeeds (env.parse_failure_report f.feedback (original_of f.original) env.ruf_redact)

  -- What becomes of a mail if every statement succeeds: a mail with a readable document is processed.
  abbrev pub filed_as : Payloads → Outcome
  filed_as pl =
      if has_none pl
      then ignored_mail
      else if any good_report pl.aggregates
          || any good_tls pl.tls_reports
          || any good_forensic pl.forensic
      then processed
      else failed_mail

  abbrev pub expected_of : Result MailError Payloads → Outcome
  expected_of (err e) = failed_mail
  expected_of (ok pl) = filed_as pl

  abbrev pub expected : Bytes → Outcome
  expected raw = expected_of (env.extract raw)

  -- No statement of the mail's saves fails.
  pub record NoFaults : Type 0 where
    pub no_save_fault : (i : ℕ) (s : Stmt) → env.save_fails i s ≡ false
    pub no_tls_fault : (i : ℕ) (s : TlsStmt) → env.tls_fails i s ≡ false
    pub no_forensic_fault : (i : ℕ) → env.forensic_fails i ≡ false

-- Either the round returns early, or the document is counted.
abbrev pub Tallied {ℓ} :
    {A : Type ℓ} → (A → Bool) → (ℕ → A → Tally → World → Option Tally × World) → Type ℓ
Tallied {A = A} good act =
    (i : ℕ) (x : A) (n : Tally) (w : World)
    → ((act i x n w).0 ≡ none) ⊎ ((act i x n w).0 ≡ some (tally_doc (good x) n))

module _ (env : Env) where
  take_aggregate-Tallied : Tallied (good_report env) (take_aggregate env)
  unfolding take_aggregate
  take_aggregate-Tallied i x n w = ground arith

  take_tls-Tallied : Tallied (good_tls env) (take_tls env)
  unfolding take_tls
  take_tls-Tallied i x n w = ground arith

  take_forensic-Tallied : Tallied (good_forensic env) (take_forensic env)
  unfolding take_forensic
  take_forensic-Tallied i x n w = ground arith

each_doc-cons {ℓ} :
    {A : Type ℓ} (act : ℕ → A → Tally → World → Option Tally × World) (i : ℕ) (x : A) (xs : List A)
    (n n' : Tally) (w : World)
    → (act i x n w).0 ≡ some n'
    → each_doc act i (x ∷ xs) n w ≡ each_doc act (i + 1) xs n' (act i x n w).1
unfolding each_doc
each_doc-cons act i x xs n n' w e = rw (e, each_doc)

each_doc-none {ℓ} :
    {A : Type ℓ} (act : ℕ → A → Tally → World → Option Tally × World) (i : ℕ) (x : A) (xs : List A)
    (n : Tally) (w : World)
    → (act i x n w).0 ≡ none
    → (each_doc act i (x ∷ xs) n w).0 ≡ none
unfolding each_doc
each_doc-none act i x xs n w e = rw (e, each_doc)

each_doc-Tallied {ℓ} :
    {A : Type ℓ} (good : A → Bool) (act : ℕ → A → Tally → World → Option Tally × World)
    → Tallied good act
    → (xs : List A) (i : ℕ) (n : Tally) (w : World)
    → ((each_doc act i xs n w).0 ≡ none) ⊎ ((each_doc act i xs n w).0 ≡ some (tally_docs good xs n))
each_doc-Tallied good act t [] i n w = inr (unfold each_doc in refl)
each_doc-Tallied good act t (x ∷ xs) i n w = elim (t i x n w) [
  | inl early ↦ inl (each_doc-none act i x xs n w early)
  | inr counted ↦
      let step = each_doc-cons act i x xs n (tally_doc (good x) n) w counted in
      rw step (each_doc-Tallied good act t xs (i + 1) (tally_doc (good x) n) (act i x n w).1)
]

and_then-cases :
    (p : Option Tally × World) (f : Tally → World → Option Tally × World) (n : Tally)
    (g : Tally → Tally)
    → (p.0 ≡ none) ⊎ (p.0 ≡ some n)
    → ((m : Tally) (w : World) → ((f m w).0 ≡ none) ⊎ ((f m w).0 ≡ some (g m)))
    → ((and_then p f).0 ≡ none) ⊎ ((and_then p f).0 ≡ some (g n))
unfolding and_then
and_then-cases (none, w) f n g c h = inl refl
and_then-cases (some m, w) f n g (inl c) h = absurd (cc)
and_then-cases (some m, w) f n g (inr c) h =
    let same : m ≡ n = cc (c) in
    subst (λ z. ((f m w).0 ≡ none) ⊎ ((f m w).0 ≡ some (g z))) same (h m w)

abbrev pub all_docs : Env → Payloads → Tally
all_docs env pl =
    tally_docs (good_forensic env) pl.forensic (
      tally_docs (good_tls env) pl.tls_reports
        (tally_docs (good_report env) pl.aggregates no_tally))

pub store_payloads-cases :
    (env : Env) (pl : Payloads) (w : World)
    → ((store_payloads env pl w).0 ≡ none) ⊎ ((store_payloads env pl w).0 ≡ some (all_docs env pl))
unfolding store_payloads
store_payloads-cases env pl w =
    and_then-cases _ (each_doc (take_forensic env) 0 pl.forensic) _
      (tally_docs (good_forensic env) pl.forensic)
      (and_then-cases _ (each_doc (take_tls env) 0 pl.tls_reports) _
        (tally_docs (good_tls env) pl.tls_reports)
        (each_doc-Tallied (good_report env) (take_aggregate env) (take_aggregate-Tallied env)
          pl.aggregates 0 no_tally w)
        (λ m v.
          each_doc-Tallied (good_tls env) (take_tls env) (take_tls-Tallied env) pl.tls_reports 0 m
            v))
      (λ m v.
        each_doc-Tallied (good_forensic env) (take_forensic env) (take_forensic-Tallied env)
          pl.forensic 0 m v)
