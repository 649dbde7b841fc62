-- ===== src/Poller/Outcomes.antt =====
-- Where `processMail` files a mail.
use dmarcparser.Poller.Tallied.{all_docs}
use dmarcparser.Base.{
  ltb, ◌==◌, if◌then◌else◌, Bool-cases, length, is_empty, any, Result, ok, err, ℕ, ◌+◌, ◌≡◌, refl,
  ap, ◌∙◌, ◌⊎◌, inl, inr, Bool, true, false, ◌&&◌, ◌||◌, some, List, [], ◌∷◌, arith,
}
use dmarcparser.Mailx.{Payloads, MailError, has_none}
use dmarcparser.Poller.{
  processed, failed_mail, retry_mail, World, Env, Tally, verdict, no_tally, store_payloads,
  process_payloads, process_mail,
}
use dmarcparser.Poller.Tallied.{
  tally_doc, tally_docs, good_report, good_tls, good_forensic, filed_as, expected_of, expected,
  store_payloads-cases,
}
use dmarcparser.Rollup.{counted}
use dmarcparser.Text.{Bytes}

abbrev count {ℓ} : {A : Type ℓ} → (A → Bool) → List A → ℕ
count good [] = 0
count good (x ∷ xs) = (if good x then 1 else 0) + count good xs

tally_doc-stored : (b : Bool) (n : Tally) → (tally_doc b n).stored ≡ n.stored + (if b then 1 else 0)
tally_doc-stored true n = omega arith
tally_doc-stored false n = omega arith

tally_doc-parse_errs :
    (b : Bool) (n : Tally) → (tally_doc b n).parse_errs + (if b then 1 else 0) ≡ n.parse_errs + 1
tally_doc-parse_errs true n = omega arith
tally_doc-parse_errs false n = omega arith

tally_docs-stored {ℓ} :
    {A : Type ℓ} (good : A → Bool) (xs : List A) (n : Tally)
    → (tally_docs good xs n).stored ≡ n.stored + count good xs
tally_docs-stored good [] n = omega arith
tally_docs-stored good (x ∷ xs) n =
    omega (arith, tally_docs-stored good xs (tally_doc (good x) n), tally_doc-stored (good x) n)

tally_docs-parse_errs {ℓ} :
    {A : Type ℓ} (good : A → Bool) (xs : List A) (n : Tally)
    → (tally_docs good xs n).parse_errs + count good xs ≡ n.parse_errs + length xs
tally_docs-parse_errs good [] n = omega arith
tally_docs-parse_errs good (x ∷ xs) n =
    omega
      (arith, tally_docs-parse_errs good xs (tally_doc (good x) n), tally_doc-parse_errs (good x) n)

any-count {ℓ} : {A : Type ℓ} (good : A → Bool) (xs : List A) → any good xs ≡ ltb 0 (count good xs)
any-count good [] = refl
any-count good (x ∷ xs) = elim (Bool-cases (good x)) [
  | inl h ↦ rw h (ground arith)
  | inr h ↦ rw h (any-count good xs ∙ ground arith)
]

is_empty-length {ℓ} : {A : Type ℓ} (xs : List A) → is_empty xs ≡ (length xs == 0)
is_empty-length [] = refl
is_empty-length (x ∷ xs) = ground arith

verdict_of_counts :
    (a b c la lb lc s e : ℕ)
    → (la == 0 && (lb == 0 && lc == 0)) ≡ false
    → s ≡ a + b + c
    → e + (a + b + c) ≡ la + lb + lc
    → (if s == 0 && ltb 0 e then failed_mail else processed)
      ≡ (if ltb 0 a || ltb 0 b || ltb 0 c then processed else failed_mail)
verdict_of_counts a b c la lb lc s e h hs he = ground arith

has_none-length :
    (pl : Payloads)
    → has_none pl ≡ false
    → (length pl.aggregates == 0 && (length pl.tls_reports == 0 && length pl.forensic == 0)) ≡ false
unfolding has_none
has_none-length pl h =
    rw
      (
        ← is_empty-length pl.aggregates,
        ← is_empty-length pl.tls_reports,
        ← is_empty-length pl.forensic,
      )
      h

module _ (env : Env) (pl : Payloads) where
  abbrev tally_reports : Tally
  tally_reports = tally_docs (good_report env) pl.aggregates no_tally

  abbrev tally_tls : Tally
  tally_tls = tally_docs (good_tls env) pl.tls_reports tally_reports

  all_docs-stored :
      (all_docs env pl).stored
      ≡ count (good_report env) pl.aggregates
        + count (good_tls env) pl.tls_reports
        + count (good_forensic env) pl.forensic
  all_docs-stored = omega (
    arith,
    tally_docs-stored (good_report env) pl.aggregates no_tally,
    tally_docs-stored (good_tls env) pl.tls_reports tally_reports,
    tally_docs-stored (good_forensic env) pl.forensic tally_tls,
  )

  all_docs-parse_errs :
      (all_docs env pl).parse_errs
        + (count (good_report env) pl.aggregates
            + count (good_tls env) pl.tls_reports
            + count (good_forensic env) pl.forensic)
      ≡ length pl.aggregates + length pl.tls_reports + length pl.forensic
  all_docs-parse_errs = omega (
    arith,
    tally_docs-parse_errs (good_report env) pl.aggregates no_tally,
    tally_docs-parse_errs (good_tls env) pl.tls_reports tally_reports,
    tally_docs-parse_errs (good_forensic env) pl.forensic tally_tls,
  )

  verdict-all_docs : has_none pl ≡ false → verdict (some (all_docs env pl)) ≡ filed_as env pl
  verdict-all_docs h =
      rw
        (
          h,
          any-count (good_report env) pl.aggregates,
          any-count (good_tls env) pl.tls_reports,
          any-count (good_forensic env) pl.forensic,
        )
        (verdict_of_counts (count (good_report env) pl.aggregates)
          (count (good_tls env) pl.tls_reports) (count (good_forensic env) pl.forensic)
          (length pl.aggregates) (length pl.tls_reports) (length pl.forensic)
          (all_docs env pl).stored (all_docs env pl).parse_errs (has_none-length pl h)
          all_docs-stored all_docs-parse_errs)

extracted-cases :
    (env : Env) (pl : Payloads) (w : World)
    → has_none pl ≡ false
    → (verdict (store_payloads env pl w).0 ≡ retry_mail)
      ⊎ (verdict (store_payloads env pl w).0 ≡ filed_as env pl)
extracted-cases env pl w h = elim (store_payloads-cases env pl w) [
  | inl early ↦ inl (ap verdict early)
  | inr counted ↦ inr (ap verdict counted ∙ verdict-all_docs env pl h)
]

process_payloads-cases :
    (env : Env) (p : Result MailError Payloads) (w : World)
    → ((process_payloads env p w).0 ≡ retry_mail)
      ⊎ ((process_payloads env p w).0 ≡ expected_of env p)
unfolding process_payloads
process_payloads-cases env (err e) w = inr refl
process_payloads-cases env (ok pl) w = elim (Bool-cases (has_none pl)) [
  | inl h ↦ inr (rw h)
  | inr h ↦ elim (extracted-cases env pl w h) [
    | inl early ↦ inl (rw h early)
    | inr v ↦ inr (rw h (v ∙ rw h))
  ]
]

-- A mail is left for the next cycle, or filed by what it holds alone: failed if its payloads cannot
-- be extracted, ignored if it has none, processed if some document of it parses, failed if none does.
pub process_mail_outcome :
    (env : Env) (raw : Bytes) (w : World)
    → ((process_mail env raw w).0 ≡ retry_mail) ⊎ ((process_mail env raw w).0 ≡ expected env raw)
unfolding process_mail
process_mail_outcome env raw w = process_payloads-cases env (env.extract raw) w
