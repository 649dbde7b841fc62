-- ===== src/Digest/Pages.antt =====
-- The mails of one page, and its row in the log.
use dmarcparser.Base.{
  ◌==◌, if◌then◌else◌, Bool-cases, ℕ, ◌+◌, ◌≡◌, refl, ◌∙◌, inl, inr, Bool, true, false, ◌&&◌,
  Option, none, some, List, [], ◌∷◌, ◌++◌, arith, Option-cases, ◌≤◌, ◌<◌, ◌⊎◌, ap,
}
use dmarcparser.Digest.{
  SmtpStep, RunSummary, SentMail, LogRow, Mailroom, Outing, send_digest, is_logged, quit,
  first_failure, before_quit, after_send, mail_all, Rendered, no_data, no_page, page, end_of,
  log_sent, send_page, is_close,
}
use dmarcparser.Text.{Bytes, beq}

-- the mails about a domain
abbrev pub mails_for : Bytes → List SentMail → ℕ
mails_for d [] = 0
mails_for d (m ∷ ms) = (if beq m.about d then 1 else 0) + mails_for d ms

mails_for-append :
    (d : Bytes) (ms ns : List SentMail) → mails_for d (ms ++ ns) ≡ mails_for d ms + mails_for d ns
mails_for-append d [] ns = omega arith
mails_for-append d (m ∷ ms) ns = let rest = mails_for-append d ms ns in omega arith

is_logged-append :
    (d : Bytes) (end : ℕ) (rows more : List LogRow)
    → is_logged d end rows ≡ true
    → is_logged d end (rows ++ more) ≡ true
unfolding is_logged
is_logged-append d end [] more h = absurd (cc)
is_logged-append d end (row ∷ rows) more h =
    elim (Bool-cases (beq row.log_domain d && row.period_end == end)) [
      | inl a ↦ rw a refl
      | inr a ↦ rw a (is_logged-append d end rows more (rw a at h))
    ]

is_logged-last :
    (d : Bytes) (end : ℕ) (rows : List LogRow) (row : LogRow)
    → (beq row.log_domain d && row.period_end == end) ≡ true
    → is_logged d end (rows ++ row ∷ []) ≡ true
unfolding is_logged
is_logged-last d end [] row h = rw h refl
is_logged-last d end (x ∷ rows) row h =
    elim (Bool-cases (beq x.log_domain d && x.period_end == end)) [
      | inl a ↦ rw a refl
      | inr a ↦ rw a (is_logged-last d end rows row h)
    ]

module _ (x : Outing) (d : Bytes) where
  after_send-digest_log :
      (domain to body : Bytes) (o : Option SmtpStep × Bool) (n : ℕ) (sum : RunSummary)
      (st : Mailroom)
      → (after_send x domain to body o (n, (sum, st))).1.1.digest_log ≡ st.digest_log
  after_send-digest_log domain to body (none, true) n sum st = refl
  after_send-digest_log domain to body (none, false) n sum st = refl
  after_send-digest_log domain to body (some s, true) n sum st = refl
  after_send-digest_log domain to body (some s, false) n sum st = refl

  mail_all-digest_log :
      (domain body : Bytes) (tos : List Bytes) (n : ℕ) (sum : RunSummary) (st : Mailroom)
      → (mail_all x domain body tos (n, (sum, st))).1.1.digest_log ≡ st.digest_log
  unfolding mail_all
  mail_all-digest_log domain body [] n sum st = refl
  mail_all-digest_log domain body (to ∷ tos) n sum st =
      mail_all-digest_log domain body tos _ _ _
      ∙ after_send-digest_log domain to body
          (send_digest (x.unclosed_accepted domain to) (x.smtp_fails domain to)) n sum st

  -- a mail about another domain does not count
  after_send-other :
      (domain to body : Bytes) (o : Option SmtpStep × Bool) (n : ℕ) (sum : RunSummary)
      (st : Mailroom)
      → beq domain d ≡ false
      → mails_for d (after_send x domain to body o (n, (sum, st))).1.1.outbox
        ≡ mails_for d st.outbox
  after_send-other domain to body (none, true) n sum st h =
      rw (mails_for-append d st.outbox, h) (omega arith)
  after_send-other domain to body (none, false) n sum st h = refl
  after_send-other domain to body (some s, true) n sum st h =
      rw (mails_for-append d st.outbox, h) (omega arith)
  after_send-other domain to body (some s, false) n sum st h = refl

  mail_all-other :
      (domain body : Bytes) (tos : List Bytes) (n : ℕ) (sum : RunSummary) (st : Mailroom)
      → beq domain d ≡ false
      → mails_for d (mail_all x domain body tos (n, (sum, st))).1.1.outbox ≡ mails_for d st.outbox
  unfolding mail_all
  mail_all-other domain body [] n sum st h = refl
  mail_all-other domain body (to ∷ tos) n sum st h =
      mail_all-other domain body tos _ _ _ h
      ∙ after_send-other domain to body
          (send_digest (x.unclosed_accepted domain to) (x.smtp_fails domain to)) n sum st h

  not_accepted : (s : SmtpStep) → (is_close s && false) ≡ false
  not_accepted s = elim (is_close s) as (λ b. (b && false) ≡ false) [ true ↦ refl | false ↦ refl ]

  -- where `Quit` works and no mail is accepted without an answer, a mail that goes out is counted
  send_digest-cases :
      (accepted : Bool) (fails : SmtpStep → Bool)
      → (fails quit ≡ false) × (accepted ≡ false)
      → (send_digest accepted fails ≡ (none, true))
        ⊎ ((s : SmtpStep) × (send_digest accepted fails ≡ (some s, false)))
  unfolding send_digest
  send_digest-cases accepted fails (q, a) = elim (Option-cases (first_failure fails before_quit)) [
    | inl e ↦ inl (rw (e, q) refl)
    | inr (s, e) ↦ inr (s, rw (e, a) (ap (λ b. (some s, b)) (not_accepted s)))
  ]

  after_send-le :
      (domain to body : Bytes) (o : Option SmtpStep × Bool) (r : ℕ × (RunSummary × Mailroom))
      → r.0 ≤ (after_send x domain to body o r).0
  after_send-le domain to body (none, true) (n, (sum, st)) = omega arith
  after_send-le domain to body (none, false) (n, (sum, st)) = omega arith
  after_send-le domain to body (some s, true) (n, (sum, st)) = omega arith
  after_send-le domain to body (some s, false) (n, (sum, st)) = omega arith

  mail_all-le :
      (domain body : Bytes) (tos : List Bytes) (r : ℕ × (RunSummary × Mailroom))
      → r.0 ≤ (mail_all x domain body tos r).0
  unfolding mail_all
  mail_all-le domain body [] r = omega arith
  mail_all-le domain body (to ∷ tos) r =
      let r' =
        after_send x domain to body
          (send_digest (x.unclosed_accepted domain to) (x.smtp_fails domain to)) r in
      let one : r.0 ≤ r'.0 =
        after_send-le domain to body
          (send_digest (x.unclosed_accepted domain to) (x.smtp_fails domain to)) r in
      let rest : r'.0 ≤ (mail_all x domain body (to ∷ tos) r).0 = mail_all-le domain body tos r' in
      omega arith

  -- nothing was sent, or the count has grown
  mail_all-cases :
      (domain body : Bytes) (tos : List Bytes) (n : ℕ) (sum : RunSummary) (st : Mailroom)
      → ((to : Bytes)
          → (x.smtp_fails domain to quit ≡ false) × (x.unclosed_accepted domain to ≡ false))
      → ((mail_all x domain body tos (n, (sum, st))).1.1.outbox ≡ st.outbox)
        ⊎ (n < (mail_all x domain body tos (n, (sum, st))).0)
  unfolding mail_all
  mail_all-cases domain body [] n sum st q = inl refl
  mail_all-cases domain body (to ∷ tos) n sum st q =
      elim (send_digest-cases (x.unclosed_accepted domain to) (x.smtp_fails domain to) (q to)) [
        | inl e ↦
            let r' = after_send x domain to body (none, true) (n, (sum, st)) in
            let le : n + 1 ≤ (mail_all x domain body tos r').0 = mail_all-le domain body tos r' in
            let more : n < (mail_all x domain body tos r').0 = omega arith in
            inr (rw (mail_all, e) more)
        | inr (s, e) ↦ rw (mail_all, e) (mail_all-cases domain body tos n _ st q)
      ]

  log_sent-outbox :
      (domain : Bytes) (n : ℕ) (sum : RunSummary) (st : Mailroom)
      → (log_sent x domain (n, (sum, st))).1.outbox ≡ st.outbox
  unfolding log_sent
  log_sent-outbox domain n sum st = ground arith

  -- the log only grows
  log_sent-is_logged :
      (domain : Bytes) (end n : ℕ) (sum : RunSummary) (st : Mailroom)
      → is_logged d end st.digest_log ≡ true
      → is_logged d end (log_sent x domain (n, (sum, st))).1.digest_log ≡ true
  unfolding log_sent
  log_sent-is_logged domain end n sum st h = elim (Bool-cases (n == 0)) [
    | inl a ↦ rw a h
    | inr a ↦ elim (Bool-cases (x.log_fails domain)) [
      | inl b ↦ rw (a, b) h
      | inr b ↦ rw (a, b) (is_logged-append d end st.digest_log _ h)
    ]
  ]

  log_sent-logs :
      (domain : Bytes) (n : ℕ) (sum : RunSummary) (st : Mailroom)
      → 0 < n
      → beq domain d ≡ true
      → x.log_fails domain ≡ false
      → is_logged d (end_of x.now) (log_sent x domain (n, (sum, st))).1.digest_log ≡ true
  unfolding log_sent
  log_sent-logs domain n sum st h e l =
      let some_sent : (n == 0) ≡ false = ground arith in
      let today : (end_of x.now == end_of x.now) ≡ true = ground arith in
      rw (some_sent, l) (is_logged-last d (end_of x.now) st.digest_log _ (rw (e, today) refl))

  pub send_page-is_logged :
      (domain : Bytes) (end : ℕ) (tos : List Bytes) (p : Rendered) (sum : RunSummary)
      (st : Mailroom)
      → is_logged d end st.digest_log ≡ true
      → is_logged d end (send_page x domain tos p (sum, st)).1.digest_log ≡ true
  unfolding send_page
  send_page-is_logged domain end tos no_data sum st h = h
  send_page-is_logged domain end tos no_page sum st h = h
  send_page-is_logged domain end tos (page body) sum st h =
      let r = mail_all x domain body tos (0, (sum, st)) in
      log_sent-is_logged domain end r.0 r.1.0 r.1.1
        (rw (mail_all-digest_log domain body tos 0 sum st) h)

  -- a page for another domain
  pub send_page-other :
      (domain : Bytes) (tos : List Bytes) (p : Rendered) (sum : RunSummary) (st : Mailroom)
      → beq domain d ≡ false
      → mails_for d (send_page x domain tos p (sum, st)).1.outbox ≡ mails_for d st.outbox
  unfolding send_page
  send_page-other domain tos no_data sum st h = refl
  send_page-other domain tos no_page sum st h = refl
  send_page-other domain tos (page body) sum st h =
      ap (mails_for d) (log_sent-outbox domain _ _ _) ∙ mail_all-other domain body tos 0 sum st h

  -- a page that was sent is in the log
  pub send_page-cases :
      (domain : Bytes) (tos : List Bytes) (p : Rendered) (sum : RunSummary) (st : Mailroom)
      → ((to : Bytes)
          → (x.smtp_fails domain to quit ≡ false) × (x.unclosed_accepted domain to ≡ false))
      → x.log_fails domain ≡ false
      → (mails_for d (send_page x domain tos p (sum, st)).1.outbox ≡ mails_for d st.outbox)
        ⊎ (is_logged d (end_of x.now) (send_page x domain tos p (sum, st)).1.digest_log ≡ true)
  unfolding send_page
  send_page-cases domain tos no_data sum st q l = inl refl
  send_page-cases domain tos no_page sum st q l = inl refl
  send_page-cases domain tos (page body) sum st q l = elim (Bool-cases (beq domain d)) [
    | inl e ↦ elim (mail_all-cases domain body tos 0 sum st q) [
      | inl same ↦ inl (ap (mails_for d) (log_sent-outbox domain _ _ _ ∙ same))
      | inr more ↦ inr (log_sent-logs domain _ _ _ more e l)
    ]
    | inr e ↦ inl (send_page-other domain tos (page body) sum st e)
  ]
