-- ===== src/Digest/Once.antt =====
-- Two runs of the digest within one period.
use dmarcparser.Base.{
  Bool-cases, ℕ, ◌≡◌, refl, ◌∙◌, ◌⊎◌, inl, inr, Bool, true, false, List, [], ◌∷◌, arith,
}
use dmarcparser.Digest.{
  quit, RunSummary, Mailroom, Outing, end_of, start_of, by_domain, is_logged, send_page, visit,
  no_summary, run,
}
use dmarcparser.Digest.Pages.{mails_for, send_page-is_logged, send_page-other, send_page-cases}
use dmarcparser.Digest.Subscriptions.{Subscription}
use dmarcparser.Text.{Bytes, beq, beq_iff}

module _ (x : Outing) (d : Bytes) where
  visit-is_logged :
      (force : Bool) (end : ℕ) (groups : List (Bytes × List Bytes)) (sum : RunSummary)
      (st : Mailroom)
      → is_logged d end st.digest_log ≡ true
      → is_logged d end (visit x force groups (sum, st)).1.1.digest_log ≡ true
  unfolding visit
  visit-is_logged force end [] sum st h = h
  visit-is_logged true end ((domain, emails) ∷ groups) sum st h =
      visit-is_logged true end groups _ _ (send_page-is_logged x d domain end emails _ sum st h)
  visit-is_logged false end ((domain, emails) ∷ groups) sum st h =
      elim (Bool-cases (x.check_fails domain)) [
        | inl c ↦ rw c h
        | inr c ↦ elim (Bool-cases (is_logged domain (end_of x.now) st.digest_log)) [
          | inl s ↦ rw (c, s) (visit-is_logged false end groups _ st h)
          | inr s ↦
              rw (c, s)
                (visit-is_logged false end groups _ _
                  (send_page-is_logged x d domain end emails _ sum st h))
        ]
      ]

  -- an unforced run sends nothing about a domain in the log
  visit-quiet :
      (groups : List (Bytes × List Bytes)) (sum : RunSummary) (st : Mailroom)
      → is_logged d (end_of x.now) st.digest_log ≡ true
      → mails_for d (visit x false groups (sum, st)).1.1.outbox ≡ mails_for d st.outbox
  unfolding visit
  visit-quiet [] sum st h = refl
  visit-quiet ((domain, emails) ∷ groups) sum st h = elim (Bool-cases (x.check_fails domain)) [
    | inl c ↦ rw c refl
    | inr c ↦ elim (Bool-cases (is_logged domain (end_of x.now) st.digest_log)) [
      | inl s ↦ rw (c, s) (visit-quiet groups _ st h)
      | inr s ↦ elim (Bool-cases (beq domain d)) [
        | inl e ↦
            let same : domain ≡ d = ground (arith, beq_iff domain d) in absurd (cc (rw same at s))
        | inr e ↦
            let p = x.pages domain (start_of x.now) (end_of x.now) in
            let r = send_page x domain emails p (sum, st) in
            rw (c, s)
              (visit-quiet groups r.0 r.1
                  (send_page-is_logged x d domain (end_of x.now) emails p sum st h)
                ∙ send_page-other x d domain emails p sum st e)
      ]
    ]
  ]

  -- a page, and then the rest of the run
  visit-then :
      (force : Bool) (groups : List (Bytes × List Bytes)) (sum : RunSummary) (st : Mailroom) (n : ℕ)
      → (mails_for d st.outbox ≡ n) ⊎ (is_logged d (end_of x.now) st.digest_log ≡ true)
      → (mails_for d (visit x force groups (sum, st)).1.1.outbox ≡ mails_for d st.outbox)
        ⊎ (is_logged d (end_of x.now) (visit x force groups (sum, st)).1.1.digest_log ≡ true)
      → (mails_for d (visit x force groups (sum, st)).1.1.outbox ≡ n)
        ⊎ (is_logged d (end_of x.now) (visit x force groups (sum, st)).1.1.digest_log ≡ true)
  visit-then force groups sum st n (inl a) (inl b) = inl (b ∙ a)
  visit-then force groups sum st n (inl a) (inr b) = inr b
  visit-then force groups sum st n (inr a) b =
      inr (visit-is_logged force (end_of x.now) groups sum st a)

  -- a run sends nothing about a domain, or the domain is in the log behind it
  visit-cases :
      (force : Bool) (groups : List (Bytes × List Bytes)) (sum : RunSummary) (st : Mailroom)
      → ((domain to : Bytes)
          → (x.smtp_fails domain to quit ≡ false) × (x.unclosed_accepted domain to ≡ false))
      → ((domain : Bytes) → x.log_fails domain ≡ false)
      → (mails_for d (visit x force groups (sum, st)).1.1.outbox ≡ mails_for d st.outbox)
        ⊎ (is_logged d (end_of x.now) (visit x force groups (sum, st)).1.1.digest_log ≡ true)
  unfolding visit
  visit-cases force [] sum st q l = inl refl
  visit-cases true ((domain, emails) ∷ groups) sum st q l =
      let p = x.pages domain (start_of x.now) (end_of x.now) in
      let (sum', st') = send_page x domain emails p (sum, st) in
      visit-then true groups sum' st' _
        (send_page-cases x d domain emails p sum st (q domain) (l domain))
        (visit-cases true groups sum' st' q l)
  visit-cases false ((domain, emails) ∷ groups) sum st q l =
      elim (Bool-cases (x.check_fails domain)) [
        | inl c ↦ inl (rw c refl)
        | inr c ↦ elim (Bool-cases (is_logged domain (end_of x.now) st.digest_log)) [
          | inl s ↦ rw (visit, c, s) (visit-cases false groups _ st q l)
          | inr s ↦
              let p = x.pages domain (start_of x.now) (end_of x.now) in
              let (sum', st') = send_page x domain emails p (sum, st) in
              rw (visit, c, s)
                (visit-then false groups sum' st' _
                  (send_page-cases x d domain emails p sum st (q domain) (l domain))
                  (visit-cases false groups sum' st' q l))
        ]
      ]

run-quiet :
    (x : Outing) (d : Bytes) (ss : List Subscription) (st : Mailroom)
    → is_logged d (end_of x.now) st.digest_log ≡ true
    → mails_for d (run x false ss st).1.1.outbox ≡ mails_for d st.outbox
unfolding run
run-quiet x d ss st h = elim (Bool-cases x.list_fails) [
  | inl a ↦ rw a refl
  | inr a ↦ rw a (visit-quiet x d (x.map_order (by_domain (x.query_order ss) [])) _ st h)
]

run-cases :
    (x : Outing) (d : Bytes) (force : Bool) (ss : List Subscription) (st : Mailroom)
    → ((domain to : Bytes)
        → (x.smtp_fails domain to quit ≡ false) × (x.unclosed_accepted domain to ≡ false))
    → ((domain : Bytes) → x.log_fails domain ≡ false)
    → (mails_for d (run x force ss st).1.1.outbox ≡ mails_for d st.outbox)
      ⊎ (is_logged d (end_of x.now) (run x force ss st).1.1.digest_log ≡ true)
unfolding run
run-cases x d force ss st q l = elim (Bool-cases x.list_fails) [
  | inl a ↦ inl (rw a refl)
  | inr a ↦
      rw (run, a)
        (visit-cases x d force (x.map_order (by_domain (x.query_order ss) [])) (no_summary x) st q
          l)
]

-- Of two runs in a period, the second one not forced, at most one sends mails about a domain, provided
-- that in the first run the server confirms `QUIT`, has not accepted a mail where closing DATA fails, and
-- the log takes its rows. Whatever else fails in
-- either run, and whoever has subscribed in between.
pub run-run :
    (x y : Outing) (d : Bytes) (force : Bool) (ss ss' : List Subscription) (st : Mailroom)
    → ((domain to : Bytes)
        → (x.smtp_fails domain to quit ≡ false) × (x.unclosed_accepted domain to ≡ false))
    → ((domain : Bytes) → x.log_fails domain ≡ false)
    → end_of x.now ≡ end_of y.now
    → (mails_for d (run x force ss st).1.1.outbox ≡ mails_for d st.outbox)
      ⊎ (mails_for d (run y false ss' (run x force ss st).1.1).1.1.outbox
          ≡ mails_for d (run x force ss st).1.1.outbox)
run-run x y d force ss ss' st q l same = elim (run-cases x d force ss st q l) [
  | inl none_sent ↦ inl none_sent
  | inr in_log ↦ inr (run-quiet y d ss' (run x force ss st).1.1 (rw same at in_log))
]
