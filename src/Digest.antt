-- ===== src/Digest.antt =====
-- parser/internal/digest/digest.go: the weekly digests. Times are Unix seconds. What `gather` reads
-- with SQL and `render` prints as HTML is one parameter, and the mail server answers by another.
pub mod Subscriptions
pub mod Pages
pub mod Once
use dmarcparser.Webhook.{accepted}
use dmarcparser.Base.{
  ltb, ◌==◌, if◌then◌else◌, any, ℕ, ◌+◌, ◌-◌, ◌*◌, ◌/◌, ◌%◌, Bool, true, false, not, ◌&&◌, Option,
  none, some, List, [], ◌∷◌, ◌++◌,
}
use dmarcparser.Text.{Bytes, codes, beq}
use dmarcparser.Digest.Subscriptions.{Subscription}

-- the steps of `send`
pub data SmtpStep : Type 0 where
  split_host dial start_tls auth_plain mail_from rcpt_to data_open write_body data_close quit :
      SmtpStep

pub data DigestError : Type 0 where
  data_failed render_failed : Bytes → DigestError
  send_failed : Bytes → Bytes → SmtpStep → DigestError

-- `RunSummary`
pub record RunSummary : Type 0 where
  pub domains_sent : ℕ
  pub domains_skipped : ℕ
  pub emails_sent : ℕ
  pub errors : List DigestError

-- a mail that the server has accepted, with the domain that it is about
pub record SentMail : Type 0 where
  pub about : Bytes
  pub recipient : Bytes
  pub subject : Bytes
  pub html : Bytes

pub record LogRow : Type 0 where
  pub log_domain : Bytes
  pub period_start : ℕ
  pub period_end : ℕ

pub record Mailroom : Type 0 where
  pub digest_log : List LogRow
  pub outbox : List SentMail

pub data Rendered : Type 0 where
  no_data no_page : Rendered
  page : Bytes → Rendered

-- What one run meets: the order in which the rows come and in which Go walks the map, the pages, the
-- steps of `send` that fail for a recipient of a domain, and the statements that fail.
pub record Outing : Type 0 where
  pub now : ℕ
  pub list_fails : Bool
  pub query_order : List Subscription → List Subscription
  pub map_order : List (Bytes × List Bytes) → List (Bytes × List Bytes)
  pub pages : Bytes → ℕ → ℕ → Rendered
  pub smtp_fails : Bytes → Bytes → SmtpStep → Bool
  -- where closing DATA fails: has the server accepted the mail all the same?
  pub unclosed_accepted : Bytes → Bytes → Bool
  pub check_fails : Bytes → Bool
  pub log_fails : Bytes → Bool

abbrev pub day_seconds : ℕ
day_seconds = 24 * 3600

-- `Truncate(24 * time.Hour)`, and seven days before it; the clock is past the first week of 1970
abbrev pub end_of : ℕ → ℕ
end_of t = t / day_seconds * day_seconds

abbrev pub start_of : ℕ → ℕ
start_of t = end_of t - 7 * day_seconds

-- the first step that fails
unfoldable pub first_failure : (SmtpStep → Bool) → List SmtpStep → Option SmtpStep
first_failure fails [] = none
first_failure fails (s ∷ ss) = let rest = first_failure fails ss in if fails s then some s else rest

abbrev pub before_quit : List SmtpStep
before_quit =
    split_host ∷ dial ∷ start_tls ∷ auth_plain ∷ mail_from ∷ rcpt_to ∷ data_open ∷ write_body
    ∷ data_close ∷ []

abbrev pub is_close : SmtpStep → Bool
is_close data_close = true
is_close _ = false

-- `send`: the step that fails, and whether the mail went out; an error on closing DATA may come behind
-- the server's acceptance
abbrev pub sent_at : Bool → (SmtpStep → Bool) → Option SmtpStep → Option SmtpStep × Bool
sent_at accepted fails (some s) = (some s, is_close s && accepted)
sent_at accepted fails none = (if fails quit then some quit else none, true)

unfoldable pub send_digest : Bool → (SmtpStep → Bool) → Option SmtpStep × Bool
unfolding first_failure
send_digest accepted fails = sent_at accepted fails (first_failure fails before_quit)

-- "DMARC weekly digest — "
abbrev pub subject_of : Bytes → Bytes
subject_of domain = codes "DMARC weekly digest " ++ 226 ∷ 128 ∷ 148 ∷ codes " " ++ domain

-- `subscriptionsByDomain`: the emails of each domain, in the order of the rows
unfoldable pub add_email : Bytes → Bytes → List (Bytes × List Bytes) → List (Bytes × List Bytes)
add_email domain email [] = (domain, email ∷ []) ∷ []
add_email domain email ((d, es) ∷ groups) =
    let rest = add_email domain email groups in
    if beq d domain then (d, es ++ email ∷ []) ∷ groups else (d, es) ∷ rest

unfoldable pub by_domain : List Subscription → List (Bytes × List Bytes) → List (Bytes × List Bytes)
unfolding add_email
by_domain [] groups = groups
by_domain (s ∷ ss) groups = by_domain ss (add_email s.sub_domain s.email groups)

-- `alreadySent`
unfoldable pub is_logged : Bytes → ℕ → List LogRow → Bool
is_logged domain end rows = any (λ row. beq row.log_domain domain && row.period_end == end) rows

abbrev pub add_error : DigestError → RunSummary → RunSummary
add_error e s = record s { errors = s.errors ++ e ∷ [] }

module _ (x : Outing) where
  -- the loop over the recipients: the number sent, the errors and the outbox
  abbrev pub after_send :
      Bytes
      → Bytes
      → Bytes
      → Option SmtpStep × Bool
      → ℕ × (RunSummary × Mailroom)
      → ℕ × (RunSummary × Mailroom)
  after_send domain to body (failure, went_out) (n, (sum, st)) =
      let st' : Mailroom =
        if went_out
        then record st {
          outbox =
              st.outbox
              ++ record { about = domain; recipient = to; subject = subject_of domain; html = body }
                ∷ [];
        }
        else st in
      elim failure [
        | none ↦ (n + 1, (sum, st'))
        | some s ↦ (n, (add_error (send_failed domain to s) sum, st'))
      ]

  unfoldable pub mail_all :
      Bytes → Bytes → List Bytes → ℕ × (RunSummary × Mailroom) → ℕ × (RunSummary × Mailroom)
  unfolding send_digest
  mail_all domain body [] r = r
  mail_all domain body (to ∷ tos) r = mail_all domain body tos (
      after_send domain to body
        (send_digest (x.unclosed_accepted domain to) (x.smtp_fails domain to)) r)

  -- behind the loop
  unfoldable pub log_sent : Bytes → ℕ × (RunSummary × Mailroom) → RunSummary × Mailroom
  log_sent domain (n, (sum, st)) = if n == 0 then (sum, st) else (
    record sum { domains_sent = sum.domains_sent + 1; emails_sent = sum.emails_sent + n },
    if x.log_fails domain then st else record st {
      digest_log =
          st.digest_log
          ++ record {
            log_domain = domain;
            period_start = start_of x.now;
            period_end = end_of x.now;
          }
            ∷ [];
    },
  )

  unfoldable pub send_page :
      Bytes → List Bytes → Rendered → RunSummary × Mailroom → RunSummary × Mailroom
  unfolding mail_all log_sent
  send_page domain emails no_data (sum, st) = (add_error (data_failed domain) sum, st)
  send_page domain emails no_page (sum, st) = (add_error (render_failed domain) sum, st)
  send_page domain emails (page body) r = log_sent domain (mail_all domain body emails (0, r))

  abbrev pub skipped : RunSummary × Mailroom → RunSummary × Mailroom
  skipped (sum, st) = (record sum { domains_skipped = sum.domains_skipped + 1 }, st)

  -- the loop over the domains: does it reach its end?
  unfoldable pub visit :
      Bool → List (Bytes × List Bytes) → RunSummary × Mailroom → Bool × (RunSummary × Mailroom)
  unfolding send_page is_logged
  visit force [] r = (true, r)
  visit force ((domain, emails) ∷ groups) r =
      let skip = visit force groups (skipped r) in
      let go_on =
        visit force groups
          (send_page domain emails (x.pages domain (start_of x.now) (end_of x.now)) r) in
      if force
      then go_on
      else if x.check_fails domain
      then (false, r)
      else if is_logged domain (end_of x.now) r.1.digest_log
      then skip
      else go_on

  abbrev pub no_summary : RunSummary
  no_summary = record { domains_sent = 0; domains_skipped = 0; emails_sent = 0; errors = [] }

  -- `run`
  unfoldable pub run : Bool → List Subscription → Mailroom → Bool × (RunSummary × Mailroom)
  unfolding visit by_domain
  run force subs st =
      if x.list_fails
      then (false, (no_summary, st))
      else visit force (x.map_order (by_domain (x.query_order subs) [])) (no_summary, st)

  -- `now.Weekday() != d.cfg.DigestDay || now.Hour() < d.cfg.DigestHour`; 1970 began on a Thursday
  abbrev pub is_time : ℕ → ℕ → ℕ → Bool
  is_time day hour t = (t / day_seconds + 4) % 7 == day && not (ltb (t % day_seconds / 3600) hour)

  -- one tick of `Run`
  unfoldable pub tick : ℕ → ℕ → List Subscription → Mailroom → Mailroom
  unfolding run
  tick day hour subs st = if is_time day hour x.now then (run false subs st).1.1 else st
