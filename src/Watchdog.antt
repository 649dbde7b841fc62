-- ===== src/Watchdog.antt =====
-- parser/internal/watchdog/watchdog.go, with `AlertLastFired` and `MarkAlertFired` of store/store.go.
-- Times are Unix seconds; what a check reads from the clocks, the counters and the database is a
-- parameter.
pub mod Quiet
use dmarcparser.Store.Alerts.{alert_last_fired, mark_alert_fired}
use dmarcparser.Base.{
  ltb, leb, if◌then◌else◌, ℕ, ◌+◌, ◌-◌, ◌*◌, Bool, true, false, Option, none, some, List, [], ◌∷◌,
  ◌++◌,
}

pub data Rule : Type 0 where
  silence poll_failures failed_spike webhook_dead : Rule

abbrev pub same_rule : Rule → Rule → Bool
same_rule silence silence = true
same_rule poll_failures poll_failures = true
same_rule failed_spike failed_spike = true
same_rule webhook_dead webhook_dead = true
same_rule _ _ = false

pub record Sample : Type 0 where
  pub ts : ℕ
  pub failed : ℕ

-- of each rule, whether it is firing
pub record RuleStates : Type 0 where
  pub on_silence : Bool
  pub on_poll_failures : Bool
  pub on_failed_spike : Bool
  pub on_webhook_dead : Bool

pub record Dog : Type 0 where
  pub states : RuleStates
  pub failed_samples : List Sample
  pub last_webhook_fail : ℕ
  -- the table `alert_state`, without the detail
  pub alert_state : List (Rule × ℕ)
  -- the alerts delivered, with their time: `postAlert` and the event `poller.degraded`
  pub alerts : List (Rule × ℕ)

pub record Limits : Type 0 where
  pub alert_silence : ℕ
  pub alert_failed_spike : ℕ

-- What one call of `fire` meets: the clock, the database's clock, and the failing statements.
pub record Moment : Type 0 where
  pub clock : ℕ
  pub db_clock : ℕ
  pub lookup_fails : Bool
  pub mark_fails : Bool

pub data LastIngest : Type 0 where
  lookup_error never_ingested : LastIngest
  ingested_at : ℕ → LastIngest

-- What one call of `check` reads.
pub record Reading : Type 0 where
  pub now : ℕ
  pub last_ingest : LastIngest
  pub poll_consecutive_errors : ℕ
  pub mails_failed : ℕ
  pub webhook_failures : ℕ
  pub moment : Rule → Moment

abbrev pub cooldown : ℕ
cooldown = 6 * 3600

abbrev pub window : ℕ
window = 24 * 3600

-- `!last.IsZero() && time.Since(last) < cooldown`; a time in the future is less than the cooldown ago
abbrev pub cooling : ℕ → Option ℕ → Bool
cooling clock none = false
cooling clock (some t) = ltb clock (t + cooldown)

abbrev pub delivered : Rule → Moment → Dog → Dog
delivered r m d = record d { alerts = d.alerts ++ (r, m.clock) ∷ [] }

abbrev pub marked : Rule → Moment → Dog → Dog
marked r m d =
    if m.mark_fails
    then d
    else record d { alert_state = mark_alert_fired same_rule r m.db_clock d.alert_state }

unfoldable pub fire : Rule → Moment → Dog → Dog
unfolding alert_last_fired mark_alert_fired
fire r m d =
    if m.lookup_fails
    then d
    else if cooling m.clock (alert_last_fired same_rule r d.alert_state)
    then d
    else marked r m (delivered r m d)

abbrev pub fire_if : Bool → Rule → Moment → Dog → Dog
fire_if b r m d = if b then fire r m d else d

-- the loop that drops old samples
unfoldable pub drop_old : ℕ → List Sample → List Sample
drop_old now [] = []
drop_old now (s ∷ []) = s ∷ []
drop_old now (s ∷ t ∷ ss) =
    let rest = drop_old now (t ∷ ss) in if ltb (s.ts + window) now then rest else s ∷ t ∷ ss

-- the failures counted since the oldest sample; the counter only grows
abbrev pub delta : ℕ → List Sample → ℕ
delta cur [] = 0
delta cur (s ∷ ss) = cur - s.failed

module _ (lim : Limits) where
  unfoldable pub is_silent : ℕ → LastIngest → Bool
  is_silent now lookup_error = false
  is_silent now never_ingested = false
  is_silent now (ingested_at t) = ltb (t + lim.alert_silence) now

  abbrev pub sampled : Reading → Dog → Dog
  sampled x d = record d {
    failed_samples =
        drop_old x.now (d.failed_samples ++ (record { ts = x.now; failed = x.mails_failed } ∷ []));
  }

  abbrev pub is_spike : Reading → Dog → Bool
  is_spike x d = leb lim.alert_failed_spike (delta x.mails_failed d.failed_samples)

  abbrev pub poll_failing : Reading → Bool
  poll_failing x = leb 3 x.poll_consecutive_errors

  abbrev pub webhook_failing : Reading → Dog → Bool
  webhook_failing x d = ltb d.last_webhook_fail x.webhook_failures

  -- the rules `silence` and `poll_failures`
  unfoldable pub check_first : Reading → Dog → Dog
  unfolding fire is_silent
  check_first x d =
      fire_if (poll_failing x) poll_failures (x.moment poll_failures)
        (fire_if (is_silent x.now x.last_ingest) silence (x.moment silence) d)

  -- the rule `failed_spike`
  unfoldable pub check_failed : Reading → Dog → Dog
  unfolding fire drop_old
  check_failed x d =
      fire_if (is_spike x (sampled x d)) failed_spike (x.moment failed_spike) (sampled x d)

  -- the rule `webhook_dead`
  unfoldable pub check_webhook : Reading → Dog → Dog
  unfolding fire
  check_webhook x d =
      fire_if (webhook_failing x d) webhook_dead (x.moment webhook_dead)
        (record d { last_webhook_fail = x.webhook_failures })

  -- `check`
  unfoldable pub check : Reading → Dog → Dog
  unfolding check_first check_failed check_webhook
  check x d = record (check_webhook x (check_failed x (check_first x d))) {
    states = record {
      on_silence = is_silent x.now x.last_ingest;
      on_poll_failures = poll_failing x;
      on_failed_spike = is_spike x (sampled x (check_first x d));
      on_webhook_dead = webhook_failing x (check_failed x (check_first x d));
    };
  }
