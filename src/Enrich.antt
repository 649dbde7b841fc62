-- ===== src/Enrich.antt =====
-- parser/internal/enrich/observer.go, with `DomainDayFailStats` of store/store_intel.go and `Enqueue`
-- of enrich/enrich.go. Floating-point numbers, `avg` and `stddev_samp` of the database, and the
-- printing of a date are parameters; `avg` and `stddev` stand for them with their `COALESCE` to 0.
pub mod Sweep
pub mod Announced
pub mod Anomaly
pub mod Worker
use dmarcparser.Base.{
  ltb, if◌then◌else◌, length, is_empty, ℕ, zero, suc, ◌+◌, ◌%◌, ◌^◌, Bool, true, false, not, ◌&&◌,
  ◌||◌, Option, none, some, List, [], ◌∷◌, ◌++◌,
}
use dmarcparser.Base.Int.{ℤ, pos, negsuc, lt_int, add_int, le_int}
use dmarcparser.Pipeline.{IngestEvent}
use dmarcparser.Report.{Record}
use dmarcparser.Report.Address.{Net, quad, dotted, print16, print_ipv6_column}
use dmarcparser.Store.Alerts.{alert_last_fired, mark_alert_fired}
use dmarcparser.Store.Sources.{DomainSource, Upserted, upsert_domain_source, IpMeta, ip_meta_ptr}
use dmarcparser.Text.{Bytes, codes, beq}
use dmarcparser.Rollup.{pass, all_msgs, aligned_msgs, DayKey, Bucket, AggRow, day_of, same_day_key}

pub record Floats (Float : Type 0) : Type 0 where
  pub of_int : ℤ → Float
  pub add : Float → Float → Float
  pub mul : Float → Float → Float
  pub less : Float → Float → Bool
  pub avg : List ℤ → Float
  pub stddev : List ℤ → Float

pub record Task : Type 0 where
  pub task_ip : Bytes
  pub hint : Bytes

-- the calls of `NotifyEvent`
pub data IntelNotice (Float : Type 0) : Type 0 where
  sender_new : Bytes → Bytes → Option Bytes → ℤ → ℤ → ℕ → ℕ → IntelNotice Float
  domain_anomaly : Bytes → ℤ → ℤ → Float → IntelNotice Float

pub record Intel (Float : Type 0) : Type 0 where
  pub sources : List DomainSource
  pub ip_meta : List IpMeta
  -- the channel of the workers
  pub queue : List Task
  -- the table `alert_state`, without the detail
  pub fired : List (Bytes × ℕ)
  pub notices : List (IntelNotice Float)
  pub domain_anomalies : ℕ

-- What one call of `OnIngest` meets: the statements that fail, the clock of the database, and the
-- table `dmarc_agg_daily`.
pub record Meets : Type 0 where
  pub upsert_fails : ℕ → Bool
  pub ptr_fails : ℕ → Bool
  pub lookup_fails : Bool
  pub stats_fail : Bool
  pub mark_fails : Bool
  pub db_now : ℕ
  pub daily : List AggRow

abbrev pub queue_size : ℕ
queue_size = 1024

-- `Enqueue` drops the task if the channel is full
abbrev pub enqueue : Task → List Task → List Task
enqueue t q = if ltb (length q) queue_size then q ++ t ∷ [] else q

abbrev pub neg_int : ℤ → ℤ
neg_int (pos zero) = pos 0
neg_int (pos (suc n)) = negsuc n
neg_int (negsuc n) = pos (n + 1)

-- `msgs_total - msgs_aligned`; aligned messages are among all messages, so the difference fits
abbrev pub fails_of : Bucket → ℤ
fails_of b = add_int (b.msgs all_msgs) (neg_int (b.msgs aligned_msgs))

-- the row of the day, if any
unfoldable pub fails_on : DayKey → List AggRow → ℤ
fails_on k [] = pos 0
fails_on k ((k', b) ∷ rows) = if same_day_key k' k then fails_of b else fails_on k rows

-- `domain = $1 AND day >= $2::date - 30 AND day < $2::date`
abbrev pub in_window : DayKey → DayKey → Bool
in_window k k' = beq k'.1 k.1 && (le_int (add_int k.0 (negsuc 29)) k'.0 && lt_int k'.0 k.0)

unfoldable pub window_fails : DayKey → List AggRow → List ℤ
window_fails k [] = []
window_fails k ((k', b) ∷ rows) =
    let rest = window_fails k rows in if in_window k k' then fails_of b ∷ rest else rest

module _ {Float : Type 0} (fl : Floats Float) (net : Net) (format_day : ℤ → Bytes) where
  -- `recordIP`
  unfoldable pub record_ip : Record → Bytes
  unfolding dotted quad print16
  record_ip rec = elim rec.ipv4 [
    | some v ↦ dotted (quad (v % 2 ^ 32))
    | none ↦ print_ipv6_column net rec.ipv6
  ]

  abbrev pub is_aligned : Record → Bool
  is_aligned rec = beq rec.dkim_align pass || beq rec.spf_align pass

  abbrev pub aligned_count_of : Record → ℤ
  aligned_count_of rec = if is_aligned rec then rec.count else pos 0

  abbrev pub value_or_empty : Option Bytes → Bytes
  value_or_empty none = []
  value_or_empty (some v) = v

  -- is the pair reported?
  abbrev pub announces : ℤ → Bool → Record → Bool
  announces min_msgs fresh rec = fresh && (le_int min_msgs rec.count || not (is_aligned rec))

  abbrev pub sender_notice : Bytes → ℕ → Record → Option Bytes → ℕ → IntelNotice Float
  sender_notice domain serial rec ptr seen =
      sender_new domain (record_ip rec) ptr rec.count (aligned_count_of rec) serial seen

  -- behind the upsert
  unfoldable pub note_source :
      ℤ → Bytes → ℕ → Bool → Record → Option Upserted → Intel Float → Intel Float
  unfolding record_ip ip_meta_ptr
  note_source min_msgs domain serial no_ptr rec none st = st
  note_source min_msgs domain serial no_ptr rec (some ((fresh, seen), rows)) st =
      let ptr = if no_ptr then none else ip_meta_ptr (record_ip rec) st.ip_meta in
      let task : Task = record { task_ip = record_ip rec; hint = value_or_empty rec.dkim_domain } in
      record st {
        sources = rows;
        queue = enqueue task st.queue;
        notices =
            if announces min_msgs fresh rec
            then st.notices ++ sender_notice domain serial rec ptr seen ∷ []
            else st.notices;
      }

  -- one record; `n` is its position
  unfoldable pub take_record : Meets → ℤ → Bytes → ℕ → ℕ → Record → Intel Float → Intel Float
  unfolding note_source upsert_domain_source record_ip
  take_record x min_msgs domain serial n rec st =
      if is_empty (record_ip rec)
      then st
      else if x.upsert_fails n
      then st
      else note_source min_msgs domain serial (x.ptr_fails n) rec
          (upsert_domain_source x.db_now domain (record_ip rec) rec.count (aligned_count_of rec)
            serial st.sources)
          st

  unfoldable pub take_records : Meets → ℤ → Bytes → ℕ → ℕ → List Record → Intel Float → Intel Float
  unfolding take_record
  take_records x min_msgs domain serial n [] st = st
  take_records x min_msgs domain serial n (rec ∷ recs) st =
      take_records x min_msgs domain serial (n + 1) recs
        (take_record x min_msgs domain serial n rec st)

  -- the key in `alert_state`
  unfoldable pub anomaly_rule : Bytes → ℤ → Bytes
  anomaly_rule domain day = codes "anomaly:" ++ domain ++ codes ":" ++ format_day day

  abbrev pub at_least : Float → Float → Float
  at_least low t = if fl.less t low then low else t

  -- mean + sigma * stddev, and no less than the floor
  unfoldable pub threshold : Float → ℤ → DayKey → List AggRow → Float
  unfolding window_fails
  threshold sigma min_fails k rows =
      at_least (fl.of_int min_fails)
        (fl.add (fl.avg (window_fails k rows)) (fl.mul sigma (fl.stddev (window_fails k rows))))

  unfoldable pub raise : Meets → Bytes → ℤ → Float → Intel Float → Intel Float
  unfolding anomaly_rule mark_alert_fired fails_on
  raise x domain day limit st = record st {
    fired =
        if x.mark_fails
        then st.fired
        else mark_alert_fired beq (anomaly_rule domain day) x.db_now st.fired;
    notices = st.notices ++ domain_anomaly domain day (fails_on (day, domain) x.daily) limit ∷ [];
    domain_anomalies = st.domain_anomalies + 1;
  }

  -- is an alert for this day on record?
  abbrev pub was_fired : Option ℕ → Bool
  was_fired none = false
  was_fired (some t) = true

  -- `checkAnomaly`
  unfoldable pub check_anomaly : Meets → Float → ℤ → Bytes → ℤ → Intel Float → Intel Float
  unfolding anomaly_rule alert_last_fired threshold raise day_of fails_on
  check_anomaly x sigma min_fails domain begin st =
      let day = day_of begin in
      let limit = threshold sigma min_fails (day, domain) x.daily in
      if x.lookup_fails
      then st
      else if was_fired (alert_last_fired beq (anomaly_rule domain day) st.fired)
      then st
      else if x.stats_fail
      then st
      else if fl.less (fl.of_int (fails_on (day, domain) x.daily)) limit
      then st
      else raise x domain day limit st

  -- `OnIngest`
  unfoldable pub on_report : Meets → Float → ℤ → ℤ → IngestEvent → Intel Float → Intel Float
  unfolding take_records check_anomaly
  on_report x sigma min_fails min_msgs ev st =
      check_anomaly x sigma min_fails ev.report.domain ev.report.begin
        (take_records x min_msgs ev.report.domain ev.result.serial 0 ev.report.records st)
