-- ===== src/Enrich/Anomaly.antt =====
-- An anomaly is raised at most once for a domain and a day.
use dmarcparser.Pipeline.{IngestEvent}
use dmarcparser.Report.{Record}
use dmarcparser.Store.Sources.{Upserted}
use dmarcparser.Base.{
  Bool-cases, ℕ, ◌≡◌, refl, ◌⊎◌, inl, inr, false, Option, none, some, if◌then◌else◌, is_empty, ◌+◌,
  ◌≤◌, Bool, List, [], ◌∷◌, ◌++◌, arith, ap, true,
}
use dmarcparser.Base.Int.{ℤ}
use dmarcparser.Enrich.{
  Floats, Intel, Meets, fails_on, anomaly_rule, threshold, raise, was_fired, check_anomaly,
  IntelNotice, sender_new, domain_anomaly, record_ip, announces, note_source, take_record,
  take_records, on_report,
}
use dmarcparser.Report.Address.{Net}
use dmarcparser.Rollup.{day_of}
use dmarcparser.Store.Alerts.{alert_last_fired, alert_last_fired-mark, alert_last_fired-other}
use dmarcparser.Text.{Bytes, beq, beq_iff, beq_refl}

module _ {Float : Type 0} (fl : Floats Float) (net : Net) (format_day : ℤ → Bytes) where
  not_fired : (o : Option ℕ) → was_fired fl net format_day o ≡ false → o ≡ none
  not_fired none h = refl
  not_fired (some t) h = absurd (cc)

  -- `checkAnomaly` does nothing, or it raises an alert that is not on record.
  pub check_anomaly-cases :
      (x : Meets) (sigma : Float) (min_fails : ℤ) (domain : Bytes) (begin : ℤ) (st : Intel Float)
      → (check_anomaly fl net format_day x sigma min_fails domain begin st ≡ st)
        ⊎ ((limit : Float) × (alert_last_fired beq
                (anomaly_rule fl net format_day domain (day_of begin))
                st.fired
              ≡ none)
            × (check_anomaly fl net format_day x sigma min_fails domain begin st
                ≡ raise fl net format_day x domain (day_of begin) limit st))
  unfolding check_anomaly
  check_anomaly-cases x sigma min_fails domain begin st =
      let day = day_of begin in
      let rule = anomaly_rule fl net format_day domain day in
      let limit = threshold fl net format_day sigma min_fails (day, domain) x.daily in
      elim (Bool-cases x.lookup_fails) [
        | inl a ↦ inl (rw a refl)
        | inr a ↦
            elim (Bool-cases (was_fired fl net format_day (alert_last_fired beq rule st.fired))) [
              | inl b ↦ inl (rw (a, b) refl)
              | inr b ↦ elim (Bool-cases x.stats_fail) [
                | inl c ↦ inl (rw (a, b, c) refl)
                | inr c ↦
                    elim (Bool-cases (fl.less (fl.of_int (fails_on (day, domain) x.daily)) limit)) [
                      | inl e ↦ inl (rw (a, b, c, e) refl)
                      | inr e ↦ inr (
                        limit,
                        not_fired (alert_last_fired beq rule st.fired) b,
                        rw (a, b, c, e) refl,
                      )
                    ]
              ]
            ]
      ]

  -- 1 where the rule has a row
  abbrev pub on_record : Bytes → List (Bytes × ℕ) → ℕ
  on_record rule rows =
      if was_fired fl net format_day (alert_last_fired beq rule rows) then 1 else 0

  -- the `domain.anomaly` events of a rule
  abbrev pub raised_for : Bytes → List (IntelNotice Float) → ℕ
  raised_for rule [] = 0
  raised_for rule (sender_new domain ip ptr msgs aligned serial seen ∷ ns) = raised_for rule ns
  raised_for rule (domain_anomaly domain day fails limit ∷ ns) =
      (if beq (anomaly_rule fl net format_day domain day) rule then 1 else 0) + raised_for rule ns

  raised_for-append :
      (rule : Bytes) (ms ns : List (IntelNotice Float))
      → raised_for rule (ms ++ ns) ≡ raised_for rule ms + raised_for rule ns
  raised_for-append rule [] ns = omega arith
  raised_for-append rule (sender_new domain ip ptr msgs aligned serial seen ∷ ms) ns =
      raised_for-append rule ms ns
  raised_for-append rule (domain_anomaly domain day fails limit ∷ ms) ns =
      let rest = raised_for-append rule ms ns in omega arith

  module _ (rule : Bytes) where
    abbrev IsRaised : Intel Float → Type 0
    IsRaised st = raised_for rule st.notices ≤ on_record rule st.fired

    note_source-IsRaised :
        (min_msgs : ℤ) (domain : Bytes) (serial : ℕ) (no_ptr : Bool) (rec : Record)
        (o : Option Upserted) (st : Intel Float)
        → IsRaised st
        → IsRaised (note_source fl net format_day min_msgs domain serial no_ptr rec o st)
    unfolding note_source
    note_source-IsRaised min_msgs domain serial no_ptr rec none st h = h
    note_source-IsRaised min_msgs domain serial no_ptr rec (some ((fresh, seen), rows)) st h =
        elim (Bool-cases (announces fl net format_day min_msgs fresh rec)) [
          | inl a ↦ rw (a, raised_for-append rule st.notices) (omega arith)
          | inr a ↦ rw a h
        ]

    take_record-IsRaised :
        (x : Meets) (min_msgs : ℤ) (domain : Bytes) (serial n : ℕ) (rec : Record) (st : Intel Float)
        → IsRaised st
        → IsRaised (take_record fl net format_day x min_msgs domain serial n rec st)
    unfolding take_record
    take_record-IsRaised x min_msgs domain serial n rec st h =
        elim (Bool-cases (is_empty (record_ip fl net format_day rec))) [
          | inl a ↦ rw a h
          | inr a ↦ elim (Bool-cases (x.upsert_fails n)) [
            | inl b ↦ rw (a, b) h
            | inr b ↦
                rw (a, b) (note_source-IsRaised min_msgs domain serial (x.ptr_fails n) rec _ st h)
          ]
        ]

    take_records-IsRaised :
        (x : Meets) (min_msgs : ℤ) (domain : Bytes) (serial n : ℕ) (recs : List Record)
        (st : Intel Float)
        → IsRaised st
        → IsRaised (take_records fl net format_day x min_msgs domain serial n recs st)
    unfolding take_records
    take_records-IsRaised x min_msgs domain serial n [] st h = h
    take_records-IsRaised x min_msgs domain serial n (rec ∷ recs) st h =
        take_records-IsRaised x min_msgs domain serial (n + 1) recs _
          (take_record-IsRaised x min_msgs domain serial n rec st h)

    raise-IsRaised :
        (x : Meets) (domain : Bytes) (day : ℤ) (limit : Float) (st : Intel Float)
        → x.mark_fails ≡ false
        → alert_last_fired beq (anomaly_rule fl net format_day domain day) st.fired ≡ none
        → IsRaised st
        → IsRaised (raise fl net format_day x domain day limit st)
    unfolding raise
    raise-IsRaised x domain day limit st marks none_fired h =
        let mine = anomaly_rule fl net format_day domain day in
        elim (Bool-cases (beq mine rule)) [
          | inl p ↦
              let same : mine ≡ rule = ground (arith, beq_iff mine rule) in
              let absent : alert_last_fired beq rule st.fired ≡ none = rw same at none_fired in
              let before : raised_for rule st.notices ≤ 0 = rw absent at h in
              let present = alert_last_fired-mark beq rule x.db_now st.fired (beq_refl rule) in
              rw (marks, raised_for-append rule st.notices, p, same, present) (omega arith)
          | inr p ↦
              let like : (k : Bytes) → beq k mine ≡ true → beq k rule ≡ beq mine rule = λ k e.
                let eq : k ≡ mine = ground (arith, beq_iff k mine) in ap (λ c. beq c rule) eq in
              let other = alert_last_fired-other beq rule mine x.db_now st.fired p like in
              rw (marks, raised_for-append rule st.notices, p, other) (omega arith)
        ]

    check_anomaly-IsRaised :
        (x : Meets) (sigma : Float) (min_fails : ℤ) (domain : Bytes) (begin : ℤ) (st : Intel Float)
        → x.mark_fails ≡ false
        → IsRaised st
        → IsRaised (check_anomaly fl net format_day x sigma min_fails domain begin st)
    check_anomaly-IsRaised x sigma min_fails domain begin st marks h =
        elim (check_anomaly-cases x sigma min_fails domain begin st) [
          | inl same ↦ rw same h
          | inr (limit, none_fired, raised) ↦
              rw raised (raise-IsRaised x domain (day_of begin) limit st marks none_fired h)
        ]

    -- Where every alert that is raised gets on record, `domain.anomaly` is sent at most once for a rule,
    -- that is, for a domain and a day: if that holds before a report, it holds after it.
    pub on_report-IsRaised :
        (x : Meets) (sigma : Float) (min_fails min_msgs : ℤ) (ev : IngestEvent) (st : Intel Float)
        → x.mark_fails ≡ false
        → raised_for rule st.notices ≤ on_record rule st.fired
        → raised_for rule (on_report fl net format_day x sigma min_fails min_msgs ev st).notices
          ≤ on_record rule (on_report fl net format_day x sigma min_fails min_msgs ev st).fired
    unfolding on_report
    on_report-IsRaised x sigma min_fails min_msgs ev st marks h =
        check_anomaly-IsRaised x sigma min_fails ev.report.domain ev.report.begin _ marks (
          take_records-IsRaised x min_msgs ev.report.domain ev.result.serial 0 ev.report.records st
            h)
