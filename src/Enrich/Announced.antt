-- ===== src/Enrich/Announced.antt =====
-- A new sender is announced at most once.
use dmarcparser.Enrich.Anomaly.{check_anomaly-cases}
use dmarcparser.Rollup.{day_of}
use dmarcparser.Base.{
  if◌then◌else◌, Bool-cases, is_empty, ℕ, ◌+◌, ◌≤◌, ◌≡◌, refl, inl, inr, Bool, true, Option, none,
  some, List, [], ◌∷◌, ◌++◌, arith, false, ◌||◌,
}
use dmarcparser.Base.Int.{ℤ}
use dmarcparser.Enrich.{
  Floats, IntelNotice, sender_new, domain_anomaly, Intel, Meets, record_ip, aligned_count_of,
  note_source, take_record, take_records, raise, check_anomaly, on_report, announces,
}
use dmarcparser.Pipeline.{IngestEvent}
use dmarcparser.Report.{Record}
use dmarcparser.Report.Address.{Net}
use dmarcparser.Store.Sources.{DomainSource, Upserted, upsert_domain_source}
use dmarcparser.Store.Sources.Known.{
  has_source, is_pair, upsert_domain_source-fresh, upsert_domain_source-has_source,
}
use dmarcparser.Text.{Bytes, beq_iff}

-- 1 where the pair has a row
abbrev pub known : Bytes → Bytes → List DomainSource → ℕ
known d i rows = if has_source d i rows then 1 else 0

is_pair_iff : (domain ip d i : Bytes) → is_pair domain ip d i ≡ true → (domain ≡ d) × (ip ≡ i)
is_pair_iff domain ip d i h = (ground (arith, beq_iff domain d), ground (arith, beq_iff ip i))

known-grows :
    (b : Bool) (d i : Bytes) (n : ℕ) (rows rows' : List DomainSource)
    → has_source d i rows' ≡ (b || has_source d i rows)
    → n ≤ known d i rows
    → n ≤ known d i rows'
known-grows true d i n rows rows' e h = rw e (ground arith)
known-grows false d i n rows rows' e h = rw e h

known-new :
    (domain ip d i : Bytes) (n : ℕ) (rows rows' : List DomainSource)
    → has_source domain ip rows ≡ false
    → has_source d i rows' ≡ (is_pair domain ip d i || has_source d i rows)
    → n ≤ known d i rows
    → n + ((if is_pair domain ip d i then 1 else 0) + 0) ≤ known d i rows'
known-new domain ip d i n rows rows' absent e h = elim (Bool-cases (is_pair domain ip d i)) [
  | inl p ↦
      let (a, b) = is_pair_iff domain ip d i p in
      let missing : has_source d i rows ≡ false = rw (← a, ← b) absent in
      let none_sent : n ≤ 0 = rw missing at h in
      let here : has_source d i rows' ≡ true = rw p at e in rw (p, here) (omega arith)
  | inr p ↦
      let same : has_source d i rows' ≡ has_source d i rows = rw p at e in
      rw (p, same) (omega arith)
]

module _ {Float : Type 0} where
  -- the `sender.new` events for a pair
  abbrev pub announced : Bytes → Bytes → List (IntelNotice Float) → ℕ
  announced d i [] = 0
  announced d i (sender_new domain ip ptr msgs aligned serial seen ∷ ns) =
      (if is_pair domain ip d i then 1 else 0) + announced d i ns
  announced d i (domain_anomaly domain day fails limit ∷ ns) = announced d i ns

  announced-append :
      (d i : Bytes) (ms ns : List (IntelNotice Float))
      → announced d i (ms ++ ns) ≡ announced d i ms + announced d i ns
  announced-append d i [] ns = omega arith
  announced-append d i (sender_new domain ip ptr msgs aligned serial seen ∷ ms) ns =
      let rest = announced-append d i ms ns in omega arith
  announced-append d i (domain_anomaly domain day fails limit ∷ ms) ns = announced-append d i ms ns

  module _ (fl : Floats Float) (net : Net) (format_day : ℤ → Bytes) (d i : Bytes) where
    abbrev pub IsAnnounced : Intel Float → Type 0
    IsAnnounced st = announced d i st.notices ≤ known d i st.sources

    note_source-IsAnnounced :
        (min_msgs : ℤ) (domain : Bytes) (serial now : ℕ) (no_ptr : Bool) (rec : Record)
        (o : Option Upserted) (st : Intel Float)
        → upsert_domain_source now domain
            (record_ip fl net format_day rec)
            rec.count
            (aligned_count_of fl net format_day rec)
            serial
            st.sources
          ≡ o
        → IsAnnounced st
        → IsAnnounced (note_source fl net format_day min_msgs domain serial no_ptr rec o st)
    unfolding note_source
    note_source-IsAnnounced min_msgs domain serial now no_ptr rec none st e h = h
    note_source-IsAnnounced min_msgs domain serial now no_ptr rec (some ((fresh, seen), rows)) st e
          h =
        let grown =
          upsert_domain_source-has_source now domain (record_ip fl net format_day rec) rec.count
            (aligned_count_of fl net format_day rec) serial d i st.sources e in
        elim (Bool-cases (announces fl net format_day min_msgs fresh rec)) [
          | inl a ↦
              let yes : fresh ≡ true = ground arith in
              let absent =
                upsert_domain_source-fresh now domain (record_ip fl net format_day rec) rec.count
                  (aligned_count_of fl net format_day rec) serial st.sources (rw yes at e) in
              rw (a, announced-append d i st.notices)
                (known-new domain (record_ip fl net format_day rec) d i _ st.sources rows absent
                  grown h)
          | inr a ↦ rw a (known-grows _ d i _ st.sources rows grown h)
        ]

    take_record-IsAnnounced :
        (x : Meets) (min_msgs : ℤ) (domain : Bytes) (serial n : ℕ) (rec : Record) (st : Intel Float)
        → IsAnnounced st
        → IsAnnounced (take_record fl net format_day x min_msgs domain serial n rec st)
    unfolding take_record
    take_record-IsAnnounced x min_msgs domain serial n rec st h =
        elim (Bool-cases (is_empty (record_ip fl net format_day rec))) [
          | inl a ↦ rw a h
          | inr a ↦ elim (Bool-cases (x.upsert_fails n)) [
            | inl b ↦ rw (a, b) h
            | inr b ↦
                rw (a, b)
                  (note_source-IsAnnounced min_msgs domain serial x.db_now (x.ptr_fails n) rec _ st
                    refl h)
          ]
        ]

    take_records-IsAnnounced :
        (x : Meets) (min_msgs : ℤ) (domain : Bytes) (serial n : ℕ) (recs : List Record)
        (st : Intel Float)
        → IsAnnounced st
        → IsAnnounced (take_records fl net format_day x min_msgs domain serial n recs st)
    unfolding take_records
    take_records-IsAnnounced x min_msgs domain serial n [] st h = h
    take_records-IsAnnounced x min_msgs domain serial n (rec ∷ recs) st h =
        take_records-IsAnnounced x min_msgs domain serial (n + 1) recs _
          (take_record-IsAnnounced x min_msgs domain serial n rec st h)

    raise-IsAnnounced :
        (x : Meets) (domain : Bytes) (day : ℤ) (limit : Float) (st : Intel Float)
        → IsAnnounced st
        → IsAnnounced (raise fl net format_day x domain day limit st)
    unfolding raise
    raise-IsAnnounced x domain day limit st h = rw (announced-append d i st.notices) (omega arith)

    check_anomaly-IsAnnounced :
        (x : Meets) (sigma : Float) (min_fails : ℤ) (domain : Bytes) (begin : ℤ) (st : Intel Float)
        → IsAnnounced st
        → IsAnnounced (check_anomaly fl net format_day x sigma min_fails domain begin st)
    check_anomaly-IsAnnounced x sigma min_fails domain begin st h =
        elim (check_anomaly-cases fl net format_day x sigma min_fails domain begin st) [
          | inl same ↦ rw same h
          | inr (limit, none_fired, raised) ↦
              rw raised (raise-IsAnnounced x domain (day_of begin) limit st h)
        ]

    -- Of each pair of a domain and an address, `sender.new` is sent at most once, and only for a pair
    -- that has a row by then, whatever fails: if that holds before a report, it holds after it.
    pub on_report-IsAnnounced :
        (x : Meets) (sigma : Float) (min_fails min_msgs : ℤ) (ev : IngestEvent) (st : Intel Float)
        → announced d i st.notices ≤ known d i st.sources
        → announced d i (on_report fl net format_day x sigma min_fails min_msgs ev st).notices
          ≤ known d i (on_report fl net format_day x sigma min_fails min_msgs ev st).sources
    unfolding on_report
    on_report-IsAnnounced x sigma min_fails min_msgs ev st h =
        check_anomaly-IsAnnounced x sigma min_fails ev.report.domain ev.report.begin _ (
          take_records-IsAnnounced x min_msgs ev.report.domain ev.result.serial 0 ev.report.records
            st h)
