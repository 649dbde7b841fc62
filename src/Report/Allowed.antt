-- ===== src/Report/Allowed.antt =====
-- `ParseXML` delivers only what the database columns take.
use mathlib.Core.Path.{subst}
-- a value of an enumerated column
use dmarcparser.Report.{AuthResult, XmlRecord, Feedback, Record, Report}
use dmarcparser.Report.Address.{Net, to4, columns}
use dmarcparser.Report.Parse.{
  reason_of, domain_of, disposition_of, result_of, parse_record, build_report, parse_xml, accept,
}
use dmarcparser.Base.{
  Bool-cases, length, length-take_le, ℕ, ◌≤◌, ◌≡◌, ◌≢◌, inl, inr, true, Option, none, some, List,
  [], ◌∷◌, arith, Option-cases, is_empty, All, ok, refl, ◌⊎◌, map, ◌||◌,
}
use dmarcparser.Report.Fields.{
  cut_to, trunc, non_empty, opt_str, unknown, member, normalize, dispositions, dkim_results,
  spf_results, aligns, join_reasons, pick_auth,
}
use dmarcparser.Text.{Bytes, trim_space, beq}
use dmarcparser.Unicode.{Casing}

abbrev pub Within : List Bytes → Option Bytes → Type 0
Within allowed none = Unit
Within allowed (some v) = member v allowed ≡ true

-- a value of a `varchar(n)` column: `NULL`, or a text that is neither empty nor too long
abbrev pub Fits : ℕ → Option Bytes → Type 0
Fits n none = Unit
Fits n (some v) = (length v ≤ n) × (v ≢ [])

pub member-normalize :
    (cs : Casing) (v : Bytes) (allowed : List Bytes)
    → member unknown allowed ≡ true
    → member (normalize cs v allowed) allowed ≡ true
unfolding normalize
member-normalize cs v allowed h = elim (Bool-cases (member (cs.to_lower (trim_space v)) allowed)) [
  | inl known ↦ rw known known
  | inr other ↦ rw other h
]

trunc_le : (s : Bytes) (n : ℕ) → length (trunc s n) ≤ n
unfolding trunc cut_to
trunc_le s n = ground (arith, length-take_le n (trim_space s))

opt_str-Fits : (s : Bytes) (n : ℕ) → Fits n (opt_str s n)
unfolding opt_str
opt_str-Fits s n = go (trunc s n) (trunc_le s n)
  where
    go : (t : Bytes) → length t ≤ n → Fits n (non_empty t)
    go [] h = tt
    go (c ∷ t) h = (h, cc)

-- What the tables `report` and `rptrecord` can hold of one record.
pub record FitsRecord (r : Record) : Type 0 where
  pub spf_align : member r.spf_align aligns ≡ true
  pub dkim_align : member r.dkim_align aligns ≡ true
  pub disposition : Within dispositions r.disposition
  pub dkim_result : Within dkim_results r.dkim_result
  pub spf_result : Within spf_results r.spf_result
  pub reason : Fits 255 r.reason
  pub dkim_domain : Fits 255 r.dkim_domain
  pub spf_domain : Fits 255 r.spf_domain
  pub header_from : Fits 255 r.header_from
  pub one_address : (r.ipv4 ≡ none) ⊎ (r.ipv6 ≡ none)

pub record FitsReport (r : Report) : Type 0 where
  pub org : length r.org ≤ 255
  pub report_id : length r.report_id ≤ 255
  pub domain : length r.domain ≤ 255
  pub email : Fits 255 r.email
  pub extra_contact : Fits 255 r.extra_contact
  pub adkim : Fits 20 r.adkim
  pub aspf : Fits 20 r.aspf
  pub p : Fits 20 r.p
  pub sp : Fits 20 r.sp
  pub records : All FitsRecord r.records

disposition_of-Within : (cs : Casing) (s : Bytes) → Within dispositions (disposition_of cs s)
unfolding disposition_of
disposition_of-Within cs s = elim (Bool-cases (is_empty (cs.to_lower (trim_space s)))) [
  | inl blank ↦ rw blank tt
  | inr some_text ↦ rw some_text (member-normalize cs _ dispositions (unfold member beq in refl))
]

result_of-Within :
    (cs : Casing) (allowed : List Bytes) (a : Option AuthResult)
    → member unknown allowed ≡ true
    → Within allowed (result_of cs allowed a)
result_of-Within cs allowed none h = tt
result_of-Within cs allowed (some a) h = member-normalize cs a.result allowed h

reason_of-Fits : (s : Bytes) → Fits 255 (reason_of s)
unfolding reason_of
reason_of-Fits [] = tt
reason_of-Fits (c ∷ s) = opt_str-Fits (c ∷ s) 255

domain_of-Fits : (a : Option AuthResult) → Fits 255 (domain_of a)
domain_of-Fits none = tt
domain_of-Fits (some a) = opt_str-Fits a.domain 255

columns_one : (ip : Option Bytes) → ((columns ip).0 ≡ none) ⊎ ((columns ip).1 ≡ none)
unfolding columns
columns_one none = inl refl
columns_one (some ip) = elim (Option-cases (to4 ip)) [
  | inl v6 ↦ inl (rw v6)
  | inr (q, v4) ↦ inr (rw v4)
]

module _ (cs : Casing) (net : Net) where
  parse_record-Fits : (x : XmlRecord) → FitsRecord (parse_record cs net x)
  unfolding parse_record member beq
  parse_record-Fits x = record {
    spf_align = member-normalize cs x.spf aligns refl;
    dkim_align = member-normalize cs x.dkim aligns refl;
    disposition = disposition_of-Within cs x.disposition;
    dkim_result = result_of-Within cs dkim_results (pick_auth cs x.auth_dkim) refl;
    spf_result = result_of-Within cs spf_results (pick_auth cs x.auth_spf) refl;
    reason = reason_of-Fits (join_reasons x.reasons);
    dkim_domain = domain_of-Fits (pick_auth cs x.auth_dkim);
    spf_domain = domain_of-Fits (pick_auth cs x.auth_spf);
    header_from = opt_str-Fits x.header_from 255;
    one_address = columns_one (net.parse_ip (trim_space x.source_ip));
  }

  map-Fits : (xs : List XmlRecord) → All FitsRecord (map (parse_record cs net) xs)
  map-Fits [] = tt
  map-Fits (x ∷ xs) = (parse_record-Fits x, map-Fits xs)

  build_report-Fits : (doc : Bytes) (fb : Feedback) → FitsReport (build_report cs net doc fb)
  unfolding build_report
  build_report-Fits doc fb = record {
    org = trunc_le fb.org_name 255;
    report_id = trunc_le fb.report_id 255;
    domain = trunc_le fb.domain 255;
    email = opt_str-Fits fb.email 255;
    extra_contact = opt_str-Fits fb.extra_contact_info 255;
    adkim = opt_str-Fits fb.adkim 20;
    aspf = opt_str-Fits fb.aspf 20;
    p = opt_str-Fits fb.p 20;
    sp = opt_str-Fits fb.sp 20;
    records = map-Fits fb.records;
  }

  accept-Fits :
      (doc : Bytes) (o : Option Feedback) {r : Report} → accept cs net doc o ≡ ok r → FitsReport r
  unfolding accept
  accept-Fits doc none e = absurd (cc)
  accept-Fits doc (some fb) {r} e =
      elim (Bool-cases (is_empty fb.domain || is_empty fb.report_id)) [
        | inl missing ↦ absurd (cc (rw missing at e))
        | inr complete ↦
            let built : build_report cs net doc fb ≡ r = cc (rw complete at e) in
            subst FitsReport built (build_report-Fits doc fb)
      ]

  -- Every report that `ParseXML` returns fits the schema: enumerated columns hold allowed values,
  -- texts are within their column's length in bytes, optional texts are never empty, and a record
  -- has at most one of the two address columns.
  pub parse_xml-FitsReport :
      (decode : Bytes → Option Feedback) (doc : Bytes) {r : Report}
      → parse_xml cs net decode doc ≡ ok r
      → FitsReport r
  unfolding parse_xml
  parse_xml-FitsReport decode doc e = accept-Fits doc (decode doc) e
