-- ===== src/Report/Parse.antt =====
-- `ParseXML` of report.go, from the decoded document on. The XML decoder is a parameter.
use dmarcparser.Base.{
  ℕ, ◌+◌, ◌-◌, ◌*◌, Bool, true, false, ◌&&◌, ◌||◌, List, [], ◌∷◌, map, Option, none, some, Result,
  ok, err, leb, ltb, ◌==◌, if◌then◌else◌, is_empty,
}
use dmarcparser.Base.Int.{ℤ, pos, negsuc}
use dmarcparser.Text.{Bytes, trim_space}
use dmarcparser.Unicode.{Casing}
use dmarcparser.Report.Address.{Net, columns}
use dmarcparser.Report.Fields.{
  trunc, opt_str, normalize, join_reasons, pick_auth, aligns, dispositions, dkim_results,
  spf_results,
}
use dmarcparser.Report.{AuthResult, XmlRecord, Feedback, Record, Report}

pub data ParseError : Type 0 where
  decode_xml missing_fields : ParseError

abbrev is_digit : ℕ → Bool
is_digit c = leb b'0' c && leb c b'9'

-- The number that `Sscanf` reads at the front: a run of digits up to the first other byte.
unfoldable pub scan_digits : Bool → ℕ → Bytes → Option ℕ
scan_digits seen n [] = if seen then some n else none
scan_digits seen n (c ∷ s) =
    let more = scan_digits true (n * 10 + (c - b'0')) s in
    if is_digit c then more else if seen then some n else none

-- within an int16
unfoldable pub int16_of : Bool → ℕ → Option ℤ
int16_of false n = if ltb n 32768 then some (pos n) else none
int16_of true n =
    if n == 0 then some (pos 0) else if leb n 32768 then some (negsuc (n - 1)) else none

abbrev to_int16 : Bool → Option ℕ → Option ℤ
to_int16 negative none = none
to_int16 negative (some n) = int16_of negative n

-- `fmt.Sscanf(pct, "%d", &v)` with an int16, on a text without leading space
unfoldable pub scan_int16 : Bytes → Option ℤ
unfolding scan_digits int16_of
scan_int16 [] = none
scan_int16 (c ∷ s) =
    if c == b'-'
    then to_int16 true (scan_digits false 0 s)
    else if c == b'+'
    then to_int16 false (scan_digits false 0 s)
    else to_int16 false (scan_digits false 0 (c ∷ s))

unfoldable pub parse_pct : Bytes → Option ℤ
unfolding scan_int16
parse_pct s = let t = trim_space s in if is_empty t then none else scan_int16 t

unfoldable pub reason_of : Bytes → Option Bytes
reason_of reasons = if is_empty reasons then none else opt_str reasons 255

abbrev pub domain_of : Option AuthResult → Option Bytes
domain_of none = none
domain_of (some a) = opt_str a.domain 255

module _ (cs : Casing) where
  -- the `if d := …; d != ""` around `rec.Disposition`
  unfoldable pub disposition_of : Bytes → Option Bytes
  disposition_of s =
      let d = cs.to_lower (trim_space s) in
      if is_empty d then none else some (normalize cs d dispositions)

  abbrev pub result_of : List Bytes → Option AuthResult → Option Bytes
  result_of allowed none = none
  result_of allowed (some a) = some (normalize cs a.result allowed)

module _ (cs : Casing) (net : Net) where
  -- one round of the loop over `fb.Records`
  unfoldable pub parse_record : XmlRecord → Record
  unfolding disposition_of reason_of
  parse_record x =
      let (v4, v6) = columns (net.parse_ip (trim_space x.source_ip)) in
      record {
        ipv4 = v4;
        ipv6 = v6;
        count = x.count;
        disposition = disposition_of cs x.disposition;
        reason = reason_of (join_reasons x.reasons);
        dkim_domain = domain_of (pick_auth cs x.auth_dkim);
        dkim_result = result_of cs dkim_results (pick_auth cs x.auth_dkim);
        spf_domain = domain_of (pick_auth cs x.auth_spf);
        spf_result = result_of cs spf_results (pick_auth cs x.auth_spf);
        spf_align = normalize cs x.spf aligns;
        dkim_align = normalize cs x.dkim aligns;
        header_from = opt_str x.header_from 255;
        dkim_all = x.auth_dkim;
        spf_all = x.auth_spf;
      }

  unfoldable pub build_report : Bytes → Feedback → Report
  unfolding parse_record
  build_report doc fb = record {
    org = trunc fb.org_name 255;
    email = opt_str fb.email 255;
    extra_contact = opt_str fb.extra_contact_info 255;
    report_id = trunc fb.report_id 255;
    begin = fb.begin;
    end = fb.end;
    domain = trunc fb.domain 255;
    adkim = opt_str fb.adkim 20;
    aspf = opt_str fb.aspf 20;
    p = opt_str fb.p 20;
    sp = opt_str fb.sp 20;
    pct = parse_pct fb.pct;
    raw_xml = doc;
    records = map parse_record fb.records;
  }

  -- the checks behind the decoder
  unfoldable pub accept : Bytes → Option Feedback → Result ParseError Report
  unfolding build_report
  accept doc none = err decode_xml
  accept doc (some fb) =
      if is_empty fb.domain || is_empty fb.report_id
      then err missing_fields
      else ok (build_report doc fb)

  unfoldable pub parse_xml : (Bytes → Option Feedback) → Bytes → Result ParseError Report
  unfolding accept
  parse_xml decode doc = accept doc (decode doc)
