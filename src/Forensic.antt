-- ===== src/Forensic.antt =====
-- parser/internal/forensic/forensic.go: failure reports (AFRF), and the redaction of recipients.
pub mod Redact
use dmarcparser.Base.{
  ltb, if◌then◌else◌, length, take, is_empty, Result, ok, err, ℕ, Bool, ◌&&◌, Option, none, some,
  List, [], ◌∷◌, ◌++◌, reverse,
}
use dmarcparser.Base.Int.{ℤ}
use dmarcparser.Forensic.Redact.{redact_recipients}
use dmarcparser.Text.{Bytes, codes, beq, is_some, has_prefix, trim_left, trim_space}
use dmarcparser.Unicode.{Casing}
use mathlib.Core.Option
use dmarcparser.Report.Fields.{non_empty}

pub record ForensicReport : Type 0 where
  pub feedback_type : Option Bytes
  pub auth_failure : Option Bytes
  pub source_ip : Option Bytes
  pub reported_domain : Option Bytes
  pub original_mail_from : Option Bytes
  pub arrival_date : Option ℤ
  pub subject : Option Bytes
  pub message_id : Option Bytes
  pub header_from : Option Bytes
  pub raw_headers : Option Bytes

pub data ForensicError : Type 0 where
  unreadable_fields missing_feedback_type : ForensicError

-- The packages `net/textproto`, `net/mail` and `net`: a header block is read into fields with
-- canonical names, up to the first bad line, which makes the reading fail.
pub record MailText : Type 0 where
  pub read_mime_header : Bytes → List (Bytes × Bytes) × Bool
  pub parse_date : Bytes → Option ℤ
  pub parse_address : Bytes → Option Bytes
  pub canonical_ip : Bytes → Option Bytes

-- `opt`: 0 stands for no limit
unfoldable pub opt : Bytes → ℕ → Option Bytes
opt s n = let t = trim_space s in non_empty (if ltb 0 n && ltb n (length t) then take n t else t)

abbrev drop_angles : Bytes → Bytes
drop_angles = trim_left ((b'<' ∷ []) ∷ (b'>' ∷ []) ∷ [])

-- `strings.Trim(strings.TrimSpace(s), "<>")`
unfoldable pub strip_angles : Bytes → Bytes
strip_angles s = reverse (drop_angles (reverse (drop_angles (trim_space s))))

-- `bytes.Index`, as the text before the first occurrence
unfoldable pub before : Bytes → Bytes → Option Bytes
before sep [] = if is_empty sep then some [] else none
before sep (c ∷ s) =
    let rest = before sep s in if has_prefix (c ∷ s) sep then some [] else Option.map (◌∷◌ c) rest

-- `headerBlockOf`
unfoldable pub header_block_of : Bytes → Bytes
unfolding before
header_block_of raw = elim (before (13 ∷ 10 ∷ 13 ∷ 10 ∷ []) raw) [
  | some h ↦ h
  | none ↦ elim (before (10 ∷ 10 ∷ []) raw) [ some h ↦ h | none ↦ raw ]
]

-- `Get`: the first field of that name, or the empty string
unfoldable pub get_field : Bytes → List (Bytes × Bytes) → Bytes
get_field name [] = []
get_field name ((k, v) ∷ fs) = if beq k name then v else get_field name fs

module _ (cs : Casing) (mt : MailText) where
  -- `readHeaderBlock`: line ends are cut off and one blank line is put back
  unfoldable pub read_header_block : Bytes → Option (List (Bytes × Bytes))
  read_header_block b =
      let ends = (13 ∷ []) ∷ (10 ∷ []) ∷ [] in
      let body = reverse (trim_left ends (reverse b)) in
      let (fields, bad) = mt.read_mime_header (body ++ (13 ∷ 10 ∷ 13 ∷ 10 ∷ [])) in
      if bad && is_empty fields then none else some fields

  -- `parseSourceIP`, with the empty string left out
  unfoldable pub parse_source_ip : Bytes → Option Bytes
  parse_source_ip s = mt.canonical_ip (trim_space s)

  abbrev from_of : List (Bytes × Bytes) → Option Bytes
  from_of oh = elim (mt.parse_address (get_field (codes "From") oh)) [
    | some a ↦ opt a 255
    | none ↦ opt (get_field (codes "From") oh) 255
  ]

  -- what the header block of the original message adds
  unfoldable pub with_headers : Bytes → ForensicReport → ForensicReport
  unfolding read_header_block opt get_field
  with_headers block r =
      let r' = record r { raw_headers = opt block 0 } in
      elim (read_header_block block) [
        | none ↦ r'
        | some oh ↦ record r' {
          subject = opt (get_field (codes "Subject") oh) 0;
          message_id = opt (get_field (codes "Message-Id") oh) 0;
          header_from = from_of oh;
        }
      ]

  unfoldable pub with_original : Bytes → Bool → ForensicReport → ForensicReport
  unfolding with_headers
  with_original [] redact r = r
  with_original (c ∷ s) redact r =
      let block = header_block_of (c ∷ s) in
      with_headers (if redact then redact_recipients cs block else block) r

  unfoldable pub from_feedback : List (Bytes × Bytes) → ForensicReport
  unfolding get_field opt strip_angles parse_source_ip
  from_feedback fb = record {
    feedback_type = opt (get_field (codes "Feedback-Type") fb) 0;
    auth_failure = opt (get_field (codes "Auth-Failure") fb) 0;
    source_ip = parse_source_ip (get_field (codes "Source-Ip") fb);
    reported_domain = opt (get_field (codes "Reported-Domain") fb) 255;
    original_mail_from = opt (strip_angles (get_field (codes "Original-Mail-From") fb)) 0;
    arrival_date = mt.parse_date (trim_space (get_field (codes "Arrival-Date") fb));
    subject = none;
    message_id = none;
    header_from = none;
    raw_headers = none;
  }

  unfoldable pub parse_forensic : Bytes → Bytes → Bool → Result ForensicError ForensicReport
  unfolding from_feedback with_original
  parse_forensic feedback original redact = elim (read_header_block feedback) [
    | none ↦ err unreadable_fields
    | some fb ↦
        if is_some (from_feedback fb).feedback_type
        then ok (with_original original redact (from_feedback fb))
        else err missing_feedback_type
  ]
