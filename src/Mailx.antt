-- ===== src/Mailx.antt =====
-- parser/internal/mailx/mailx.go: what a mail holds. The MIME reader is a parameter that delivers the
-- parts of a message one after the other, then the end of the file.
pub mod Collected
use dmarcparser.Base.{
  if◌then◌else◌, is_empty, Result, ok, err, ◌>>=◌, Bool, ◌&&◌, ◌||◌, Option, none, some, List, [],
  ◌∷◌, ◌++◌,
}
use dmarcparser.Report.Payload.{
  aggregate, tlsrpt, TypedPayload, Stream, Archives, ExpandError, max_decompressed, read_limited,
  aggregates_of, expand_typed,
}
use dmarcparser.Text.{Bytes, codes, beq, trim_space, split}
use dmarcparser.Unicode.{Casing}

pub record ForensicParts : Type 0 where
  pub feedback : Bytes
  pub original : Option Bytes

pub record Payloads : Type 0 where
  pub aggregates : List Bytes
  pub tls_reports : List Bytes
  pub forensic : List ForensicParts

pub data MailError : Type 0 where
  read_message bad_part read_part : MailError
  expand : ExpandError → MailError

-- What `NextPart` delivers: an error, or a part with its `Content-Type` and its body.
pub data Part : Type 0 where
  malformed : Part
  part : Bytes → Stream → Part

-- `mail.CreateReader` with `NextPart`, and `mime.ParseMediaType`
pub record Mime : Type 0 where
  pub open_mail : Bytes → Option (List Part)
  pub parse_media_type : Bytes → Option Bytes

abbrev pub no_payloads : Payloads
no_payloads = record { aggregates = []; tls_reports = []; forensic = [] }

unfoldable pub has_none : Payloads → Bool
has_none p = is_empty p.aggregates && (is_empty p.tls_reports && is_empty p.forensic)

-- `keep`: the first error is kept
unfoldable pub keep : MailError → Option MailError → Option MailError
keep e none = some e
keep e (some first) = some first

-- the original message goes to the first entry that lacks one
unfoldable pub attach : Bytes → List ForensicParts → List ForensicParts
attach original [] = []
attach original (f ∷ fs) = elim f.original [
  | none ↦ record f { original = some original } ∷ fs
  | some o ↦ f ∷ attach original fs
]

abbrev pub tls_of : List TypedPayload → List Bytes
tls_of [] = []
tls_of (p ∷ ps) = elim p.kind [ aggregate ↦ tls_of ps | tlsrpt ↦ p.content ∷ tls_of ps ]

unfoldable pub add_docs : List TypedPayload → Payloads → Payloads
add_docs docs out = record out {
  aggregates = out.aggregates ++ aggregates_of docs;
  tls_reports = out.tls_reports ++ tls_of docs;
}

abbrev pub first_part : List Bytes → Bytes
first_part [] = []
first_part (p ∷ ps) = p

abbrev pub State : Type 0
State = Payloads × Option MailError

module _ (cs : Casing) (mime : Mime) (ar : Archives) where
  unfoldable pub part_media_type : Bytes → Bytes
  part_media_type ct = elim (mime.parse_media_type ct) [
    | none ↦ cs.to_lower (trim_space (first_part (split b';' ct)))
    | some mt ↦ mt
  ]

  -- everything else that sniffs as a report
  unfoldable pub expand_part : Bytes → State → State
  unfolding add_docs keep
  expand_part body (out, first) = elim (expand_typed ar body) [
    | ok docs ↦ (add_docs docs out, first)
    | err e ↦ (out, keep (expand e) first)
  ]

  -- the `switch` on the media type
  unfoldable pub take_body : Bytes → Bytes → State → State
  unfolding expand_part attach
  take_body mt body (out, first) =
      if beq mt (codes "message/feedback-report")
      then (
        record out {
          forensic = out.forensic ++ (record { feedback = body; original = none } ∷ []);
        },
        first,
      )
      else if beq mt (codes "message/rfc822") || beq mt (codes "text/rfc822-headers")
      then (record out { forensic = attach body out.forensic }, first)
      else expand_part body (out, first)

  -- behind the reading of the body
  unfoldable pub take_read : Bytes → Option Bytes → State → State
  unfolding take_body keep
  take_read mt none (out, first) = (out, keep read_part first)
  take_read mt (some b) s = take_body mt b s

  -- one round of the loop
  unfoldable pub take_part : Part → State → State
  unfolding take_read part_media_type keep
  take_part malformed (out, first) = (out, keep bad_part first)
  take_part (part ct body) s = take_read (part_media_type ct) (read_limited max_decompressed body) s

  -- The loop, over the answers of the reader up to `io.EOF`. A reader that never comes to it, so that the
  -- loop does not end, has no such list.
  unfoldable pub take_parts : List Part → State → State
  unfolding take_part
  take_parts [] s = s
  take_parts (p ∷ ps) s = take_parts ps (take_part p s)

  -- an error only where nothing was found
  unfoldable pub conclude : State → Result MailError Payloads
  unfolding has_none
  conclude (out, none) = ok out
  conclude (out, some e) = if has_none out then err e else ok out

  unfoldable pub extract_payloads : Bytes → Result MailError Payloads
  unfolding take_parts conclude
  extract_payloads raw = elim (mime.open_mail raw) [
    | none ↦ err read_message
    | some parts ↦ conclude (take_parts parts (no_payloads, none))
  ]

  unfoldable pub extract_reports : Bytes → Result MailError (List Bytes)
  unfolding extract_payloads
  extract_reports raw = do p ← extract_payloads raw; ok p.aggregates
