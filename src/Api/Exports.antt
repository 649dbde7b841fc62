-- ===== src/Api/Exports.antt =====
-- `export` and `rawReport` of parser/internal/api/api_platform.go, and `readIngestBody` of api.go.
use dmarcparser.Api.Reports.{
  Parsers, ReadAnswer, bad_number, not_found, read_db_error, read_ok, parse_time,
}
use dmarcparser.Base.{
  is_empty, if◌then◌else◌, Result, ok, err, Bool, ◌||◌, Option, none, some, List, [], ◌∷◌,
}
use dmarcparser.Base.Int.{pos, negsuc}
use dmarcparser.Export.{HostOf, Filter, Printers, Faults, StreamEnd, stream, raw_xml}
use dmarcparser.Store.Reports.{Tables}
use dmarcparser.Text.{Bytes, codes, beq}

pub data ExportAnswer : Type 0 where
  export_bad_format export_bad_since export_bad_until : ExportAnswer
  -- the answer has begun: an error only ends it
  export_streamed : StreamEnd → ExportAnswer

pub record ExportQuery : Type 0 where
  pub eq_format : Bytes
  pub eq_domain : Bytes
  pub eq_org : Bytes
  pub eq_since : Bytes
  pub eq_until : Bytes

abbrev pub or_export : {A : Type 0} → ExportAnswer → Option A → (A → ExportAnswer) → ExportAnswer
or_export bad none next = bad
or_export bad (some a) next = next a

abbrev pub export_format : Bytes → Option Bytes
export_format s =
    if is_empty s || beq s (codes "csv")
    then some (codes "csv")
    else if beq s (codes "jsonl")
    then some (codes "jsonl")
    else none

module _ (ps : Parsers) where
  -- `export`
  unfoldable pub export_request : HostOf → Printers → Faults → ExportQuery → Tables → ExportAnswer
  unfolding parse_time stream
  export_request host pr fa q t = or_export export_bad_format (export_format q.eq_format) (λ name.
      or_export export_bad_since (parse_time ps q.eq_since) (λ since.
        or_export export_bad_until (parse_time ps q.eq_until) (λ until.
          let f : Filter = record {
            domain = q.eq_domain;
            org = q.eq_org;
            since = since;
            until = until;
          } in
          export_streamed (stream host pr fa name f t))))

  abbrev pub raw_answer : Bool → Option Bytes → ReadAnswer Bytes
  raw_answer fails none = if fails then read_db_error else not_found
  raw_answer fails (some xml) = if fails then read_db_error else read_ok xml

  -- `rawReport`; no row has a negative serial
  unfoldable pub raw_request : Bool → Bytes → Tables → ReadAnswer Bytes
  unfolding raw_xml
  raw_request fails serial t = elim (ps.atoi serial) [
    | none ↦ bad_number
    | some (negsuc n) ↦ raw_answer fails none
    | some (pos n) ↦ raw_answer fails (raw_xml n t)
  ]

-- What the request holds: a form, or a body. The readers of `net/http` and `io` give it.
pub data RequestBody : Type 0 where
  -- the files of the form, in the order in which the map gives them
  form : Option (List (Option Bytes)) → RequestBody
  plain_body : Option Bytes → RequestBody

pub data BodyError : Type 0 where
  body_unreadable body_missing : BodyError

abbrev pub first_file : List (Option Bytes) → Result BodyError Bytes
first_file [] = err body_missing
first_file (none ∷ files) = err body_unreadable
first_file (some b ∷ files) = ok b

-- `readIngestBody`
unfoldable pub read_ingest_body : RequestBody → Result BodyError Bytes
read_ingest_body (form none) = err body_unreadable
read_ingest_body (form (some files)) = first_file files
read_ingest_body (plain_body none) = err body_unreadable
read_ingest_body (plain_body (some [])) = err body_missing
read_ingest_body (plain_body (some (c ∷ cs))) = ok (c ∷ cs)
