-- ===== src/TlsReport.antt =====
-- parser/internal/tlsrpt/tlsrpt.go. The JSON decoder is a parameter; times are Unix seconds.
use dmarcparser.Base.{
  if◌then◌else◌, is_empty, Result, ok, err, ◌||◌, Option, none, some, List, [], ◌∷◌,
}
use dmarcparser.Base.Int.{ℤ}
use dmarcparser.Text.{Bytes, has_prefix, trim_space}

pub record FailureDetail : Type 0 where
  pub result_type : Bytes
  pub sending_mta_ip : Bytes
  pub receiving_mx_hostname : Bytes
  pub receiving_mx_helo : Bytes
  pub receiving_ip : Bytes
  pub failed_session_count : ℤ
  pub additional_information : Bytes
  pub failure_reason_code : Bytes

-- `PolicyResult`, with `Policy` and `Summary` written flat
pub record PolicyResult : Type 0 where
  pub policy_type : Bytes
  pub policy_string : List Bytes
  pub policy_domain : Bytes
  pub mx_host : List Bytes
  pub total_success : ℤ
  pub total_failure : ℤ
  pub failure_details : List FailureDetail

-- `Report`, with `DateRange` written flat
pub record TlsReport : Type 0 where
  pub organization_name : Bytes
  pub date_start : Option ℤ
  pub date_end : Option ℤ
  pub contact_info : Bytes
  pub report_id : Bytes
  pub policies : List PolicyResult

pub data TlsError : Type 0 where
  decode_json missing_identity : TlsError

-- `encoding/json` for a string and for an array of strings
pub record Json : Type 0 where
  pub read_string : Bytes → Option Bytes
  pub read_strings : Bytes → Option (List Bytes)

-- `StringList.UnmarshalJSON`: a string alone stands for a list of one
unfoldable pub unmarshal_list : Json → Bytes → Option (List Bytes)
unmarshal_list j b =
    if has_prefix b (b'"' ∷ [])
    then (elim (j.read_string b) [ none ↦ none | some one ↦ some (one ∷ []) ])
    else j.read_strings b

abbrev trimmed : TlsReport → TlsReport
trimmed r = record r {
  organization_name = trim_space r.organization_name;
  report_id = trim_space r.report_id;
}

-- the checks behind the decoder
unfoldable pub accept_tls : Option TlsReport → Result TlsError TlsReport
accept_tls none = err decode_json
accept_tls (some r) =
    if is_empty (trim_space r.organization_name) || is_empty (trim_space r.report_id)
    then err missing_identity
    else ok (trimmed r)

-- `Parse`
unfoldable pub parse_tls : (Bytes → Option TlsReport) → Bytes → Result TlsError TlsReport
unfolding accept_tls
parse_tls decode doc = accept_tls (decode doc)
