-- ===== src/Report.antt =====
-- parser/internal/report/report.go: the XML wire format as the decoder fills it, and the parsed
-- report. A pointer to a string or a number is an `Option`; an int64 is a `ℤ` in range.
pub mod Fields
pub mod Address
pub mod Parse
pub mod Payload
pub mod Packing
pub mod Allowed
pub mod Chosen
pub mod Documents
use dmarcparser.Base.{ℕ, Option, List}
use dmarcparser.Base.Int.{ℤ}
use dmarcparser.Text.{Bytes}

-- one `auth_results` entry
pub record AuthResult : Type 0 where
  pub domain : Bytes
  pub selector : Bytes
  pub result : Bytes

pub record XmlReason : Type 0 where
  pub kind : Bytes
  pub comment : Bytes

-- `xmlRecord`, with its nested structs written flat
pub record XmlRecord : Type 0 where
  pub source_ip : Bytes
  pub count : ℤ
  pub disposition : Bytes
  pub dkim : Bytes
  pub spf : Bytes
  pub reasons : List XmlReason
  pub header_from : Bytes
  pub auth_dkim : List AuthResult
  pub auth_spf : List AuthResult

-- `feedback`, with its nested structs written flat
pub record Feedback : Type 0 where
  pub org_name : Bytes
  pub email : Bytes
  pub extra_contact_info : Bytes
  pub report_id : Bytes
  pub begin : ℤ
  pub end : ℤ
  pub domain : Bytes
  pub adkim : Bytes
  pub aspf : Bytes
  pub p : Bytes
  pub sp : Bytes
  pub pct : Bytes
  pub records : List XmlRecord

pub record Record : Type 0 where
  pub ipv4 : Option ℕ
  pub ipv6 : Option Bytes
  pub count : ℤ
  pub disposition : Option Bytes
  pub reason : Option Bytes
  pub dkim_domain : Option Bytes
  pub dkim_result : Option Bytes
  pub spf_domain : Option Bytes
  pub spf_result : Option Bytes
  pub spf_align : Bytes
  pub dkim_align : Bytes
  pub header_from : Option Bytes
  pub dkim_all : List AuthResult
  pub spf_all : List AuthResult

-- `begin` and `end` are Unix seconds
pub record Report : Type 0 where
  pub org : Bytes
  pub email : Option Bytes
  pub extra_contact : Option Bytes
  pub report_id : Bytes
  pub begin : ℤ
  pub end : ℤ
  pub domain : Bytes
  pub adkim : Option Bytes
  pub aspf : Option Bytes
  pub p : Option Bytes
  pub sp : Option Bytes
  pub pct : Option ℤ
  pub raw_xml : Bytes
  pub records : List Record
