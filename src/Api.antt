-- ===== src/Api.antt =====
-- parser/internal/api/api.go: authentication, scopes and the ingest handler. The hash of keys, the
-- rate limiters and the reader of request bodies are parameters.
pub mod Guarded
pub mod Counted
pub mod Platform
pub mod Stats
pub mod Lists
pub mod Sources
pub mod Ips
pub mod Exports
pub mod Reports
use dmarcparser.Base.{
  if◌then◌else◌, is_empty, Result, ok, err, ◌>>=◌, ℕ, ◌+◌, Bool, false, not, ◌&&◌, ◌||◌, Option,
  none, some, List, [], ◌∷◌, ◌++◌,
}
use dmarcparser.Base.Int.{ℤ}
use dmarcparser.Config.{Scopes, ApiKey}
use dmarcparser.Poller.{World, Env}
use dmarcparser.Report.{Report}
use dmarcparser.Report.Parse.{ParseError}
use dmarcparser.Report.Payload.{Archives, ExpandError, expand_payload}
use dmarcparser.Store.Reports.{Tables, SaveResult, StoreError, save_report}
use dmarcparser.Text.{Bytes, codes, beq, strip_prefix, is_some}

-- the answers that do not come from a handler, and those of `ingest`
pub data Response : Type 0 where
  unavailable unauthorized too_many forbidden : Response
  unreadable_body unreadable_payload no_report parse_error storage_error : Response

-- `X-API-Key`, or what stands behind `Bearer ` in `Authorization`
unfoldable pub presented_key : Bytes → Bytes → Bytes
presented_key [] authorization = elim (strip_prefix (codes "Bearer ") authorization) [
  | none ↦ authorization
  | some key ↦ key
]
presented_key (c ∷ x) authorization = c ∷ x

module _ (digest : Bytes → Bytes) where
  -- the loop of `matchKey`: every key is compared, the first that agrees is kept
  unfoldable pub match_loop : Bytes → List ApiKey → Option ApiKey → Option ApiKey
  match_loop c [] found = found
  match_loop c (k ∷ ks) found =
      match_loop c ks
        (if beq (digest c) (digest k.key) && not (is_some found) then some k else found)

  unfoldable pub match_key : Bytes → List ApiKey → Option ApiKey
  unfolding match_loop
  match_key c keys = match_loop c keys none

  -- behind the match: `allows` tells whether the key's limiter, if any, lets the request pass
  unfoldable pub limit_rate : (Bytes → Bool) → Option ApiKey → Result Response ApiKey
  limit_rate allows none = err unauthorized
  limit_rate allows (some k) = if allows k.name then ok k else err too_many

  -- `auth`: the key whose name and scopes the handlers see
  unfoldable pub auth : (Bytes → Bool) → List ApiKey → Bytes → Result Response ApiKey
  unfolding match_key limit_rate
  auth allows keys key =
      if is_empty keys then err unavailable else limit_rate allows (match_key key keys)

-- the three groups of routes
pub data Scope : Type 0 where
  read_scope ingest_scope admin_scope : Scope

abbrev pub has_scope : Scope → Scopes → Bool
has_scope read_scope s = s.read
has_scope ingest_scope s = s.ingest
has_scope admin_scope s = s.admin

-- `RequireScope`
unfoldable pub require_scope : Scope → ApiKey → Result Response ApiKey
require_scope sc k = if has_scope sc k.scopes then ok k else err forbidden

-- what every route passes before its handler
unfoldable pub guarded :
    (Bytes → Bytes) → (Bytes → Bool) → List ApiKey → Scope → Bytes → Result Response ApiKey
unfolding auth require_scope
guarded digest allows keys sc key = do k ← auth digest allows keys key; require_scope sc k

pub record IngestResult : Type 0 where
  pub serial : ℕ
  pub domain : Bytes
  pub org : Bytes
  pub report_id : Bytes
  pub records : ℕ
  pub messages : ℤ
  pub duplicate : Bool

abbrev pub result_for : Report → SaveResult → IngestResult
result_for rep res = record {
  serial = res.serial;
  domain = rep.domain;
  org = rep.org;
  report_id = rep.report_id;
  records = res.records;
  messages = res.messages;
  duplicate = res.duplicate;
}

-- behind a successful `SaveReport`
unfoldable pub report_ingested : Report → SaveResult → World → World
report_ingested rep res w =
    let c = w.counters in
    if res.duplicate
    then record w { counters = record c { reports_duplicate = c.reports_duplicate + 1 } }
    else record w {
      counters = record c {
        reports_ingested = c.reports_ingested + 1;
        records_inserted = c.records_inserted + res.records;
      };
      emitted = w.emitted ++ (record { report = rep; result = res; source = codes "api" } ∷ []);
    }

-- the results so far, and `anyNew`
abbrev pub Ingested : Type 0
Ingested = List IngestResult × Bool

unfoldable pub note_result :
    Report
    → Ingested
    → Result StoreError SaveResult × Tables
    → World
    → Result Response Ingested × World
unfolding report_ingested
note_result rep (rs, any_new) (err e, t) w = (err storage_error, record w { tables = t })
note_result rep (rs, any_new) (ok res, t) w = (
  ok (rs ++ result_for rep res ∷ [], any_new || not res.duplicate),
  report_ingested rep res (record w { tables = t }),
)

-- the next document, unless the one before it has answered
unfoldable pub unless_answered :
    Result Response Ingested × World
    → (Ingested → World → Result Response Ingested × World)
    → Result Response Ingested × World
unless_answered (err e, w) next = (err e, w)
unless_answered (ok a, w) next = next a w

module _ (env : Env) where
  unfoldable pub ingest_doc :
      ℕ → Result ParseError Report → Ingested → World → Result Response Ingested × World
  unfolding note_result
  ingest_doc i (err e) a w = (err parse_error, w)
  ingest_doc i (ok rep) a w =
      note_result rep a (save_report (env.save_fails i) env.now env.store_raw_xml rep w.tables) w

  -- the loop over the documents
  unfoldable pub ingest_docs : ℕ → List Bytes → Ingested → World → Result Response Ingested × World
  unfolding ingest_doc unless_answered
  ingest_docs i [] a w = (ok a, w)
  ingest_docs i (d ∷ ds) a w =
      unless_answered (ingest_doc i (env.parse_report d) a w) (ingest_docs (i + 1) ds)

  -- behind `ExpandPayload`
  unfoldable pub ingest_payload :
      Result ExpandError (List Bytes) → World → Result Response Ingested × World
  unfolding ingest_docs
  ingest_payload (err e) w = (err unreadable_payload, w)
  ingest_payload (ok []) w = (err no_report, w)
  ingest_payload (ok (d ∷ ds)) w = ingest_docs 0 (d ∷ ds) ([], false) w

  -- `ingest`, on what `readIngestBody` returns: the results, and whether the status is 201
  unfoldable pub ingest : Archives → Option Bytes → World → Result Response Ingested × World
  unfolding ingest_payload
  ingest ar none w = (err unreadable_body, w)
  ingest ar (some body) w = ingest_payload (expand_payload ar body) w

-- the serials of the new reports, for the audit
unfoldable pub new_serials : List IngestResult → List ℕ
new_serials [] = []
new_serials (r ∷ rs) = let rest = new_serials rs in if r.duplicate then rest else r.serial ∷ rest
