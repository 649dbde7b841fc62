-- ===== src/Lib.antt =====
-- A model of dmarcparser, the service that collects DMARC aggregate reports, SMTP TLS reports and
-- DMARC failure reports from a mailbox and stores them in PostgreSQL.
--
-- The poller (parser/internal/poller/poller.go) fetches unseen mail, `mailx` takes the report
-- documents out of it, `report`, `tlsrpt` and `forensic` parse them, `store` saves them, and
-- `pipeline` calls the observers of a new report: `rollup` counts per day and domain, `enrich` keeps
-- the sources and reports new senders and anomalies, `selectors` keeps the DKIM results. `webhook`
-- delivers the events, `digest` mails weekly summaries, `watchdog` and `retention` run beside them, and
-- `api` serves the requests, which `audit` records. Files here and the code they model:
--   Report, Report/Fields, Report/Address, Report/Parse: parser/internal/report/report.go (`ParseXML`
--     and its helpers) and `renderIP` of parser/internal/store/store.go; proofs in Report/Packing,
--     Report/Allowed and Report/Chosen
--   Report/Payload: parser/internal/report/payload.go; proofs in Report/Documents
--   Mailx: parser/internal/mailx/mailx.go (`ExtractPayloads`); proofs in Mailx/Collected
--   TlsReport: parser/internal/tlsrpt/tlsrpt.go
--   Forensic, Forensic/Redact: parser/internal/forensic/forensic.go
--   Store/Reports: `SaveReport` and `LastIngestAt` of parser/internal/store/store.go; proofs in
--     Store/Atomic and Store/Unique
--   Store/TlsReports: parser/internal/store/store_reports2.go (`SaveTLSRPT`, `SaveForensic`)
--   Pipeline: parser/internal/pipeline/pipeline.go
--   Poller, Poller/Cycle: parser/internal/poller/poller.go (`processMail`, `cycle`, `Run`, `Status`);
--     proofs in Poller/Tallied, Poller/Outcomes, Poller/Counts, Poller/Filed and
--     Poller/Total
--   Config: parser/internal/config/config.go (API keys, lists, the weekday); proofs in Config/Usable
--     and Config/Granted. Config/Load: `Load`; proofs in Config/Load/Valid
--   Webhook: parser/internal/webhook/webhook.go, `InsertWebhookDeadletter` of store/store.go; proofs
--     in Webhook/Delivery
--   Watchdog: parser/internal/watchdog/watchdog.go, `AlertLastFired` and `MarkAlertFired` of
--     store/store.go; proofs in Watchdog/Quiet
--   Retention: parser/internal/retention/retention.go; proofs in Retention/Purged. The loop of
--     `purgeRawXML` runs on the number of due rows plus one as fuel, and is proved to end within it
--   Api: parser/internal/api/api.go (`auth`, `matchKey`, `RequireScope`, `ingest`); proofs in
--     Api/Guarded and Api/Counted
--   Selectors: parser/internal/selectors/selectors.go, `DKIMAuthEntries` and `SaveDKIMAuth` of
--     parser/internal/store/store_reports2.go; proofs in Selectors/Rewritten. Selectors/Backfill: its
--     `Backfill` and `ReportRawXMLBatch` of store_reports2.go, on the number of documents plus one as
--     fuel; proofs in Selectors/Backfill/Keyset and Selectors/Backfill/Resaved
--   Store/Alerts: `AlertLastFired` and `MarkAlertFired` of parser/internal/store/store.go. Store/Refined
--     and Store/Complete: proofs about Store/Reports. Store/Listed: `ListReports`, `GetReport` and
--     `Totals` of store/store.go; proofs in Store/Listed/Sorted and Store/Listed/Listing
--   Store/Sources: the tables `domain_source` and `ip_meta` of parser/internal/store/store_intel.go;
--     proofs in Store/Sources/Known
--   Rollup: parser/internal/rollup/rollup.go; proofs in Rollup/Bounded and Rollup/Rebuilt
--   Enrich: parser/internal/enrich/observer.go, `Enqueue` of enrich/enrich.go and `DomainDayFailStats` of
--     store/store_intel.go; proofs in Enrich/Announced and Enrich/Anomaly. Enrich/Worker: `process` and
--     `worker` of enrich/enrich.go, enrich/classify.go and enrich/cymru.go; proofs in Enrich/Worker/Fresh
--   Digest: parser/internal/digest/digest.go, the subscriptions in Digest/Subscriptions; proofs in
--     Digest/Pages and Digest/Once
--   Audit: parser/internal/audit/audit.go
--   Api/Platform: parser/internal/api/api_platform.go (requeue, replay, subscriptions); proofs in
--     Api/Platform/Replayed, Api/Platform/Requeued and Api/Platform/Subscribed
--   Api/Reports: the read handlers of parser/internal/api/api.go and `ackSource` of api/api_intel.go;
--     proofs in Api/Reports/Bounded
--   Export: parser/internal/export/export.go; proofs in Export/Streamed, Export/Flushed, Export/Complete
--     and Export/Raw
--   Stats and the files under it: parser/internal/store/store_stats.go. Stats: SQL grouping and sorting,
--     proofs in Stats/Grouped; Stats/Health: `ComputeHealth`; Stats/Domains:
--     `DomainHealthInputs`, with `ListDomains` in Stats/Domains/Overview, proofs in Stats/Domains/Rows,
--     Found and Agreed; Stats/Readiness:
--     `DomainReadiness` and `Recommend`, proofs in Stats/Readiness/Advances; Stats/Series:
--     `StatsTimeseries`, proofs in Stats/Series/Totals; Stats/Top: `StatsTop`
--   Api/Stats: parser/internal/api/api_stats.go; proofs in Api/Stats/Scores
--   Store/TlsListed: `ListTLSRPT`, `GetTLSRPT`, `ListForensic` and `GetForensic` of store_reports2.go;
--     proofs in Store/TlsListed/Rows and Read. Selectors/Inventory: its `DomainSelectors`
--   Api/Lists: parser/internal/api/api_reports2.go. Api/Exports: `export` and `rawReport` of
--     api/api_platform.go and `readIngestBody` of api/api.go
--   Store/Sources/Listed: `ListSources`, `DomainSources` and `IPDomainSources` of store_intel.go; proofs in
--     Store/Sources/Reviewed. Api/Sources: `listSources` and `domainSources` of api/api_intel.go
--   Enrich/Sweep: a round of `sweep` of enrich/enrich.go with `UnenrichedIPs`. Api/Ips: `getIP` of
--     api/api_intel.go, with `IPReportActivity`
--   Base, Text, Unicode: shared helpers: lists, results, signed and wrapping integers, and the
--     functions of `strings` and `bytes` that the code calls
--   Tests: concrete inputs, runs of the code, and the theorems applied to them
--
-- Texts and documents are lists of bytes (`Bytes`). A Go error is a `Result` with one constructor
-- for each place that returns one. The state of the process and of the database is a record that the
-- operations take and return; a failing statement is an answer of a parameter, so a theorem that
-- quantifies over it speaks of every failure at every point. int64 sums wrap around at 2 ^ 64.
--
-- Parameters, since their code is not in the repository: the XML and JSON decoders, the MIME reader,
-- the zip and gzip readers (as streams that end or break), `net.ParseIP`, the Unicode case tables
-- (with their agreement with ASCII), the header reader of `net/textproto`, the date and address
-- parsers of `net/mail`, the answers of the IMAP, SMTP and DNS servers and of the webhook endpoints,
-- floating-point numbers, the printing of dates, clocks, and which SQL statements fail. The data and the
-- page of a digest are a parameter as well: SQL for display and an HTML template. PostgreSQL is
-- modelled as the tables, with the unique keys and the sequences that the statements rely on; a
-- transaction replaces the tables at its commit. What a failing IMAP command leaves in the mailboxes, and
-- whether an SMTP server that fails to close DATA has accepted the mail, are parameters too.
--
-- All loops are structural, so no fuel is needed, except where a file says otherwise. The loop over the
-- parts of a mail runs over the answers of the MIME reader up to `io.EOF`: a reader that answers with
-- errors for ever, with which the code's loop does not end, is not modelled.
--
-- Not modelled: logging, the HTTP transport, the texts of health details and blockers, the
-- digest's HTML, the schema and the start of the process.
mod Base
mod Text
mod Unicode
pub mod Report
pub mod Store
pub mod Mailx
pub mod Pipeline
pub mod TlsReport
pub mod Forensic
pub mod Poller
pub mod Config
pub mod Webhook
pub mod Retention
pub mod Watchdog
pub mod Api
pub mod Selectors
pub mod Rollup
pub mod Enrich
pub mod Digest
pub mod Audit
pub mod Export
pub mod Stats
mod Tests
