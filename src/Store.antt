-- ===== src/Store.antt =====
-- parser/internal/store: the tables of the database, one state per family of tables, and the
-- operations that write them. Any statement may fail: an operation is given which ones do.
pub mod Reports
pub mod TlsReports
pub mod Atomic
pub mod Alerts
pub mod Unique
pub mod Complete
pub mod Refined
pub mod Sources
pub mod Listed
pub mod TlsListed
