-- ===== src/Controller.antt =====
-- The DataExport controller: pkg/controllers/dataexport.
pub mod Flow
pub mod Update
pub mod Names
pub mod Refs
pub mod Snapshot
pub mod Secrets
pub mod Checks
pub mod Cleanup
pub mod LocalRestore
pub mod Transfer
pub mod Sync
pub mod Phases
pub mod Reconcile
