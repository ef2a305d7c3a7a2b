-- ===== src/Lifecycle.antt =====
-- internal/lifecycle: logical records, their store, the journal and its repair.
pub mod Version
pub mod Records
pub mod Store
pub mod Envelope
pub mod JournalFile
pub mod Checkpoints
pub mod Journal
pub mod StateFile
pub mod Authority
pub mod Watermarks
pub mod Membership
pub mod Repair
pub mod Transport
pub mod Applier
pub mod Session
