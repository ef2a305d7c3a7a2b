-- ===== src/Examples.antt =====
-- Concrete runs, and each theorem at a concrete input.
pub mod Codec
pub mod Samples
mod StdRuns
mod StoreRuns
mod JournalRuns
mod CompactionRuns
mod StateCodec
mod StateRuns
mod RepairCodec
mod RepairRuns
mod TransportRuns
pub mod Replica
pub mod ApplierRuns
mod SessionRuns
mod StorageRuns
pub mod Texts
mod P2pRuns
pub mod ReplicationRuns
mod DaemonRuns
