-- ===== src/Storage.antt =====
-- storage: the interface of a blob store, content keys, the pages of keys, the store in memory, and
-- the summaries of what a store holds.
pub mod Blobs
pub mod Hash
pub mod Keys
pub mod Page
pub mod Memory
pub mod Walk
pub mod Inventory
pub mod Integrity
