-- ===== src/Lifecycle/Journal.antt =====
-- internal/lifecycle/journal.go: the open journal, `OpenJournal`, `Append`, `Records`, `Replay`,
-- `Compact` and `InstallSnapshot`. A method holds the journal's lock, so it is one function; it
-- returns its error, the journal, and what the disk holds. The operating system answers each call
-- of a method with an outcome that the method is given.
pub mod Files
pub mod Open
pub mod Append
pub mod Rewrite
pub mod Compaction
