-- ===== src/Daemon.antt =====
-- The root package: what the daemon does around the packages.
pub mod Inventory
