-- ===== src/Replication.antt =====
-- replication: the messages that move blobs between peers.
pub mod Protocol
