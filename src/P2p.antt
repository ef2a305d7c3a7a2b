-- ===== src/P2p.antt =====
-- p2p: the frames of the wire and the handshake of two peers.
pub mod Frame
pub mod Capabilities
pub mod Handshake
