-- ===== src/Peer.antt =====
-- The peer connection (src/peer_connection.h, src/peer_connection.c).
pub mod Feedback
pub mod Compound
pub mod State
pub mod Loop
pub mod History
pub mod Transitions
pub mod Calls
pub mod Runs
pub mod Keepalive
pub mod Media
pub mod AudioPath
pub mod Tests
mod RunsTests
pub mod Create
