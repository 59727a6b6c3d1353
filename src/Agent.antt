-- ===== src/Agent.antt =====
-- The ICE agent (src/agent.h, src/agent.c).
pub mod State
pub mod Messages
pub mod Receive
pub mod Binding
pub mod Response
pub mod Handshake
pub mod Pairs
pub mod Check
pub mod GiveUp
pub mod Completes
pub mod Tests
