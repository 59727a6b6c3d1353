-- ===== src/Av1.antt =====
-- The AV1 RTP payload format of src/rtp.c: packetizer, depacketizer and reorder buffer.
pub mod Obu
pub mod Packetize
pub mod Depay
pub mod Elements
pub mod Chunks
pub mod Loop
pub mod Simulation
pub mod Packet
pub mod Deliver
pub mod Parse
pub mod RoundTrip
pub mod Safety
pub mod Join
pub mod Reorder
pub mod Found
pub mod Stored
pub mod Wire
pub mod Runs
mod Tests
