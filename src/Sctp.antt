-- ===== src/Sctp.antt =====
-- SCTP and data channels (src/sctp.h, src/sctp.c), as built without usrsctp.
pub mod Checksum
pub mod State
pub mod Send
pub mod Receive
pub mod Streams
pub mod Sum
pub mod Wire
pub mod Answer
pub mod Data
pub mod Fragments
pub mod Transfer
pub mod Arrive
pub mod Handshake
pub mod Places
pub mod Rounds
pub mod Endless
pub mod Labels
pub mod Channels
pub mod Tests
