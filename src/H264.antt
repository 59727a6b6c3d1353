-- ===== src/H264.antt =====
-- H.264 over RTP (src/rtp.c).
pub mod Encode
pub mod Decode
pub mod RoundTrip
pub mod Stream
pub mod Split
pub mod Tests
