-- ===== src/Rtp.antt =====
-- src/rtp.h and src/rtp.c: the RTP header, the encoder and decoder objects, and their dispatch.
pub mod Header
pub mod Encoder
pub mod Decoder
pub mod Audio
mod Tests
pub mod Dispatch
