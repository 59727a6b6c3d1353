-- ===== src/Stun.antt =====
-- src/stun.h and src/stun.c: STUN messages, written, parsed and checked.
pub mod Message
pub mod Mapped
pub mod Fingerprint
pub mod Write
pub mod Parse
pub mod Valid
pub mod Written
pub mod Append
pub mod Finish
pub mod Read
pub mod Accept
pub mod Build
pub mod Sealed
pub mod MappedWrite
pub mod MappedRoundTrip
pub mod Parsed
