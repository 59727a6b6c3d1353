-- ===== src/Leb128.antt =====
-- src/rtp.c, av1_leb128_size, av1_leb128_write and av1_leb128_read: the variable-length sizes of the
-- AV1 payload format. A `size_t` is a number; the bytes written to `buf` are the list returned.
mod Equations
pub mod RoundTrip
pub mod Reject
mod Tests
unfoldable pub use Equations.{leb128_write, leb128_size, leb128_read_loop, leb128_read}
pub use Equations.{leb128_write_lem, leb128_size_lem}
