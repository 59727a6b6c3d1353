-- ===== src/Rtcp.antt =====
-- src/rtcp.c: the probe that tells RTCP from RTP, and the two feedback messages, in little-endian layout.
mod Tests
pub mod Demux
use libpeer.Base.{
  ℕ, ◌+◌, ◌*◌, ◌-◌, ◌/◌, ◌%◌, ◌^◌, Bool, true, false, ◌&&◌, not, List, [], ◌∷◌, ◌++◌, Option, none,
  some, ltb, leb, ◌==◌, if◌then◌else◌, length, get_or, replicate,
}
use libpeer.Base.Word.{be16, be32, u32}
use libpeer.Rtp.Header.{payload_type}

-- rtcp_probe's answers: -1, and the truth value.
pub data Probed : Type 0 where
  too_short : Probed
  answer : Bool → Probed

unfoldable pub rtcp_probe : List ℕ → Probed
rtcp_probe packet =
    if ltb (length packet) 8
    then too_short
    else answer (leb 64 (payload_type packet) && ltb (payload_type packet) 96)

-- RTCP_PSFB
abbrev pub rtcp_psfb : ℕ
rtcp_psfb = 206

-- struct RtcpHeader with version 2 and no padding
unfoldable pub rtcp_header_bytes : ℕ → ℕ → ℕ → List ℕ
rtcp_header_bytes rc type words = (2 * 2 ^ 6 + rc) ∷ type ∷ be16 words

-- The bytes that memcpy takes from a uint32_t in memory.
unfoldable pub le32 : ℕ → List ℕ
le32 x = x % 2 ^ 8 ∷ x / 2 ^ 8 % 2 ^ 8 ∷ x / 2 ^ 16 % 2 ^ 8 ∷ x / 2 ^ 24 % 2 ^ 8 ∷ []

-- rtcp_get_pli: the packet that it writes; `none` is the return value -1.
unfoldable pub rtcp_get_pli : ℕ → ℕ → Option (List ℕ)
rtcp_get_pli len ssrc =
    if len == 12
    then some (rtcp_header_bytes 1 rtcp_psfb (len / 4 - 1) ++ (replicate 4 0 ++ le32 ssrc))
    else none

-- rtcp_get_fir: the packet that it writes and the new `*seqnr`, which starts out not negative.
unfoldable pub rtcp_get_fir : ℕ → ℕ → Option (List ℕ × ℕ)
rtcp_get_fir len seqnr =
    let next = if leb 256 (seqnr + 1) then 0 else seqnr + 1 in
    if len == 20
    then some (
      rtcp_header_bytes 4 rtcp_psfb (len / 4 - 1) ++ (replicate 12 0 ++ be32 (u32 (next * 2 ^ 24))),
      next,
    )
    else none
