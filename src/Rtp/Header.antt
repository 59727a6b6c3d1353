-- ===== src/Rtp/Header.antt =====
-- struct RtpHeader (src/rtp.h) as the bytes that it is on the wire, the readers of its fields, and the
-- two functions of src/rtp.c that look at a packet's header alone.
use libpeer.Base.{
  ℕ, ◌+◌, ◌*◌, ◌/◌, ◌%◌, Bool, false, ◌||◌, List, ◌∷◌, ◌++◌, ltb, leb, to_ℕ, if◌then◌else◌, length,
  get_or,
}
use libpeer.Base.Word.{be16, be32, read16, read32}

-- sizeof(RtpHeader)
abbrev pub header_size : ℕ
header_size = 12

-- Each bit field is a number below 2 ^ width; the multi-byte fields are in host order.
pub record Header : Type 0 where
  pub version : ℕ
  pub padding : ℕ
  pub extension : ℕ
  pub csrccount : ℕ
  pub markerbit : Bool
  pub type : ℕ
  pub seq_number : ℕ
  pub timestamp : ℕ
  pub ssrc : ℕ

-- The bit fields share two bytes, and htons and htonl lay down the rest.
unfoldable pub header_bytes : Header → List ℕ
header_bytes h =
    (h.version % 4 * 64 + h.padding % 2 * 32 + h.extension % 2 * 16 + h.csrccount % 16)
    ∷ (to_ℕ h.markerbit * 128 + h.type % 128)
    ∷ (be16 h.seq_number ++ be32 h.timestamp ++ be32 h.ssrc)

-- The fields of a received packet.
unfoldable pub csrccount : List ℕ → ℕ
csrccount packet = get_or packet 0 0 % 16

unfoldable pub extension : List ℕ → ℕ
extension packet = get_or packet 0 0 / 16 % 2

unfoldable pub padding : List ℕ → ℕ
padding packet = get_or packet 0 0 / 32 % 2

unfoldable pub markerbit : List ℕ → ℕ
markerbit packet = get_or packet 1 0 / 128 % 2

unfoldable pub payload_type : List ℕ → ℕ
payload_type packet = get_or packet 1 0 % 128

unfoldable pub seq_number : List ℕ → ℕ
seq_number packet = read16 (get_or packet 2 0) (get_or packet 3 0)

-- rtp_packet_validate
unfoldable pub rtp_packet_validate : List ℕ → Bool
unfolding payload_type
rtp_packet_validate packet =
    if ltb (length packet) 12
    then false
    else ltb (payload_type packet) 64 || leb 96 (payload_type packet)

-- rtp_get_ssrc
unfoldable pub rtp_get_ssrc : List ℕ → ℕ
rtp_get_ssrc packet =
    read32 (get_or packet 8 0) (get_or packet 9 0) (get_or packet 10 0) (get_or packet 11 0)
