-- ===== src/Rtcp/Demux.antt =====
-- How peer_connection_loop tells RTCP from RTP, and what the feedback messages look like to a receiver
-- (src/rtcp.c, src/rtp.c).
use libpeer.Base.{
  ℕ, ◌+◌, ◌*◌, ◌/◌, ◌%◌, ◌^◌, ◌≤◌, ◌<◌, ◌≡◌, refl, true, false, not, List, ◌++◌, some, length,
  get_or, replicate, arith,
}
use libpeer.Base.Word.{be32, read16}
use libpeer.Rtp.Header.{rtp_packet_validate, rtp_get_ssrc, payload_type}
use libpeer.Rtcp.{answer, rtcp_probe, rtcp_get_pli, rtcp_get_fir, rtcp_header_bytes, le32}

-- Of a packet of twelve bytes or more, rtcp_probe says yes just where rtp_packet_validate says no.
pub probe-validate :
    (packet : List ℕ)
    → 12 ≤ length packet
    → rtcp_probe packet ≡ answer (not (rtp_packet_validate packet))
unfolding rtcp_probe rtp_packet_validate
probe-validate packet h = ground arith

-- A packet that is told to be RTCP, as long as its length field says.
pub record IsRtcp (packet : List ℕ) : Type 0 where
  pub probed : rtcp_probe packet ≡ answer true
  pub refused : rtp_packet_validate packet ≡ false
  pub words : (read16 (get_or packet 2 0) (get_or packet 3 0) + 1) * 4 ≡ length packet

-- Given the length 20 and a number below 256, rtcp_get_fir writes a packet that rtcp_probe takes for
-- RTCP, that rtp_packet_validate refuses, and that is as long as its length field says; the number is
-- increased modulo 256, and stands in the sequence field of the FCI entry.
pub rtcp_get_fir-IsRtcp :
    (seqnr : ℕ)
    → seqnr < 256
    → (packet : List ℕ) × (rtcp_get_fir 20 seqnr ≡ some (packet, (seqnr + 1) % 256))
      × (get_or packet 16 0 ≡ (seqnr + 1) % 256)
      × IsRtcp packet
unfolding rtcp_get_fir rtcp_header_bytes rtcp_probe rtp_packet_validate payload_type
rtcp_get_fir-IsRtcp seqnr h =
    let next = (seqnr + 1) % 256 in
    (
      rtcp_header_bytes 4 206 4 ++ (replicate 12 0 ++ be32 (next * 2 ^ 24)),
      ground arith,
      omega arith,
      record { probed = refl; refused = refl; words = refl },
    )

-- The SSRC, a number of 32 bits, that rtcp_get_pli names is read back by rtp_get_ssrc, in network
-- order, with its bytes reversed.
pub rtcp_get_pli_media :
    (ssrc : ℕ)
    → ssrc < 2 ^ 32
    → (packet : List ℕ) × (rtcp_get_pli 12 ssrc ≡ some packet)
      × (rtp_get_ssrc packet
          ≡ ssrc % 2 ^ 8 * 2 ^ 24
            + ssrc / 2 ^ 8 % 2 ^ 8 * 2 ^ 16
            + ssrc / 2 ^ 16 % 2 ^ 8 * 2 ^ 8
            + ssrc / 2 ^ 24)
unfolding rtcp_get_pli rtcp_header_bytes le32 rtp_get_ssrc
rtcp_get_pli_media ssrc h = (_, refl, omega arith)
