-- ===== src/Rtcp/Tests.antt =====
-- Concrete packets for src/rtcp.c.
use libpeer.Base.{ℕ, ◌+◌, ◌%◌, ◌≡◌, not, List, [], ◌∷◌, some, get_or, arith}
use libpeer.Rtp.Header.{rtp_packet_validate, rtp_get_ssrc}
use libpeer.Rtcp.{answer, rtcp_probe, rtcp_get_pli, rtcp_get_fir}
use libpeer.Rtcp.Demux.{IsRtcp, probe-validate, rtcp_get_fir-IsRtcp, rtcp_get_pli_media}

-- An Opus packet with the marker bit.
abbrev opus : List ℕ
opus = 0x80 ∷ 0xef ∷ 0 ∷ 1 ∷ 0 ∷ 0 ∷ 0 ∷ 0 ∷ 0 ∷ 0 ∷ 0 ∷ 6 ∷ 0xfc ∷ []

probe-validate_example : rtcp_probe opus ≡ answer (not (rtp_packet_validate opus))
probe-validate_example = probe-validate opus (omega arith)

rtcp_get_fir-IsRtcp_example :
    (packet : List ℕ) × (rtcp_get_fir 20 255 ≡ some (packet, (255 + 1) % 256))
    × (get_or packet 16 0 ≡ (255 + 1) % 256)
    × IsRtcp packet
rtcp_get_fir-IsRtcp_example = rtcp_get_fir-IsRtcp 255 (omega arith)

rtcp_get_pli_media_example :
    (packet : List ℕ) × (rtcp_get_pli 12 0x01020304 ≡ some packet)
    × (rtp_get_ssrc packet ≡ 0x04030201)
rtcp_get_pli_media_example = rtcp_get_pli_media 0x01020304 (omega arith)
