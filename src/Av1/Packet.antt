-- ===== src/Av1/Packet.antt =====
-- av1_depay_packet on a packet of rtp_encoder_encode_av1: what it reads back from the two headers.
use libpeer.Base.{
  ℕ, ◌+◌, ◌-◌, ◌^◌, ◌<◌, ◌≡◌, refl, ◌∙◌, Bool, List, ◌∷◌, ◌++◌, some, arith, to_ℕ, length, take,
  drop, get_or, take_all,
}
use libpeer.Rtp.Header.{header_bytes, csrccount, extension, padding, markerbit, seq_number}
use libpeer.Rtp.Encoder.{RtpEncoder, next_header}
use libpeer.Av1.Depay.{
  Depay, depay_payload, track_sequence, rtp_header_size, unpadded_size, depay_sized, depay_start,
  av1_depay_packet,
}

depay_by_sizes :
    (d : Depay) (buf : List ℕ) (hdr_size total : ℕ)
    → rtp_header_size buf ≡ some hdr_size
    → unpadded_size buf hdr_size ≡ some total
    → av1_depay_packet d buf ≡ depay_sized (depay_start d) buf hdr_size total
unfolding av1_depay_packet
depay_by_sizes d buf hdr_size total h t = ground arith

-- The bytes of a header whose csrc list, extension and padding are absent.
module _ (encoder : RtpEncoder) (marker : Bool) (aggr : ℕ) (body : List ℕ) where
  abbrev packet : List ℕ
  packet = header_bytes (next_header encoder marker) ++ (aggr ∷ body)

  rtp_header_size-packet : rtp_header_size packet ≡ some 12
  unfolding rtp_header_size csrccount extension header_bytes next_header
  rtp_header_size-packet = ground arith

  unpadded_size-packet : unpadded_size packet 12 ≡ some (13 + length body)
  unfolding unpadded_size padding header_bytes next_header
  unpadded_size-packet = ground arith

  pub seq_number-packet : encoder.seq_number < 2 ^ 16 → seq_number packet ≡ encoder.seq_number
  unfolding seq_number header_bytes next_header
  seq_number-packet h = ground arith

  markerbit-packet : markerbit packet ≡ to_ℕ marker
  unfolding markerbit header_bytes next_header
  markerbit-packet = ground arith

  depay_sized-packet :
      (d : Depay)
      → encoder.seq_number < 2 ^ 16
      → 0 < length body
      → depay_sized d packet 12 (13 + length body)
        ≡ depay_payload
            (to_ℕ marker)
            (13 + length body)
            aggr
            body
            (track_sequence d encoder.seq_number)
  depay_sized-packet d h pos =
      let bytes : take (13 + length body - 12 - 1) (drop 13 packet) ≡ body =
        unfold header_bytes next_header in
        take_all (13 + length body - 12 - 1) body (omega arith) in
      let first : get_or packet 12 0 ≡ aggr = unfold header_bytes next_header in refl in
      unfold depay_sized in
      rw (seq_number-packet h, markerbit-packet, first) (ground (arith, bytes))

  pub depay-packet :
      (d : Depay)
      → encoder.seq_number < 2 ^ 16
      → 0 < length body
      → av1_depay_packet d packet
        ≡ depay_payload
            (to_ℕ marker)
            (13 + length body)
            aggr
            body
            (track_sequence (depay_start d) encoder.seq_number)
  depay-packet d h pos =
      depay_by_sizes d packet 12 (13 + length body) rtp_header_size-packet unpadded_size-packet
      ∙ depay_sized-packet (depay_start d) h pos
