-- ===== src/Rtp/Audio.antt =====
-- The way of an audio frame through rtp_encoder_encode_generic and rtp_decode_generic (src/rtp.c).
use libpeer.Base.{
  ℕ, ◌+◌, ◌%◌, ◌^◌, ◌≤◌, ◌<◌, ◌≡◌, refl, true, false, ltb, le→ltb_false, some, List, [], ◌∷◌, ◌++◌,
  length, get_or, arith, ◌⊎◌,
}
use libpeer.Base.Word.{read32}
use libpeer.Rtp.Header.{header_bytes, rtp_packet_validate, rtp_get_ssrc, payload_type, seq_number}
use libpeer.Rtp.Encoder.{RtpEncoder, rtp_encoder_encode_generic, next_header}
use libpeer.Rtp.Decoder.{rtp_decode_generic}

-- An encoder whose fields fit the header's, with a payload type outside the range of RTCP.
pub record IsEncoder (encoder : RtpEncoder) : Type 0 where
  pub type_fits : encoder.type < 128
  pub type_apart : (encoder.type < 64) ⊎ (96 ≤ encoder.type)
  pub sequence : encoder.seq_number < 2 ^ 16
  pub time : encoder.timestamp < 2 ^ 32
  pub source : encoder.ssrc < 2 ^ 32

-- What a receiver reads in the packet that carries `buf`.
pub record IsCarried (encoder : RtpEncoder) (buf packet : List ℕ) : Type 0 where
  pub taken_for_rtp : rtp_packet_validate packet ≡ true
  pub type : payload_type packet ≡ encoder.type
  pub sequence : seq_number packet ≡ encoder.seq_number
  pub time :
      read32 (get_or packet 4 0) (get_or packet 5 0) (get_or packet 6 0) (get_or packet 7 0)
      ≡ encoder.timestamp
  pub source : rtp_get_ssrc packet ≡ encoder.ssrc
  pub delivered : rtp_decode_generic packet ≡ (buf, 12 + length buf)

-- The encoder after a frame.
abbrev pub advanced : RtpEncoder → RtpEncoder
advanced encoder = record encoder {
  seq_number = (encoder.seq_number + 1) % 2 ^ 16;
  timestamp = (encoder.timestamp + encoder.timestamp_increment) % 2 ^ 32;
}

pub encode_generic-some :
    (encoder : RtpEncoder) (buf : List ℕ)
    → length buf ≤ 1416
    → rtp_encoder_encode_generic encoder buf
      ≡ some (record {
        encoder = advanced encoder;
        packets = (header_bytes (next_header encoder false) ++ buf) ∷ [];
      })
unfolding rtp_encoder_encode_generic
encode_generic-some encoder buf h =
    let fits : ltb 1428 (12 + length buf) ≡ false = le→ltb_false _ _ (omega (arith, h)) in
    rw fits refl

-- Of a frame of up to 1416 bytes, which fits the encoder's buffer behind the header,
-- rtp_encoder_encode_generic sends one packet. A receiver takes it for RTP, reads the encoder's payload
-- type, sequence number, timestamp and SSRC in it, and rtp_decode_generic delivers the frame as it was. The
-- encoder is left with the next sequence number, modulo 2 ^ 16, and the timestamp one increment on, modulo
-- 2 ^ 32, and its fields fit the header's again.
pub generic_roundtrip :
    (encoder : RtpEncoder) (buf : List ℕ)
    → IsEncoder encoder
    → length buf ≤ 1416
    → (packet : List ℕ) × (rtp_encoder_encode_generic encoder buf
        ≡ some (record { encoder = advanced encoder; packets = packet ∷ [] }))
      × IsCarried encoder buf packet
      × IsEncoder (advanced encoder)
unfolding header_bytes next_header rtp_packet_validate rtp_get_ssrc payload_type seq_number
    rtp_decode_generic
generic_roundtrip encoder buf v small = (
  header_bytes (next_header encoder false) ++ buf,
  encode_generic-some encoder buf small,
  record {
    taken_for_rtp = ground (arith, v.type_apart);
    type = omega (arith, v.type_fits);
    sequence = omega (arith, v.sequence);
    time = omega (arith, v.time);
    source = omega (arith, v.source);
    delivered = ground arith;
  },
  record {
    type_fits = v.type_fits;
    type_apart = v.type_apart;
    sequence = omega arith;
    time = omega arith;
    source = v.source;
  },
)
