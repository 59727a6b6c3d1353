-- ===== src/Rtp/Tests.antt =====
-- A frame of Opus (src/rtp.c).
use libpeer.Base.{ℕ, ◌≡◌, refl, none, some, List, [], ◌∷◌, inr, arith, replicate}
use libpeer.Rtp.Encoder.{
  RtpEncoder, encode_generic, codec_opus, rtp_encoder_init, rtp_encoder_encode_generic,
}
use libpeer.Rtp.Audio.{IsEncoder, IsCarried, advanced, generic_roundtrip}

abbrev opus_encoder : RtpEncoder
opus_encoder = record {
  type = 111;
  encode_func = encode_generic;
  seq_number = 65535;
  ssrc = 6;
  timestamp = 0xffffffff;
  timestamp_increment = 960;
}

-- rtp_encoder_init sets up such an encoder, at number 0 and time 0.
opus_encoder_initialized :
    rtp_encoder_init opus_encoder codec_opus ≡ record opus_encoder { seq_number = 0; timestamp = 0 }
unfolding rtp_encoder_init
opus_encoder_initialized = refl

abbrev opus_frame : List ℕ
opus_frame = 0xfc ∷ 0xff ∷ 0xfe ∷ []

-- A frame of 1417 bytes is written beyond the buffer.
generic_overrun : rtp_encoder_encode_generic opus_encoder (replicate 1417 0) ≡ none
unfolding rtp_encoder_encode_generic
generic_overrun = refl

generic_roundtrip_example :
    (packet : List ℕ) × (rtp_encoder_encode_generic opus_encoder opus_frame
      ≡ some (record { encoder = advanced opus_encoder; packets = packet ∷ [] }))
    × IsCarried opus_encoder opus_frame packet
    × IsEncoder (advanced opus_encoder)
generic_roundtrip_example =
    generic_roundtrip opus_encoder opus_frame
      (record {
        type_fits = omega arith;
        type_apart = inr (omega arith);
        sequence = omega arith;
        time = omega arith;
        source = omega arith;
      })
      (omega arith)
