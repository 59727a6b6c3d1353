-- ===== src/Rtp/Encoder.antt =====
-- struct RtpEncoder (src/rtp.h), rtp_encoder_init, rtp_encoder_set_timestamp and the generic encoder of
-- src/rtp.c. A call of `on_packet` is a packet in the list that an encoder returns.
use libpeer.Base.{
  ℕ, ◌+◌, ◌*◌, ◌/◌, Bool, false, if◌then◌else◌, ltb, Option, none, some, List, [], ◌∷◌, ◌++◌,
  length,
}
use libpeer.Base.Word.{u16, u32}
use libpeer.Rtp.Header.{Header, header_bytes}

-- enum MediaCodec (src/peer_connection.h)
pub data MediaCodec : Type 0 where
  codec_none codec_h264 codec_vp8 codec_mjpeg codec_av1 codec_opus codec_pcma codec_pcmu :
      MediaCodec

-- What `encode_func` points to; `unset` is what stood there before.
pub data EncodeFunc : Type 0 where
  encode_h264 encode_av1 encode_generic unset : EncodeFunc

-- The return values 0 and -1.
pub data Status : Type 0 where
  ok error : Status

-- What `buf` holds is rewritten for each packet, and is not part of the state.
pub record RtpEncoder : Type 0 where
  pub type : ℕ
  pub encode_func : EncodeFunc
  pub seq_number : ℕ
  pub ssrc : ℕ
  pub timestamp : ℕ
  pub timestamp_increment : ℕ

-- An encoder's new state, and the packets that it handed to `on_packet`.
pub record Encoded : Type 0 where
  pub encoder : RtpEncoder
  pub packets : List (List ℕ)

-- CONFIG_AUDIO_DURATION
abbrev pub audio_duration : ℕ
audio_duration = 20

-- rtp_encoder_init
unfoldable pub rtp_encoder_init : RtpEncoder → MediaCodec → RtpEncoder
rtp_encoder_init encoder codec =
    let fresh = record encoder { timestamp = 0; seq_number = 0 } in
    elim codec [
      | codec_h264 ↦ record fresh {
        type = 96;
        ssrc = 1;
        timestamp_increment = 90000 / 30;
        encode_func = encode_h264;
      }
      | codec_av1 ↦ record fresh {
        type = 45;
        ssrc = 2;
        timestamp_increment = 90000 / 30;
        encode_func = encode_av1;
      }
      | codec_pcma ↦ record fresh {
        type = 8;
        ssrc = 4;
        timestamp_increment = audio_duration * 8000 / 1000;
        encode_func = encode_generic;
      }
      | codec_pcmu ↦ record fresh {
        type = 0;
        ssrc = 5;
        timestamp_increment = audio_duration * 8000 / 1000;
        encode_func = encode_generic;
      }
      | codec_opus ↦ record fresh {
        type = 111;
        ssrc = 6;
        timestamp_increment = audio_duration * 48000 / 1000;
        encode_func = encode_generic;
      }
      | _ ↦ fresh
    ]

-- rtp_encoder_set_timestamp
unfoldable pub rtp_encoder_set_timestamp : RtpEncoder → ℕ → RtpEncoder
rtp_encoder_set_timestamp encoder timestamp = record encoder { timestamp = timestamp }

-- The header that each encoder writes: version 2, the marker bit by the caller.
unfoldable pub next_header : RtpEncoder → Bool → Header
next_header encoder marker = record {
  version = 2;
  padding = 0;
  extension = 0;
  csrccount = 0;
  markerbit = marker;
  type = encoder.type;
  seq_number = encoder.seq_number;
  timestamp = encoder.timestamp;
  ssrc = encoder.ssrc;
}

-- The size of RtpEncoder.buf, CONFIG_MTU + 128
abbrev pub encoder_buf_size : ℕ
encoder_buf_size = 1428

-- rtp_encoder_encode_generic; `none` is its memcpy of a frame beyond the end of `buf`.
unfoldable pub rtp_encoder_encode_generic : RtpEncoder → List ℕ → Option Encoded
unfolding header_bytes next_header
rtp_encoder_encode_generic encoder buf =
    if ltb encoder_buf_size (12 + length buf)
    then none
    else some (record {
      encoder = record encoder {
        seq_number = u16 (encoder.seq_number + 1);
        timestamp = u32 (encoder.timestamp + encoder.timestamp_increment);
      };
      packets = (header_bytes (next_header encoder false) ++ buf) ∷ [];
    })
