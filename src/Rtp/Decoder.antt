-- ===== src/Rtp/Decoder.antt =====
-- rtp_decoder_init and rtp_decode_generic of src/rtp.c.
use libpeer.Base.{ℕ, List, length, drop}
use libpeer.Rtp.Encoder.{
  MediaCodec, codec_none, codec_h264, codec_vp8, codec_mjpeg, codec_av1, codec_opus, codec_pcma,
  codec_pcmu,
}

-- What `decode_func` points to; `unset` is what stood there before.
pub data DecodeFunc : Type 0 where
  decode_h264 decode_av1 decode_generic unset : DecodeFunc

-- rtp_decoder_init
unfoldable pub rtp_decoder_init : DecodeFunc → MediaCodec → DecodeFunc
rtp_decoder_init before codec_h264 = decode_h264
rtp_decoder_init before codec_av1 = decode_av1
rtp_decoder_init before codec_pcma = decode_generic
rtp_decoder_init before codec_pcmu = decode_generic
rtp_decoder_init before codec_opus = decode_generic
rtp_decoder_init before codec_none = before
rtp_decoder_init before codec_vp8 = before
rtp_decoder_init before codec_mjpeg = before

-- rtp_decode_generic on a packet of twelve bytes or more: what it hands to `on_packet`, and its value.
unfoldable pub rtp_decode_generic : List ℕ → List ℕ × ℕ
rtp_decode_generic buf = (drop 12 buf, length buf)
