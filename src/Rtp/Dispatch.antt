-- ===== src/Rtp/Dispatch.antt =====
-- rtp_encoder_encode and rtp_decoder_decode (src/rtp.c), which call what an init function has set.
use libpeer.Base.{ℕ, ltb, if◌then◌else◌, Option, none, some, List, [], ◌∷◌, length}
use libpeer.Base.Memory.{◌>>=◌}
use libpeer.Rtp.Encoder.{
  RtpEncoder, Encoded, Status, ok, error, EncodeFunc, encode_h264, encode_av1, encode_generic,
  unset, rtp_encoder_encode_generic,
}
use libpeer.Rtp.Decoder.{DecodeFunc, decode_h264, decode_av1, decode_generic, rtp_decode_generic}
use libpeer.H264.Encode.{rtp_encoder_encode_h264}
use libpeer.H264.Decode.{rtp_decode_h264}
use libpeer.Av1.Packetize.{rtp_encoder_encode_av1}
use libpeer.Av1.Reorder.{Av1Decoder, rtp_decode_av1}

unfoldable pub encode_with : EncodeFunc → RtpEncoder → List ℕ → Option (Status × Encoded)
encode_with encode_h264 encoder buf = some (ok, rtp_encoder_encode_h264 encoder buf)
encode_with encode_av1 encoder buf = rtp_encoder_encode_av1 encoder buf
encode_with encode_generic encoder buf = do
  encoded ← rtp_encoder_encode_generic encoder buf
  some (ok, encoded)
encode_with unset encoder buf = some (error, record { encoder = encoder; packets = [] })

-- rtp_encoder_encode; `unset` is the null pointer.
unfoldable pub rtp_encoder_encode : RtpEncoder → List ℕ → Option (Status × Encoded)
rtp_encoder_encode encoder buf = encode_with encoder.encode_func encoder buf

-- The static variables of rtp_decode_h264 and rtp_decode_av1, which all decoders share.
pub record Statics : Type 0 where
  pub nalu : List ℕ
  pub av1 : Av1Decoder

-- rtp_decoder_decode: the static variables, and what `on_packet` is given.
unfoldable pub rtp_decoder_decode : DecodeFunc → Statics → List ℕ → Option (Statics × List (List ℕ))
rtp_decoder_decode decode_h264 statics buf = do
  decoded ← rtp_decode_h264 statics.nalu buf
  some (record statics { nalu = decoded.nalu }, decoded.units)
rtp_decoder_decode decode_av1 statics buf =
    let decoded = rtp_decode_av1 statics.av1 buf in
    some (record statics { av1 = decoded.0 }, decoded.1)
rtp_decoder_decode decode_generic statics buf =
    if ltb (length buf) 12 then none else some (statics, (rtp_decode_generic buf).0 ∷ [])
rtp_decoder_decode DecodeFunc.unset statics buf = some (statics, [])
