-- ===== src/H264/Encode.antt =====
-- rtp_encoder_encode_h264 and its parts (src/rtp.c).
use libpeer.Base.{
  ℕ, zero, suc, ◌+◌, ◌*◌, ◌/◌, ◌%◌, ◌-◌, ◌==◌, leb, to_ℕ, if◌then◌else◌, Bool, true, false, ◌&&◌,
  ◌||◌, List, [], ◌∷◌, ◌++◌, length, get_or, take, drop,
}
use libpeer.Base.Word.{u16, u32}
use libpeer.Rtp.Header.{header_bytes}
use libpeer.Rtp.Encoder.{RtpEncoder, Encoded, next_header}

-- RTP_PAYLOAD_SIZE and FU_PAYLOAD_SIZE, for a CONFIG_MTU of 1300
abbrev pub rtp_payload_size : ℕ
rtp_payload_size = 1288

abbrev pub fu_payload_size : ℕ
fu_payload_size = 1286

-- FU_A
abbrev pub fu_a : ℕ
fu_a = 28

-- struct NaluHeader and struct FuHeader as the bytes that they are
unfoldable pub nalu_header : ℕ → ℕ → ℕ → ℕ
nalu_header type nri f = type % 32 + nri % 4 * 32 + f % 2 * 128

unfoldable pub fu_header : ℕ → Bool → Bool → ℕ
fu_header type e s = type % 32 + to_ℕ e * 64 + to_ℕ s * 128

-- An I frame or a P frame.
unfoldable pub is_frame : ℕ → Bool
is_frame type = type == 5 || type == 1

-- The encoder's time behind a NAL unit.
unfoldable pub advance : RtpEncoder → ℕ → RtpEncoder
advance encoder type =
    if is_frame type
    then record encoder { timestamp = u32 (encoder.timestamp + encoder.timestamp_increment) }
    else encoder

unfoldable pub next_number : RtpEncoder → RtpEncoder
next_number encoder = record encoder { seq_number = u16 (encoder.seq_number + 1) }

-- rtp_encoder_encode_h264_single; the first byte that it reads is `first`, also of an empty unit.
unfoldable pub rtp_encoder_encode_h264_single : RtpEncoder → ℕ → List ℕ → Encoded
rtp_encoder_encode_h264_single encoder first buf = record {
  encoder = advance (next_number encoder) (first % 32);
  packets = (header_bytes (next_header encoder (is_frame (first % 32))) ++ buf) ∷ [];
}

-- A fragment: its headers, and its bytes.
unfoldable pub fragment : RtpEncoder → ℕ → ℕ → ℕ → Bool → Bool → List ℕ → List ℕ
fragment encoder timestamp nri type start last bytes =
    header_bytes (next_header (record encoder { timestamp = timestamp }) last)
    ++ (nalu_header fu_a nri 0 ∷ fu_header type last start ∷ bytes)

-- The loop on what is left in `buf`; each round takes a byte or more, so that its length is enough fuel.
unfoldable pub fragment_loop : ℕ → RtpEncoder → ℕ → ℕ → ℕ → Bool → List ℕ → Encoded
fragment_loop zero encoder timestamp nri type start buf = record { encoder = encoder; packets = [] }
fragment_loop (suc fuel) encoder timestamp nri type start buf =
    let rest =
      fragment_loop fuel (next_number encoder) timestamp nri type false
        (drop fu_payload_size buf) in
    if length buf == 0
    then record { encoder = encoder; packets = [] }
    else if leb (length buf) fu_payload_size
    then record {
      encoder = next_number encoder;
      packets = fragment encoder timestamp nri type start true buf ∷ [];
    }
    else record {
      encoder = rest.encoder;
      packets =
          fragment encoder timestamp nri type start false (take fu_payload_size buf) ∷ rest.packets;
    }

-- rtp_encoder_encode_h264_fu_a on the unit `first ∷ buf`; the headers keep the time from before.
unfoldable pub rtp_encoder_encode_h264_fu_a : RtpEncoder → ℕ → List ℕ → Encoded
rtp_encoder_encode_h264_fu_a encoder first buf =
    fragment_loop (length buf) (advance encoder (first % 32)) encoder.timestamp (first / 32 % 4)
      (first % 32) true buf

-- h264_find_nalu: how far the byte behind the next start code is, or the end.
unfoldable pub h264_find_nalu : List ℕ → ℕ
h264_find_nalu [] = 0
h264_find_nalu (a ∷ []) = 1
h264_find_nalu (a ∷ b ∷ []) = 2
h264_find_nalu (a ∷ b ∷ c ∷ rest) =
    let further = h264_find_nalu (b ∷ c ∷ rest) in
    if a == 0 && (b == 0 && c == 1) then 3 else suc further

-- The zeros at the end go; in front of an empty unit stands the 1 of its start code.
unfoldable pub strip_zeros : List ℕ → List ℕ
strip_zeros [] = []
strip_zeros (x ∷ xs) =
    let rest = strip_zeros xs in if x == 0 && length rest == 0 then [] else x ∷ rest

-- A unit of the stream, `mem` being the bytes from its start on.
unfoldable pub encode_unit : RtpEncoder → List ℕ → List ℕ → Encoded
encode_unit encoder mem nalu =
    if leb (length nalu) rtp_payload_size
    then rtp_encoder_encode_h264_single encoder (get_or mem 0 0) nalu
    else rtp_encoder_encode_h264_fu_a encoder (get_or mem 0 0) (drop 1 nalu)

-- The unit at the start of `mem`, its start code behind it taken off.
unfoldable pub unit_of : List ℕ → List ℕ
unit_of mem =
    let size = h264_find_nalu mem in
    strip_zeros (take (if size == length mem then size else size - 1) mem)

-- The loop on the units of `mem`.
unfoldable pub unit_loop : ℕ → RtpEncoder → List ℕ → Encoded
unit_loop zero encoder mem = record { encoder = encoder; packets = [] }
unit_loop (suc fuel) encoder mem =
    let unit = encode_unit encoder mem (unit_of mem) in
    let rest = unit_loop fuel unit.encoder (drop (h264_find_nalu mem) mem) in
    if length mem == 0
    then record { encoder = encoder; packets = [] }
    else record { encoder = rest.encoder; packets = unit.packets ++ rest.packets }

-- rtp_encoder_encode_h264; its value is always 0.
unfoldable pub rtp_encoder_encode_h264 : RtpEncoder → List ℕ → Encoded
rtp_encoder_encode_h264 encoder buf = unit_loop (length buf) encoder (drop (h264_find_nalu buf) buf)
