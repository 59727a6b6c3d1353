-- ===== src/Av1/Packetize.antt =====
-- rtp_encoder_encode_av1 of src/rtp.c: the elements of a temporal unit become RTP packets.
use libpeer.Base.{
  ℕ, zero, suc, ◌+◌, ◌-◌, ◌*◌, ◌^◌, Bool, true, false, ◌&&◌, List, [], ◌∷◌, ◌++◌, Option, none,
  some, ltb, ◌==◌, to_ℕ, if◌then◌else◌, length, get_or, take, drop, bit_or,
}
use libpeer.Base.Word.{u16, u32}
use libpeer.Leb128.{leb128_size, leb128_write}
use libpeer.Rtp.Header.{header_bytes}
use libpeer.Rtp.Encoder.{RtpEncoder, Status, ok, error, Encoded, next_header}
use libpeer.Av1.Obu.{Av1ObuElement, parsed, malformed, out_of_fuel, parse_temporal_unit}

-- AV1_PAYLOAD_SIZE: CONFIG_MTU less the RTP header and the aggregation header.
abbrev pub av1_payload_size : ℕ
av1_payload_size = 1300 - 12 - 1

-- hdr_size + payload_size
abbrev pub element_len : Av1ObuElement → ℕ
element_len e = e.hdr_size + length e.payload

-- av1_element_copy: `left` is n - copied and `at` is offset + copied. What is not header is one memcpy.
unfoldable pub element_copy : Av1ObuElement → ℕ → ℕ → List ℕ
element_copy e at zero = []
element_copy e at (suc left) =
    let header = element_copy e (at + 1) left in
    if ltb at e.hdr_size
    then get_or (e.hdr0 ∷ e.hdr1 ∷ []) at 0 ∷ header
    else take (suc left) (drop (at - e.hdr_size) e.payload)

-- The state in which the inner loop leaves a packet: its payload behind the aggregation header, the
-- elements from `index` on, the offset into the first of them, and the flag y.
pub record Filled : Type 0 where
  pub body : List ℕ
  pub elements : List Av1ObuElement
  pub offset : ℕ
  pub y : Bool

-- How much of an element goes into the room that is left.
unfoldable pub chunk_size : ℕ → ℕ → ℕ
chunk_size remaining room =
    if ltb room (leb128_size remaining + remaining) then room - 2 else remaining

-- The inner loop, over the elements from `index` on.
unfoldable pub fill : List Av1ObuElement → ℕ → List ℕ → Filled
unfolding chunk_size
fill [] offset body = record { body = body; elements = []; offset = offset; y = false }
fill (e ∷ elements) offset body =
    let room = av1_payload_size - length body in
    let chunk = chunk_size (element_len e - offset) room in
    let body' = body ++ (leb128_write chunk ++ element_copy e offset chunk) in
    let rest = fill elements 0 body' in
    if ltb room 3
    then record { body = body; elements = e ∷ elements; offset = offset; y = false }
    else if ltb (offset + chunk) (element_len e)
    then record { body = body'; elements = e ∷ elements; offset = offset + chunk; y = true }
    else rest

-- The aggregation header: Z, Y, W = 0 and N.
unfoldable pub aggregation_header : Bool → Bool → Bool → ℕ
aggregation_header z y n =
    bit_or (bit_or (to_ℕ z * 2 ^ 7) (to_ℕ y * 2 ^ 6)) (if n then 0x08 else 0x00)

-- The packet that one round of the outer loop sends.
unfoldable pub av1_packet : RtpEncoder → Bool → Bool → Filled → List ℕ
unfolding aggregation_header
av1_packet encoder z n f =
    header_bytes (next_header encoder (length f.elements == 0))
    ++ (aggregation_header z f.y n ∷ f.body)

-- The outer loop: `none` means that the fuel ran out. Each round sends a packet.
unfoldable pub packet_loop :
    ℕ → RtpEncoder → Bool → List Av1ObuElement → ℕ → Bool → Bool → Option Encoded
packet_loop fuel encoder new_sequence [] offset z first =
    some (record { encoder = encoder; packets = [] })
packet_loop zero encoder new_sequence (e ∷ elements) offset z first = none
packet_loop (suc fuel) encoder new_sequence (e ∷ elements) offset z first =
    let f = fill (e ∷ elements) offset [] in
    let sent = record encoder { seq_number = u16 (encoder.seq_number + 1) } in
    elim (packet_loop fuel sent new_sequence f.elements f.offset (ltb 0 f.offset) false) [
      | none ↦ none
      | some r ↦
          some (record r { packets = av1_packet encoder z (first && new_sequence) f ∷ r.packets })
    ]

-- Fuel enough: no packet goes out without a byte of an element.
unfoldable pub total_len : List Av1ObuElement → ℕ
total_len [] = 0
total_len (e ∷ elements) = element_len e + total_len elements

-- The timestamp moves on once the whole temporal unit is sent.
unfoldable pub send_elements : RtpEncoder → Bool → List Av1ObuElement → Option (Status × Encoded)
send_elements encoder new_sequence elements =
    elim (packet_loop (total_len elements) encoder new_sequence elements 0 false true) [
      | none ↦ none
      | some r ↦ some (
        ok,
        record r {
          encoder = record (r.encoder) {
            timestamp = u32 (r.encoder.timestamp + r.encoder.timestamp_increment);
          };
        },
      )
    ]

-- rtp_encoder_encode_av1: nothing is sent, and the encoder stays as it was, for a unit that is malformed
-- or holds no element to forward. The option is `none` where a loop's fuel ran out.
unfoldable pub rtp_encoder_encode_av1 : RtpEncoder → List ℕ → Option (Status × Encoded)
rtp_encoder_encode_av1 encoder buf = elim (parse_temporal_unit buf) [
  | malformed ↦ some (error, record { encoder = encoder; packets = [] })
  | out_of_fuel ↦ none
  | parsed elements new_sequence ↦ elim elements [
    | [] ↦ some (ok, record { encoder = encoder; packets = [] })
    | e ∷ es ↦ send_elements encoder new_sequence (e ∷ es)
  ]
]
