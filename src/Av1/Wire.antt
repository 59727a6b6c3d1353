-- ===== src/Av1/Wire.antt =====
-- The packets of rtp_encoder_encode_av1 on the wire: their numbers, their sizes, and the whole way through
-- rtp_decode_av1 (src/rtp.c).
use libpeer.Base.{
  ℕ, zero, suc, ◌+◌, ◌%◌, ◌^◌, ◌≤◌, ◌<◌, ◌≡◌, refl, ◌∙◌, Bool, true, false, ◌&&◌, List, [], ◌∷◌,
  Option, some, arith, ltb, ◌==◌, length, All, ◌⊎◌, inl, inr,
}
use libpeer.Base.Word.{u16, u32, IsByte}
use libpeer.Rtp.Header.{header_bytes}
use libpeer.Rtp.Encoder.{RtpEncoder, Encoded, Status, ok, error, next_header}
use libpeer.Av1.Obu.{
  Av1ObuElement, max_obu_per_tu, Parsed, parsed, malformed, out_of_fuel, parse_temporal_unit,
}
use libpeer.Av1.Parse.{
  CanTravel, IsElement-of_travel, has_sequence_header, parse_temporal_unit-ne-out_of_fuel,
}
use libpeer.Av1.Stored.{parse_temporal_unit-IsElement}
use libpeer.Av1.Packetize.{
  Filled, av1_packet, aggregation_header, packet_loop, av1_payload_size, send_elements, total_len,
  rtp_encoder_encode_av1,
}
use libpeer.Av1.Packet.{seq_number-packet}
use libpeer.Av1.Depay.{max_tu_size, feed}
use libpeer.Av1.Elements.{IsElement}
use libpeer.Av1.Chunks.{
  filled, fill_empty, filled_bounds, filled_progress, left_over, IsPosition, element_len_pos,
}
use libpeer.Av1.Deliver.{ready, packet_loop_step}
use libpeer.Av1.RoundTrip.{temporal_unit, encode_unit, packet_loop_end, av1_roundtrip}
use libpeer.Av1.Reorder.{Av1Decoder}
use libpeer.Av1.Reorder.Window.{Consecutive}
use libpeer.Av1.Reorder.Calls.{FitsBuffer}
use libpeer.Av1.Reorder.Stream.{decode_all, IsIdle, reorder-IsTransparent}

-- CONFIG_MTU
abbrev mtu : ℕ
mtu = 1300

-- A packet with both headers that keeps to the MTU.
abbrev FitsMtu : List ℕ → Type 0
FitsMtu packet = (13 ≤ length packet) × (length packet ≤ mtu)

pub record IsWire (encoder : RtpEncoder) (r : Encoded) : Type 0 where
  pub numbered : Consecutive encoder.seq_number r.packets
  pub sizes : All FitsMtu r.packets
  pub moved : r.encoder.seq_number ≡ (encoder.seq_number + length r.packets) % 2 ^ 16

packet_size :
    (encoder : RtpEncoder) (z n : Bool) (f : Filled)
    → length f.body ≤ av1_payload_size
    → FitsMtu (av1_packet encoder z n f)
unfolding av1_packet header_bytes next_header
packet_size encoder z n f h = ground arith

cons-IsWire :
    (encoder : RtpEncoder) (z n : Bool) (f : Filled) (r : Encoded)
    → encoder.seq_number < 2 ^ 16
    → length f.body ≤ av1_payload_size
    → IsWire (record encoder { seq_number = u16 (encoder.seq_number + 1) }) r
    → IsWire encoder (record r { packets = av1_packet encoder z n f ∷ r.packets })
cons-IsWire encoder z n f r h fits rest = record {
  numbered = (
    unfold av1_packet in
        seq_number-packet encoder (length f.elements == 0) (aggregation_header z f.y n) f.body h,
    rest.numbered,
  );
  sizes = (packet_size encoder z n f fits, rest.sizes);
  moved = omega (arith, rest.moved);
}

-- The outer loop has rounds enough, and sends well-formed packets.
packet_loop-IsWire :
    (fuel : ℕ) (encoder : RtpEncoder) (n : Bool) (elements : List Av1ObuElement) (offset : ℕ)
    (first : Bool)
    → encoder.seq_number < 2 ^ 16
    → All IsElement elements
    → IsPosition elements offset
    → left_over elements offset ≤ fuel
    → (r : Encoded) × (packet_loop fuel encoder n elements offset (ltb 0 offset) first ≡ some r)
      × IsWire encoder r
packet_loop-IsWire fuel encoder n [] offset first h v p enough = (
  record { encoder = encoder; packets = [] },
  packet_loop_end fuel encoder n offset (ltb 0 offset) first,
  record { numbered = tt; sizes = tt; moved = omega arith },
)
packet_loop-IsWire zero encoder n (e ∷ elements) offset first h v p enough =
    absurd (omega (arith, filled_progress e elements offset v p))
packet_loop-IsWire (suc fuel) encoder n (e ∷ elements) offset first h v p enough =
    let f = filled (e ∷ elements) offset 0 in
    let (fits, v', p', y) = filled_bounds (e ∷ elements) offset 0 v p (omega arith) (inl refl) in
    let (r, sends, wire) =
      packet_loop-IsWire fuel (record encoder { seq_number = u16 (encoder.seq_number + 1) }) n
        f.elements f.offset false (omega arith) v' p'
        (omega (arith, filled_progress e elements offset v p)) in
    (
      record r { packets = av1_packet encoder (ltb 0 offset) (first && n) f ∷ r.packets },
      packet_loop_step fuel encoder n e elements offset (ltb 0 offset) first f r
          (fill_empty (e ∷ elements) offset v) sends,
      cons-IsWire encoder (ltb 0 offset) (first && n) f r h (omega arith) wire,
    )

send_elements-IsWire :
    (encoder : RtpEncoder) (n : Bool) (e : Av1ObuElement) (elements : List Av1ObuElement)
    → encoder.seq_number < 2 ^ 16
    → All IsElement (e ∷ elements)
    → (r : Encoded) × (send_elements encoder n (e ∷ elements) ≡ some (ok, r)) × IsWire encoder r
send_elements-IsWire encoder n e elements h v =
    let (r, sends, wire) =
      packet_loop-IsWire (total_len (e ∷ elements)) encoder n (e ∷ elements) 0 true h v
        (element_len_pos e (v.0)) (unfold left_over in omega arith) in
    (
      record r {
        encoder = record (r.encoder) {
          timestamp = u32 (r.encoder.timestamp + r.encoder.timestamp_increment);
        };
      },
      unfold send_elements in ground (arith, sends),
      record { numbered = wire.numbered; sizes = wire.sizes; moved = wire.moved },
    )

-- What a call returns with: `error` and nothing sent, or `ok`.
abbrev Ends : RtpEncoder → Status → Encoded → Type 0
Ends encoder status r =
    IsWire encoder r
    × ((status ≡ ok) ⊎ ((status ≡ error) × (r ≡ record { encoder = encoder; packets = [] })))

nothing-IsWire :
    (encoder : RtpEncoder)
    → encoder.seq_number < 2 ^ 16
    → IsWire encoder (record { encoder = encoder; packets = [] })
nothing-IsWire encoder h = record { numbered = tt; sizes = tt; moved = omega arith }

-- A call returns, with a status and packets as above.
abbrev pub Returns : RtpEncoder → List ℕ → Type 0
Returns encoder buf =
    (status : Status) × (r : Encoded) × (rtp_encoder_encode_av1 encoder buf ≡ some (status, r))
    × Ends encoder status r

Returns-parsed :
    (encoder : RtpEncoder) (buf : List ℕ) (p : Parsed)
    → encoder.seq_number < 2 ^ 16
    → All IsByte buf
    → parse_temporal_unit buf ≡ p
    → Returns encoder buf
Returns-parsed encoder buf malformed h bytes e = (
  error,
  record { encoder = encoder; packets = [] },
  unfold rtp_encoder_encode_av1 in ground (arith, e),
  (nothing-IsWire encoder h, inr (refl, refl)),
)
Returns-parsed encoder buf out_of_fuel h bytes e = absurd (parse_temporal_unit-ne-out_of_fuel buf e)
Returns-parsed encoder buf (parsed [] n) h bytes e = (
  ok,
  record { encoder = encoder; packets = [] },
  unfold rtp_encoder_encode_av1 in ground (arith, e),
  (nothing-IsWire encoder h, inl refl),
)
Returns-parsed encoder buf (parsed (x ∷ elements) n) h bytes e =
    let (r, sends, wire) =
      send_elements-IsWire encoder n x elements h
        ((parse_temporal_unit-IsElement buf (x ∷ elements) n bytes e).0) in
    (ok, r, unfold rtp_encoder_encode_av1 in ground (arith, e, sends), (wire, inl refl))

-- Whatever bytes it is given, rtp_encoder_encode_av1 returns. The packets that it sends have numbers
-- that go on one by one, modulo 2 ^ 16, from the encoder's, which moves behind the last one; each has
-- 13 bytes or more and keeps to the MTU; and where it returns -1, it has sent nothing and left the
-- encoder as it was.
pub av1_wire :
    (encoder : RtpEncoder) (buf : List ℕ)
    → encoder.seq_number < 2 ^ 16
    → All IsByte buf
    → Returns encoder buf
av1_wire encoder buf h bytes = Returns-parsed encoder buf (parse_temporal_unit buf) h bytes refl

FitsBuffer-of_mtu : (packets : List (List ℕ)) → All FitsMtu packets → All FitsBuffer packets
FitsBuffer-of_mtu [] fits = tt
FitsBuffer-of_mtu (packet ∷ packets) ((long, short), fits) =
    ((omega arith, omega arith), FitsBuffer-of_mtu packets fits)

same_result :
    (o : Option (Status × Encoded)) (r r' : Encoded) (encoder : RtpEncoder)
    → o ≡ some (ok, r)
    → o ≡ some (ok, r')
    → IsWire encoder r'
    → IsWire encoder r
same_result o r r' encoder e e' wire = let same : r ≡ r' = ground (arith, e, e') in rw same wire

-- The whole way: a temporal unit of 1 to 32 OBUs of the kinds that are forwarded, each with an
-- obu_size field and all behind a temporal delimiter, no longer than the receiver's buffer, is
-- packetized, put in order through an empty reorder buffer and depacketized by a receiver in step with
-- the encoder. It is delivered byte for byte, once; nothing is left waiting; and the receiver is in
-- step with the encoder again.
pub av1_end_to_end :
    (encoder : RtpEncoder) (e : Av1ObuElement) (elements : List Av1ObuElement) (s : Av1Decoder)
    → encoder.seq_number < 2 ^ 16
    → All CanTravel (e ∷ elements)
    → length (e ∷ elements) ≤ max_obu_per_tu
    → length (temporal_unit (e ∷ elements)) ≤ max_tu_size
    → s.depay ≡ ready encoder.seq_number
    → IsIdle s.reorder encoder.seq_number
    → (r : Encoded) × (rtp_encoder_encode_av1 encoder (temporal_unit (e ∷ elements)) ≡ some (ok, r))
      × ((decode_all s r.packets).1 ≡ temporal_unit (e ∷ elements) ∷ [])
      × ((decode_all s r.packets).0.depay ≡ ready r.encoder.seq_number)
      × IsIdle (decode_all s r.packets).0.reorder r.encoder.seq_number
av1_end_to_end encoder e elements s h v few room in_step idle =
    let (r, sends, fed) = av1_roundtrip encoder e elements h v few room in
    let (r', sends', wire') =
      send_elements-IsWire encoder (has_sequence_header (e ∷ elements)) e elements h
        (IsElement-of_travel (e ∷ elements) v) in
    let wire : IsWire encoder r =
      same_result _ r r' encoder sends (encode_unit encoder e elements v few ∙ sends') wire' in
    let clear =
      reorder-IsTransparent r.packets s encoder.seq_number h idle wire.numbered
        (FitsBuffer-of_mtu r.packets wire.sizes) in
    let fed' : feed s.depay r.packets
        ≡ (ready r.encoder.seq_number, temporal_unit (e ∷ elements) ∷ []) =
      rw in_step fed in
    (
      r,
      sends,
      rw clear.units (rw fed' refl),
      rw clear.depay (rw fed' refl),
      rw wire.moved clear.idle,
    )
