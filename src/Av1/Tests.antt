-- ===== src/Av1/Tests.antt =====
-- A temporal unit of three OBUs, one of which is fragmented, on its way through both ends (src/rtp.c).
use libpeer.Base.{
  ℕ, ◌/◌, ◌%◌, ◌^◌, ◌≤◌, ◌<◌, ◌≡◌, ◌≢◌, refl, true, false, List, [], ◌∷◌, ◌++◌, some, arith, length,
  replicate, All, inl, inr,
}
use libpeer.Base.Word.{IsByte}
use libpeer.Leb128.{leb128_write}
use libpeer.Rtp.Header.{seq_number}
use libpeer.Rtp.Encoder.{RtpEncoder, Encoded, ok, encode_av1}
use libpeer.Av1.Obu.{
  Av1ObuElement, obu_type, has_extension, has_size_field, is_dropped, parsed, out_of_fuel,
  parse_temporal_unit,
}
use libpeer.Av1.Packetize.{rtp_encoder_encode_av1}
use libpeer.Av1.Depay.{Depay, max_tu_size, temporal_delimiter, feed, av1_depay_packet}
use libpeer.Av1.Simulation.{all_low_overhead}
use libpeer.Av1.Elements.{low_overhead}
use libpeer.Av1.Deliver.{ready}
use libpeer.Av1.Parse.{CanTravel, parse-low_overhead, parse_temporal_unit-ne-out_of_fuel}
use libpeer.Av1.RoundTrip.{temporal_unit, av1_roundtrip}
use libpeer.Av1.Safety.{IsSafe, av1_depay_packet-IsSafe}
use libpeer.Av1.Join.{av1_join}
use libpeer.Av1.Runs.{IsSound, decode_all-IsSound}
use libpeer.Av1.Wire.{Returns, av1_wire, av1_end_to_end}
use libpeer.Av1.Reorder.{
  Av1Reorder, Av1Decoder, reorder_packet, distance, begin_at, place, flush, flush_from, accept,
  drain,
}
use libpeer.Av1.Reorder.Calls.{IsSettled, IsReleased, IsJump, reorder_window, reorder_gap}
use libpeer.Av1.Reorder.Stream.{
  IsIdle, IsTransparent, decode_all, reorder_packet-IsSettled, reorder-IsTransparent,
}

abbrev encoder : RtpEncoder
encoder = record {
  type = 45;
  encode_func = encode_av1;
  seq_number = 65535;
  ssrc = 2;
  timestamp = 0;
  timestamp_increment = 3000;
}

-- A sequence header, a frame too long for one packet, and a frame with an extension byte.
abbrev sequence : Av1ObuElement
sequence = record { hdr0 = 0x08; hdr1 = 0; hdr_size = 1; payload = 1 ∷ 2 ∷ 3 ∷ [] }

abbrev frame : Av1ObuElement
frame = record { hdr0 = 0x30; hdr1 = 0; hdr_size = 1; payload = replicate 1500 7 }

abbrev layer : Av1ObuElement
layer = record { hdr0 = 0x34; hdr1 = 0x28; hdr_size = 2; payload = 4 ∷ 5 ∷ [] }

abbrev unit : List Av1ObuElement
unit = sequence ∷ frame ∷ layer ∷ []

sequence_travels : CanTravel sequence
unfolding obu_type is_dropped has_size_field has_extension
sequence_travels = record {
  element = record { byte = omega arith; no_size = refl; header = refl; plain = λ h. refl };
  forwarded = refl;
  small = omega arith;
}

frame_travels : CanTravel frame
unfolding obu_type is_dropped has_size_field has_extension
frame_travels = record {
  element = record { byte = omega arith; no_size = refl; header = refl; plain = λ h. refl };
  forwarded = refl;
  small = omega arith;
}

layer_travels : CanTravel layer
unfolding obu_type is_dropped has_size_field has_extension
layer_travels = record {
  element = record {
    byte = omega arith;
    no_size = refl;
    header = refl;
    plain = λ h. absurd (ground arith);
  };
  forwarded = refl;
  small = omega arith;
}

unit_travels : All CanTravel unit
unit_travels = (sequence_travels, (frame_travels, (layer_travels, tt)))

unit_fits : length (temporal_unit unit) ≤ max_tu_size
unfolding low_overhead has_extension leb128_write
unit_fits = omega arith

av1_roundtrip_example :
    (r : Encoded) × (rtp_encoder_encode_av1 encoder (temporal_unit unit) ≡ some (ok, r))
    × (feed (ready 65535) r.packets ≡ (ready r.encoder.seq_number, temporal_unit unit ∷ []))
av1_roundtrip_example =
    av1_roundtrip encoder sequence (frame ∷ layer ∷ []) (omega arith) unit_travels (omega arith)
      unit_fits

-- A receiver that has just been created.
abbrev joining : Depay
joining = record (ready 0) { tu = []; have_seq = false; started = false }

av1_join_example :
    (r : Encoded) × (rtp_encoder_encode_av1 encoder (temporal_unit unit) ≡ some (ok, r))
    × (feed joining r.packets ≡ (ready r.encoder.seq_number, temporal_unit unit ∷ []))
av1_join_example =
    av1_join encoder sequence (frame ∷ layer ∷ []) joining (omega arith) unit_travels (omega arith)
      unit_fits (unfold obu_type in refl) (inl refl)

parse-low_overhead_example :
    parse_temporal_unit (temporal_delimiter ++ all_low_overhead unit) ≡ parsed unit true
unfolding obu_type
parse-low_overhead_example = parse-low_overhead unit unit_travels (omega arith)

parse_temporal_unit-ne-out_of_fuel_example :
    parse_temporal_unit (temporal_delimiter ++ all_low_overhead unit) ≢ out_of_fuel
parse_temporal_unit-ne-out_of_fuel_example =
    parse_temporal_unit-ne-out_of_fuel (temporal_delimiter ++ all_low_overhead unit)

-- A packet with two elements, the second of which claims more bytes than there are.
abbrev overlong : List ℕ
overlong =
    0x90 ∷ 45 ∷ 0 ∷ 9 ∷ 0 ∷ 0 ∷ 0 ∷ 0 ∷ 0 ∷ 0 ∷ 0 ∷ 2 ∷ 0x08 ∷ 2 ∷ 0x30 ∷ 7 ∷ 0xff ∷ 0x7f ∷ 0x30
    ∷ []

overlong_bytes : All IsByte overlong
overlong_bytes = ground arith

av1_depay_packet-IsSafe_example : IsSafe (av1_depay_packet (ready 9) overlong)
av1_depay_packet-IsSafe_example = av1_depay_packet-IsSafe (ready 9) overlong (omega arith)

-- A temporal unit whose second OBU is cut off.
abbrev cut_off : List ℕ
cut_off = 0x12 ∷ 0x00 ∷ 0x0a ∷ 0x05 ∷ 0x01 ∷ []

av1_wire_example : Returns encoder cut_off
av1_wire_example =
    av1_wire encoder cut_off (omega arith)
      (omega arith, (omega arith, (omega arith, (omega arith, (omega arith, tt)))))

-- A receiver in step with the encoder whose reorder buffer is empty.
abbrev waiting_for : ℕ → Av1Reorder
waiting_for seq = record { slots = replicate 4 []; expect = seq; started = true }

waiting_for-IsIdle : IsIdle (waiting_for 65535) 65535
waiting_for-IsIdle = record { four = refl; nothing_waits = λ j. ground arith; next = inr refl }

abbrev decoder : Av1Decoder
decoder = record { reorder = waiting_for 65535; depay = ready 65535 }

av1_end_to_end_example :
    (r : Encoded) × (rtp_encoder_encode_av1 encoder (temporal_unit unit) ≡ some (ok, r))
    × ((decode_all decoder r.packets).1 ≡ temporal_unit unit ∷ [])
    × ((decode_all decoder r.packets).0.depay ≡ ready r.encoder.seq_number)
    × IsIdle (decode_all decoder r.packets).0.reorder r.encoder.seq_number
av1_end_to_end_example =
    av1_end_to_end encoder sequence (frame ∷ layer ∷ []) decoder (omega arith) unit_travels
      (omega arith) unit_fits refl waiting_for-IsIdle

-- Packets of twelve header bytes, the number in the third and fourth.
abbrev numbered : ℕ → List ℕ
numbered seq = 0x80 ∷ 45 ∷ seq / 2 ^ 8 ∷ seq % 2 ^ 8 ∷ 0 ∷ 0 ∷ 0 ∷ 0 ∷ 0 ∷ 0 ∷ 0 ∷ 2 ∷ []

waiting_for-IsSettled : IsSettled (waiting_for 65535)
waiting_for-IsSettled = record {
  window = record { four = refl; sequence = omega arith; waiting = λ j h. inl (ground arith) };
  idle = λ e. absurd (ground arith);
}

numbered_bytes : (seq : ℕ) → seq < 2 ^ 16 → All IsByte (numbered seq)
numbered_bytes seq h = ground arith

-- The packet behind the expected one, across the wrap of the numbers.
reorder_window_example :
    IsReleased (waiting_for 65535) (numbered 0) (reorder_packet (waiting_for 65535) (numbered 0))
reorder_window_example =
    reorder_window (waiting_for 65535) (numbered 0) waiting_for-IsSettled refl
      (numbered_bytes 0 (omega arith)) (omega arith, omega arith)
      (unfold distance seq_number in omega arith)

abbrev gap_tail : List ℕ
gap_tail = 45 ∷ 0 ∷ 9 ∷ 0 ∷ 0 ∷ 0 ∷ 0 ∷ 0 ∷ 0 ∷ 0 ∷ 2 ∷ []

reorder_gap_example :
    IsJump
      (waiting_for 65535)
      (0x80 ∷ gap_tail)
      (reorder_packet (waiting_for 65535) (0x80 ∷ gap_tail))
reorder_gap_example =
    reorder_gap (waiting_for 65535) 0x80 gap_tail waiting_for-IsSettled refl
      (omega arith, omega arith) (unfold distance seq_number in omega arith)
      (unfold distance seq_number in omega arith)

reorder_packet-IsSettled_example :
    IsSettled (reorder_packet (waiting_for 65535) (numbered 32767)).reorder
reorder_packet-IsSettled_example =
    reorder_packet-IsSettled (waiting_for 65535) (numbered 32767) waiting_for-IsSettled
      (numbered_bytes 32767 (omega arith))

abbrev in_order : List (List ℕ)
in_order = numbered 65535 ∷ numbered 0 ∷ []

reorder-IsTransparent_example : IsTransparent decoder 65535 in_order
unfolding seq_number
reorder-IsTransparent_example =
    reorder-IsTransparent in_order decoder 65535 (omega arith) waiting_for-IsIdle (refl, (refl, tt))
      ((omega arith, omega arith), ((omega arith, omega arith), tt))

-- The two packets the other way round are released in order.
swapped_released :
    (reorder_packet
      (reorder_packet (waiting_for 65535) (numbered 0)).reorder
      (numbered 65535)).released
    ≡ in_order
unfolding reorder_packet begin_at place flush flush_from accept drain distance seq_number
swapped_released = refl

-- The temporal delimiter and a sequence header of one byte, with an extension byte.
abbrev short_unit : List ℕ
short_unit = 0x12 ∷ 0x00 ∷ 0x0e ∷ 0x20 ∷ 0x01 ∷ 0x07 ∷ []

abbrev short_sequence : Av1ObuElement
short_sequence = record { hdr0 = 0x0c; hdr1 = 0x20; hdr_size = 2; payload = 7 ∷ [] }

decode_all-IsSound_example :
    IsSound
      (decode_all decoder (overlong ∷ in_order)).0
      (decode_all decoder (overlong ∷ in_order)).1
decode_all-IsSound_example =
    decode_all-IsSound (overlong ∷ in_order) decoder waiting_for-IsSettled (omega arith)
      (overlong_bytes, (numbered_bytes 65535 (omega arith), (numbered_bytes 0 (omega arith), tt)))
