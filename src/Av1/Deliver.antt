-- ===== src/Av1/Deliver.antt =====
-- The packets of rtp_encoder_encode_av1, handed to av1_depay_packet one after the other.
use libpeer.Base.{
  ℕ, suc, ◌+◌, ◌/◌, ◌%◌, ◌^◌, ◌≤◌, ◌<◌, ◌≡◌, refl, ◌∙◌, Bool, true, false, ◌&&◌, not, List, [], ◌∷◌,
  ◌++◌, some, arith, ltb, ◌==◌, to_ℕ, length, All, inl,
}
use libpeer.Base.Word.{u16}
use libpeer.Rtp.Encoder.{RtpEncoder, Encoded}
use libpeer.Av1.Obu.{Av1ObuElement}
use libpeer.Av1.Packetize.{Filled, aggregation_header, av1_packet, packet_loop, fill}
use libpeer.Av1.Depay.{
  Depay, size, temporal_delimiter, max_tu_size, depay_reset, depay_payload, track_sequence,
  depay_start, av1_depay_packet, depay_elements, finish_packet, give_up, element_loop, done,
}
use libpeer.Av1.Elements.{IsElement, low_overhead}
use libpeer.Av1.Chunks.{filled, IsPosition}
use libpeer.Av1.Simulation.{all_low_overhead, sent, filled_depay}
use libpeer.Av1.Packet.{depay-packet}

-- A receiver that waits for the packet `seq` with nothing left over.
abbrev pub ready : ℕ → Depay
ready seq = record {
  tu = temporal_delimiter;
  obu = [];
  obu_open = false;
  next_seq = seq;
  have_seq = true;
  dropping = false;
  started = true;
}

-- The fields of the aggregation header that the packetizer writes.
pub aggregation_fields :
    (z y n : Bool)
    → (aggregation_header z y n / 2 ^ 7 % 2 ≡ to_ℕ z)
      × ((aggregation_header z y n / 2 ^ 6 % 2 == 1) ≡ y)
      × (aggregation_header z y n / 2 ^ 4 % 4 ≡ 0)
      × ((aggregation_header z y n / 2 ^ 3 % 2 == 0) ≡ not n)
unfolding aggregation_header
aggregation_fields true true true = (refl, refl, refl, refl)
aggregation_fields true true false = (refl, refl, refl, refl)
aggregation_fields true false true = (refl, refl, refl, refl)
aggregation_fields true false false = (refl, refl, refl, refl)
aggregation_fields false true true = (refl, refl, refl, refl)
aggregation_fields false true false = (refl, refl, refl, refl)
aggregation_fields false false true = (refl, refl, refl, refl)
aggregation_fields false false false = (refl, refl, refl, refl)

-- The receiver while a temporal unit is on its way: `tu` finished, `obu` begun.
abbrev pub under_way : ℕ → List ℕ → List ℕ → Bool → Depay
under_way seq tu obu open_obu = record {
  tu = tu;
  obu = obu;
  obu_open = open_obu;
  next_seq = seq;
  have_seq = true;
  dropping = false;
  started = true;
}

-- A packet in sequence whose Z agrees reaches the loop over its elements.
in_sequence :
    (encoder : RtpEncoder) (n : Bool) (f : Filled) (tu obu : List ℕ) (open_obu : Bool) (d' : Depay)
    → encoder.seq_number < 2 ^ 16
    → 0 < length f.body
    → element_loop
        (length f.body)
        0
        f.y
        0
        (under_way (u16 (encoder.seq_number + 1)) tu obu false)
        f.body
      ≡ done d'
    → av1_depay_packet
        (under_way encoder.seq_number tu obu open_obu)
        (av1_packet encoder open_obu n f)
      ≡ finish_packet (to_ℕ (length f.elements == 0)) (13 + length f.body) d'
unfolding av1_packet
in_sequence encoder n f tu obu open_obu d' h pos run =
    let marker = length f.elements == 0 in
    let aggr = aggregation_header open_obu f.y n in
    let (z, y, w, s) = aggregation_fields open_obu f.y n in
    depay-packet encoder marker aggr f.body (under_way encoder.seq_number tu obu open_obu) h pos
    ∙ (unfold depay_payload track_sequence depay_start depay_elements in
        ground (arith, z, y, w, run))

pub length-all_low_overhead :
    (e : Av1ObuElement) (elements : List Av1ObuElement)
    → 0 < length (all_low_overhead (e ∷ elements))
unfolding low_overhead
length-all_low_overhead e elements = omega arith

-- The marker bit closes the temporal unit.
pub finish_last :
    (total seq : ℕ) (tu : List ℕ)
    → 2 < length tu
    → finish_packet 1 total (under_way seq tu [] false)
      ≡ record { depay = ready seq; units = tu ∷ []; returned = size total }
unfolding finish_packet give_up depay_reset
finish_last total seq tu h = ground arith

pub finish_more :
    (total : ℕ) (d : Depay)
    → finish_packet 0 total d ≡ record { depay = d; units = []; returned = size total }
unfolding finish_packet
finish_more total d = refl

-- What the packet `f`, sent from a position in a unit that is under way, does at the receiver.
pub packet_arrives :
    (encoder : RtpEncoder) (n : Bool) (elements : List Av1ObuElement) (offset : ℕ) (tu : List ℕ)
    → All IsElement elements
    → IsPosition elements offset
    → encoder.seq_number < 2 ^ 16
    → 0 < length (filled elements offset 0).body
    → length tu + length (all_low_overhead elements) ≤ max_tu_size
    → let f = filled elements offset 0 in
      let seq' = u16 (encoder.seq_number + 1) in
      (tu' : List ℕ) × (av1_depay_packet
          (under_way encoder.seq_number tu (sent elements offset) (ltb 0 offset))
          (av1_packet encoder (ltb 0 offset) n f)
        ≡ finish_packet
            (to_ℕ (length f.elements == 0))
            (13 + length f.body)
            (under_way seq' tu' (sent f.elements f.offset) f.y))
      × (tu' ++ all_low_overhead f.elements ≡ tu ++ all_low_overhead elements)
      × (length tu ≤ length tu')
packet_arrives encoder n elements offset tu v p h pos room =
    let f = filled elements offset 0 in
    let seq' = u16 (encoder.seq_number + 1) in
    let (tu', runs, same, grows) =
      filled_depay elements offset 0 (length f.body)
        (under_way seq' tu (sent elements offset) false) v p (omega arith) (inl refl) refl refl room
        (omega arith) in
    (
      tu',
      in_sequence encoder n f tu (sent elements offset) (ltb 0 offset)
          (under_way seq' tu' (sent f.elements f.offset) f.y) h pos runs,
      same,
      grows,
    )

pub packet_loop_step :
    (fuel : ℕ) (encoder : RtpEncoder) (n : Bool) (e : Av1ObuElement) (elements : List Av1ObuElement)
    (offset : ℕ) (z first : Bool) (f : Filled) (r : Encoded)
    → fill (e ∷ elements) offset [] ≡ f
    → packet_loop fuel
        (record encoder { seq_number = u16 (encoder.seq_number + 1) })
        n
        f.elements
        f.offset
        (ltb 0 f.offset)
        false
      ≡ some r
    → packet_loop (suc fuel) encoder n (e ∷ elements) offset z first
      ≡ some (record r { packets = av1_packet encoder z (first && n) f ∷ r.packets })
unfolding packet_loop
packet_loop_step fuel encoder n e elements offset z first f r h g = ground arith
