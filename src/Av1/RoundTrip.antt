-- ===== src/Av1/RoundTrip.antt =====
-- The round trip: what rtp_encoder_encode_av1 sends, av1_depay_packet delivers again (src/rtp.c).
use libpeer.Base.{
  ℕ, zero, suc, ◌+◌, ◌^◌, ◌≤◌, ◌<◌, ◌≡◌, refl, ap, sym, ◌∙◌, Bool, true, false, ◌&&◌, List, [], ◌∷◌,
  ◌++◌, some, arith, ltb, ◌==◌, to_ℕ, length, length-append, All, append-nil, ◌⊎◌, inl, inr,
}
use libpeer.Base.Word.{u16, u32}
use libpeer.Rtp.Encoder.{RtpEncoder, Encoded, ok}
use libpeer.Av1.Obu.{Av1ObuElement, max_obu_per_tu}
use libpeer.Av1.Parse.{CanTravel, IsElement-of_travel, has_sequence_header, parse-low_overhead}
use libpeer.Av1.Packetize.{
  Filled, av1_packet, packet_loop, fill, element_len, send_elements, total_len,
  rtp_encoder_encode_av1,
}
use libpeer.Av1.Depay.{
  Depay, temporal_delimiter, max_tu_size, av1_depay_packet, size, finish_packet, feed,
}
use libpeer.Av1.Elements.{IsElement}
use libpeer.Av1.Chunks.{
  filled, fill_empty, filled_bounds, filled_progress, filled_sends, left_over, IsPosition,
  element_len_pos,
}
use libpeer.Av1.Simulation.{all_low_overhead, sent}
use libpeer.Av1.Deliver.{
  ready, under_way, packet_arrives, packet_loop_step, finish_last, finish_more,
  length-all_low_overhead,
}

List-cases {ℓ} : {A : Type ℓ} (xs : List A) → (xs ≡ []) ⊎ ((x : A) × (ys : List A) × (xs ≡ x ∷ ys))
List-cases [] = inl refl
List-cases (x ∷ ys) = inr (x, ys, refl)

-- What the receiver has to do with the packets of the elements that are left.
abbrev Delivers : ℕ → RtpEncoder → Bool → List Av1ObuElement → ℕ → Bool → List ℕ → Type 0
Delivers fuel encoder n elements offset first tu =
    (r : Encoded) × (packet_loop fuel encoder n elements offset (ltb 0 offset) first ≡ some r)
    × (feed (under_way encoder.seq_number tu (sent elements offset) (ltb 0 offset)) r.packets
        ≡ (ready r.encoder.seq_number, (tu ++ all_low_overhead elements) ∷ []))

-- The last packet of a unit completes it.
feed_last :
    (d : Depay) (packet : List ℕ) (total seq offset : ℕ) (tu : List ℕ) (y : Bool)
    (f : List Av1ObuElement)
    → av1_depay_packet d packet
      ≡ finish_packet (to_ℕ (length f == 0)) total (under_way seq tu (sent f offset) y)
    → f ≡ []
    → offset ≡ 0
    → y ≡ ltb 0 offset
    → 2 < length tu
    → feed d (packet ∷ []) ≡ (ready seq, tu ∷ [])
unfolding feed
feed_last d packet total seq offset tu y [] arrives empty zero_offset closed h =
    let closed' : y ≡ false = ground arith in rw (arrives, closed', finish_last total seq tu h)
feed_last d packet total seq offset tu y (e ∷ f) arrives empty zero_offset closed h = cc

marker_unset :
    (e : Av1ObuElement) (elements : List Av1ObuElement) → to_ℕ (length (e ∷ elements) == 0) ≡ 0
marker_unset e elements = ground arith

feed_cons :
    (d : Depay) (packet : List ℕ) (packets : List (List ℕ)) (total : ℕ) (d' : Depay)
    (result : Depay × List (List ℕ))
    → av1_depay_packet d packet ≡ record { depay = d'; units = []; returned = size total }
    → feed d' packets ≡ result
    → feed d (packet ∷ packets) ≡ result
unfolding feed
feed_cons d packet packets total d' result step rest = rw step rest

-- A packet before it leaves the unit under way.
feed_more :
    (d : Depay) (packet : List ℕ) (packets : List (List ℕ)) (total seq offset : ℕ) (tu : List ℕ)
    (y : Bool) (f : List Av1ObuElement) (e : Av1ObuElement) (elements : List Av1ObuElement)
    (result : Depay × List (List ℕ))
    → av1_depay_packet d packet
      ≡ finish_packet (to_ℕ (length f == 0)) total (under_way seq tu (sent f offset) y)
    → f ≡ e ∷ elements
    → y ≡ ltb 0 offset
    → feed (under_way seq tu (sent (e ∷ elements) offset) (ltb 0 offset)) packets ≡ result
    → feed d (packet ∷ packets) ≡ result
feed_more d packet packets total seq offset tu y f e elements result arrives full closed rest =
    let d' = under_way seq tu (sent (e ∷ elements) offset) (ltb 0 offset) in
    let step : av1_depay_packet d packet ≡ finish_packet 0 total d' =
      arrives ∙ rw (full, closed, marker_unset e elements) in
    feed_cons d packet packets total d' result (step ∙ finish_more total d') rest

pub packet_loop_end :
    (fuel : ℕ) (encoder : RtpEncoder) (n : Bool) (offset : ℕ) (z first : Bool)
    → packet_loop fuel encoder n [] offset z first
      ≡ some (record { encoder = encoder; packets = [] })
unfolding packet_loop
packet_loop_end zero encoder n offset z first = refl
packet_loop_end (suc fuel) encoder n offset z first = refl

-- One round of the outer loop and the packet it sends, `f` being what it put into the packet.
module _ (fuel : ℕ) (encoder : RtpEncoder) (n : Bool) (e : Av1ObuElement)
    (elements : List Av1ObuElement) (offset : ℕ) (first : Bool) (tu tu' : List ℕ) (f : Filled)
    (filling : fill (e ∷ elements) offset [] ≡ f) (y : f.y ≡ ltb 0 f.offset)
    (arrives : av1_depay_packet
        (under_way encoder.seq_number tu (sent (e ∷ elements) offset) (ltb 0 offset))
        (av1_packet encoder (ltb 0 offset) (first && n) f)
      ≡ finish_packet
          (to_ℕ (length f.elements == 0))
          (13 + length f.body)
          (under_way (u16 (encoder.seq_number + 1)) tu' (sent f.elements f.offset) f.y))
    (same : tu' ++ all_low_overhead f.elements ≡ tu ++ all_low_overhead (e ∷ elements)) where
  abbrev next : RtpEncoder
  next = record encoder { seq_number = u16 (encoder.seq_number + 1) }

  abbrev packet : List ℕ
  packet = av1_packet encoder (ltb 0 offset) (first && n) f

  deliver_last :
      f.elements ≡ []
      → IsPosition f.elements f.offset
      → 2 ≤ length tu
      → Delivers (suc fuel) encoder n (e ∷ elements) offset first tu
  deliver_last last p started =
      let at_start : f.offset ≡ 0 = rw last at p in
      let whole : tu' ≡ tu ++ all_low_overhead (e ∷ elements) =
        sym (append-nil tu') ∙ (rw last at same) in
      let long : 2 < length tu' = omega (
        arith,
        ap (λ (xs : List ℕ). length xs) whole,
        length-append tu (all_low_overhead (e ∷ elements)),
        length-all_low_overhead e elements,
      ) in
      (
        record { encoder = next; packets = packet ∷ [] },
        packet_loop_step fuel encoder n e elements offset (ltb 0 offset) first f
            (record { encoder = next; packets = [] }) filling
            (rw last (packet_loop_end fuel next n f.offset (ltb 0 f.offset) false)),
        feed_last _ packet (13 + length f.body) next.seq_number f.offset tu' f.y f.elements arrives
              last at_start y long
            ∙ rw whole,
      )

  deliver_more :
      (e' : Av1ObuElement) (elements' : List Av1ObuElement)
      → f.elements ≡ e' ∷ elements'
      → Delivers fuel next n (e' ∷ elements') f.offset false tu'
      → Delivers (suc fuel) encoder n (e ∷ elements) offset first tu
  deliver_more e' elements' more (r, sends, fed) =
      let same' : tu' ++ all_low_overhead (e' ∷ elements') ≡ tu ++ all_low_overhead (e ∷ elements) =
        rw more at same in
      (
        record r { packets = packet ∷ r.packets },
        packet_loop_step fuel encoder n e elements offset (ltb 0 offset) first f r filling
            (rw more sends),
        feed_more _ packet r.packets (13 + length f.body) next.seq_number f.offset tu' f.y
            f.elements e' elements' _ arrives more y (fed ∙ rw same'),
      )

deliver :
    (fuel : ℕ) (encoder : RtpEncoder) (n : Bool) (e : Av1ObuElement) (elements : List Av1ObuElement)
    (offset : ℕ) (first : Bool) (tu : List ℕ)
    → All IsElement (e ∷ elements)
    → offset < element_len e
    → encoder.seq_number < 2 ^ 16
    → left_over (e ∷ elements) offset ≤ fuel
    → 2 ≤ length tu
    → length tu + length (all_low_overhead (e ∷ elements)) ≤ max_tu_size
    → Delivers fuel encoder n (e ∷ elements) offset first tu
deliver zero encoder n e elements offset first tu v p h enough started room =
    absurd (omega (arith, filled_progress e elements offset v p))
deliver (suc fuel) encoder n e elements offset first tu v p h enough started room =
    let f = filled (e ∷ elements) offset 0 in
    let next : RtpEncoder = record encoder { seq_number = u16 (encoder.seq_number + 1) } in
    let (fits, v', p', y) = filled_bounds (e ∷ elements) offset 0 v p (omega arith) (inl refl) in
    let (tu', arrives, same, grows) =
      packet_arrives encoder (first && n) (e ∷ elements) offset tu v p h
        (filled_sends e elements offset v p) room in
    let filling = fill_empty (e ∷ elements) offset v in
    elim (List-cases f.elements) [
      | inl last ↦
          deliver_last fuel encoder n e elements offset first tu tu' f filling y arrives same last
            p' started
      | inr (e', elements', more) ↦
          let shrinks : left_over f.elements f.offset < left_over (e ∷ elements) offset =
            filled_progress e elements offset v p in
          let same' : tu' ++ all_low_overhead (e' ∷ elements')
              ≡ tu ++ all_low_overhead (e ∷ elements) =
            rw more at same in
          let shrinks' : left_over (e' ∷ elements') f.offset < left_over (e ∷ elements) offset =
            rw more at shrinks in
          deliver_more fuel encoder n e elements offset first tu tu' f filling y arrives same e'
            elements' more
            (deliver fuel next n e' elements' f.offset false tu' (rw more at v') (rw more at p')
              (omega arith) (omega arith) (omega arith)
              (omega (
                arith,
                ap (λ (xs : List ℕ). length xs) same',
                length-append tu' (all_low_overhead (e' ∷ elements')),
                length-append tu (all_low_overhead (e ∷ elements)),
              )))
    ]

-- The elements of one temporal unit, sent and received.
deliver_elements :
    (encoder : RtpEncoder) (n : Bool) (e : Av1ObuElement) (elements : List Av1ObuElement)
    → encoder.seq_number < 2 ^ 16
    → All IsElement (e ∷ elements)
    → 2 + length (all_low_overhead (e ∷ elements)) ≤ max_tu_size
    → (r : Encoded) × (send_elements encoder n (e ∷ elements) ≡ some (ok, r))
      × (feed (ready encoder.seq_number) r.packets ≡ (
        ready r.encoder.seq_number,
        (temporal_delimiter ++ all_low_overhead (e ∷ elements)) ∷ [],
      ))
deliver_elements encoder n e elements h v room =
    let (r, sends, fed) =
      deliver (total_len (e ∷ elements)) encoder n e elements 0 true temporal_delimiter v
        (element_len_pos e (v.0)) h (unfold left_over in omega arith) (omega arith) room in
    (
      record r {
        encoder = record (r.encoder) {
          timestamp = u32 (r.encoder.timestamp + r.encoder.timestamp_increment);
        };
      },
      unfold send_elements in ground (arith, sends),
      fed,
    )

-- A temporal unit in the low-overhead format, temporal delimiter included.
abbrev pub temporal_unit : List Av1ObuElement → List ℕ
temporal_unit elements = temporal_delimiter ++ all_low_overhead elements

pub encode_unit :
    (encoder : RtpEncoder) (e : Av1ObuElement) (elements : List Av1ObuElement)
    → All CanTravel (e ∷ elements)
    → length (e ∷ elements) ≤ max_obu_per_tu
    → rtp_encoder_encode_av1 encoder (temporal_unit (e ∷ elements))
      ≡ send_elements encoder (has_sequence_header (e ∷ elements)) (e ∷ elements)
unfolding rtp_encoder_encode_av1
encode_unit encoder e elements v few = ground (arith, parse-low_overhead (e ∷ elements) v few)

-- A temporal unit of 1 to 32 OBUs of the kinds that are forwarded, each with an obu_size field and all
-- behind a temporal delimiter, is accepted by rtp_encoder_encode_av1; and a receiver that is in step with
-- the encoder gets, from the packets sent, that very temporal unit byte for byte, once, and is in step
-- with the encoder again. The unit has to fit the receiver's buffer.
pub av1_roundtrip :
    (encoder : RtpEncoder) (e : Av1ObuElement) (elements : List Av1ObuElement)
    → encoder.seq_number < 2 ^ 16
    → All CanTravel (e ∷ elements)
    → length (e ∷ elements) ≤ max_obu_per_tu
    → length (temporal_unit (e ∷ elements)) ≤ max_tu_size
    → (r : Encoded) × (rtp_encoder_encode_av1 encoder (temporal_unit (e ∷ elements)) ≡ some (ok, r))
      × (feed (ready encoder.seq_number) r.packets
          ≡ (ready r.encoder.seq_number, temporal_unit (e ∷ elements) ∷ []))
av1_roundtrip encoder e elements h v few room =
    let (r, sends, fed) =
      deliver_elements encoder (has_sequence_header (e ∷ elements)) e elements h
        (IsElement-of_travel (e ∷ elements) v) (omega arith) in
    (r, encode_unit encoder e elements v few ∙ sends, fed)
