-- ===== src/Av1/Join.antt =====
-- A receiver that joins mid-stream or lost packets picks up at a coded video sequence (src/rtp.c).
use libpeer.Base.{
  ℕ, zero, suc, ◌+◌, ◌/◌, ◌%◌, ◌^◌, ◌≤◌, ◌<◌, ◌≡◌, sym, ◌∙◌, Bool, true, false, List, [], ◌∷◌, some,
  arith, ◌==◌, to_ℕ, length, All, ◌⊎◌, inl, inr, Option-cases, drop,
}
use libpeer.Rtp.Encoder.{RtpEncoder, Encoded, ok}
use libpeer.Av1.Obu.{Av1ObuElement, max_obu_per_tu}
use libpeer.Av1.Packetize.{
  Filled, av1_packet, aggregation_header, packet_loop, fill, send_elements, total_len,
  rtp_encoder_encode_av1,
}
use libpeer.Av1.Depay.{
  Depay, max_tu_size, depay_reset, depay_payload, track_sequence, depay_start, av1_depay_packet,
  feed,
}
use libpeer.Av1.Chunks.{filled_sends, fill_empty, element_len_pos}
use libpeer.Av1.Packet.{depay-packet}
use libpeer.Av1.Parse.{CanTravel, IsElement-of_travel, has_sequence_header}
use libpeer.Av1.Deliver.{ready, aggregation_fields}
use libpeer.Av1.RoundTrip.{temporal_unit, av1_roundtrip, encode_unit}

-- A receiver that has seen no packet yet, or that discards until a coded video sequence begins.
abbrev pub Waits : Depay → Type 0
Waits d = (d.started ≡ false) ⊎ (d.dropping ≡ true)

join_payload :
    (marker total aggr seq : ℕ) (payload : List ℕ) (d : Depay)
    → Waits d
    → aggr / 2 ^ 7 % 2 ≡ 0
    → (aggr / 2 ^ 3 % 2 == 0) ≡ false
    → depay_payload marker total aggr payload (track_sequence (depay_start d) seq)
      ≡ depay_payload marker total aggr payload (track_sequence (depay_start (ready seq)) seq)
unfolding depay_payload track_sequence depay_start depay_reset
join_payload marker total aggr seq payload d w z s = ground arith

-- The packet with N set finds such a receiver as good as new.
join_packet :
    (encoder : RtpEncoder) (f : Filled) (d : Depay)
    → Waits d
    → encoder.seq_number < 2 ^ 16
    → 0 < length f.body
    → av1_depay_packet d (av1_packet encoder false true f)
      ≡ av1_depay_packet (ready encoder.seq_number) (av1_packet encoder false true f)
unfolding av1_packet
join_packet encoder f d w h pos =
    let marker = length f.elements == 0 in
    let aggr = aggregation_header false f.y true in
    let (z, y, wide, s) = aggregation_fields false f.y true in
    depay-packet encoder marker aggr f.body d h pos
    ∙ join_payload (to_ℕ marker) (13 + length f.body) aggr encoder.seq_number f.body d w z s
    ∙ sym (depay-packet encoder marker aggr f.body (ready encoder.seq_number) h pos)

feed_first :
    (d d' : Depay) (packets rest : List (List ℕ)) (packet : List ℕ)
    → packets ≡ packet ∷ rest
    → av1_depay_packet d packet ≡ av1_depay_packet d' packet
    → feed d packets ≡ feed d' packets
unfolding feed
feed_first d d' packets rest packet e same = rw e (rw same)

-- The first packet of a temporal unit.
first_packet :
    (fuel : ℕ) (encoder : RtpEncoder) (n : Bool) (e : Av1ObuElement) (elements : List Av1ObuElement)
    (r : Encoded)
    → packet_loop fuel encoder n (e ∷ elements) 0 false true ≡ some r
    → r.packets ≡ av1_packet encoder false n (fill (e ∷ elements) 0 []) ∷ drop 1 r.packets
unfolding packet_loop
first_packet zero encoder n e elements r h = cc
first_packet (suc fuel) encoder n e elements r h = ground arith

first_sent :
    (encoder : RtpEncoder) (n : Bool) (e : Av1ObuElement) (elements : List Av1ObuElement)
    (r : Encoded)
    → send_elements encoder n (e ∷ elements) ≡ some (ok, r)
    → r.packets ≡ av1_packet encoder false n (fill (e ∷ elements) 0 []) ∷ drop 1 r.packets
unfolding send_elements
first_sent encoder n e elements r h =
    let loop = packet_loop (total_len (e ∷ elements)) encoder n (e ∷ elements) 0 false true in
    elim (Option-cases loop) [
      | inl none_sent ↦ absurd (ground (arith, none_sent))
      | inr (r', sends) ↦
          let first = first_packet (total_len (e ∷ elements)) encoder n e elements r' sends in
          ground (arith, sends, first)
    ]

-- A temporal unit as in the round trip that holds a sequence header is delivered byte for byte also to a
-- receiver that has seen no packet yet, or that discards after a loss, whatever else its state.
pub av1_join :
    (encoder : RtpEncoder) (e : Av1ObuElement) (elements : List Av1ObuElement) (d : Depay)
    → encoder.seq_number < 2 ^ 16
    → All CanTravel (e ∷ elements)
    → length (e ∷ elements) ≤ max_obu_per_tu
    → length (temporal_unit (e ∷ elements)) ≤ max_tu_size
    → has_sequence_header (e ∷ elements) ≡ true
    → Waits d
    → (r : Encoded) × (rtp_encoder_encode_av1 encoder (temporal_unit (e ∷ elements)) ≡ some (ok, r))
      × (feed d r.packets ≡ (ready r.encoder.seq_number, temporal_unit (e ∷ elements) ∷ []))
av1_join encoder e elements d h v few room key waits =
    let (r, sends, fed) = av1_roundtrip encoder e elements h v few room in
    let sent' : send_elements encoder (has_sequence_header (e ∷ elements)) (e ∷ elements)
        ≡ some (ok, r) =
      sym (encode_unit encoder e elements v few) ∙ sends in
    let vs = IsElement-of_travel (e ∷ elements) v in
    let f = fill (e ∷ elements) 0 [] in
    let pos : 0 < length f.body =
      rw (fill_empty (e ∷ elements) 0 vs) (filled_sends e elements 0 vs (element_len_pos e vs.0)) in
    let first : r.packets ≡ av1_packet encoder false true f ∷ drop 1 r.packets =
      rw key at (first_sent encoder _ e elements r sent') in
    (
      r,
      sends,
      feed_first d (ready encoder.seq_number) r.packets (drop 1 r.packets)
            (av1_packet encoder false true f) first (join_packet encoder f d waits h pos)
          ∙ fed,
    )
