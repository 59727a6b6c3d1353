-- ===== src/Av1/Runs.antt =====
-- Any run of rtp_decode_av1, whatever packets arrive (src/rtp.c).
use libpeer.Base.{ℕ, ◌≤◌, List, [], ◌∷◌, length, All, All-append}
use libpeer.Base.Word.{IsByte}
use libpeer.Av1.Depay.{Depay, max_tu_size, feed, av1_depay_packet}
use libpeer.Av1.Safety.{Fits, av1_depay_packet-IsSafe}
use libpeer.Av1.Reorder.{Av1Decoder, reorder_packet, rtp_decode_av1}
use libpeer.Av1.Reorder.Calls.{IsSettled}
use libpeer.Av1.Reorder.Stream.{reorder_packet-IsSettled, decode_all}

abbrev UnitFits : List ℕ → Type 0
UnitFits unit = length unit ≤ max_tu_size

feed-Fits :
    (packets : List (List ℕ)) (d : Depay)
    → Fits d
    → Fits (feed d packets).0 × All UnitFits (feed d packets).1
unfolding feed
feed-Fits [] d fits = (fits, tt)
feed-Fits (packet ∷ packets) d fits =
    let safe = av1_depay_packet-IsSafe d packet fits in
    let (fits', units) = feed-Fits packets (av1_depay_packet d packet).depay safe.intact in
    (fits', All-append UnitFits (av1_depay_packet d packet).units _ safe.delivered units)

-- Both objects are well-formed, and the units delivered fit.
pub record IsSound (s : Av1Decoder) (units : List (List ℕ)) : Type 0 where
  pub settled : IsSettled s.reorder
  pub intact : Fits s.depay
  pub delivered : All UnitFits units

decode-IsSound :
    (s : Av1Decoder) (buf : List ℕ)
    → IsSettled s.reorder
    → Fits s.depay
    → All IsByte buf
    → IsSound (rtp_decode_av1 s buf).0 (rtp_decode_av1 s buf).1
unfolding rtp_decode_av1
decode-IsSound s buf settled fits bytes =
    let (fits', units) = feed-Fits (reorder_packet s.reorder buf).released s.depay fits in
    record {
      settled = reorder_packet-IsSettled s.reorder buf settled bytes;
      intact = fits';
      delivered = units;
    }

-- Whatever packets arrive, in whatever order, at a decoder whose reorder buffer is well-formed and
-- whose depacketizer state fits its buffer, both stay so, and no temporal unit delivered is longer
-- than that buffer.
pub decode_all-IsSound :
    (packets : List (List ℕ)) (s : Av1Decoder)
    → IsSettled s.reorder
    → Fits s.depay
    → All (All IsByte) packets
    → IsSound (decode_all s packets).0 (decode_all s packets).1
unfolding decode_all
decode_all-IsSound [] s settled fits bytes = record {
  settled = settled;
  intact = fits;
  delivered = tt;
}
decode_all-IsSound (packet ∷ packets) s settled fits (b, bs) =
    let first = decode-IsSound s packet settled fits b in
    let rest =
      decode_all-IsSound packets (rtp_decode_av1 s packet).0 first.settled first.intact bs in
    record {
      settled = rest.settled;
      intact = rest.intact;
      delivered = All-append UnitFits (rtp_decode_av1 s packet).1 _ first.delivered rest.delivered;
    }
