-- ===== src/Av1/Reorder.antt =====
-- Av1Reorder, av1_reorder_release, av1_reorder_drain, av1_reorder_flush and rtp_decode_av1 of
-- src/rtp.c: packets that arrive out of order wait for the ones before them.
pub mod Window
pub mod Order
pub mod Released
pub mod Calls
pub mod Stream
use libpeer.Base.{
  ℕ, zero, suc, ◌+◌, ◌-◌, ◌%◌, ◌^◌, ◌≡◌, Bool, true, false, not, ◌||◌, List, [], ◌∷◌, ◌++◌, ltb,
  leb, if◌then◌else◌, length, get_or, set,
}
use libpeer.Base.Word.{u16}
use libpeer.Rtp.Header.{seq_number}
use libpeer.Av1.Depay.{Depay, feed, Returned, minus_one, size}

-- CONFIG_AV1_REORDER_DEPTH and CONFIG_RECV_BUFFER_SIZE
abbrev pub reorder_depth : ℕ
reorder_depth = 4

abbrev pub recv_buffer_size : ℕ
recv_buffer_size = 2048

-- struct Av1Reorder: a slot is the packet that it holds, and the empty list where its `len` is 0.
pub record Av1Reorder : Type 0 where
  pub slots : List (List ℕ)
  pub expect : ℕ
  pub started : Bool

-- The state and the packets released, in the order in which av1_reorder_release passes them on.
pub record Reordered : Type 0 where
  pub reorder : Av1Reorder
  pub released : List (List ℕ)

abbrev pub slot_of : ℕ → ℕ
slot_of seq = seq % reorder_depth

-- av1_reorder_release empties the slot; the packet goes to av1_depay_packet.
abbrev pub empty_slot : Av1Reorder → ℕ → Av1Reorder
empty_slot r slot = record r { slots = set r.slots slot [] }

-- av1_reorder_drain. Each round empties a slot, so `reorder_depth` rounds are enough.
unfoldable pub drain : ℕ → Av1Reorder → Reordered
drain zero r = record { reorder = r; released = [] }
drain (suc fuel) r = elim (get_or r.slots (slot_of r.expect) []) [
  | [] ↦ record { reorder = r; released = [] }
  | b ∷ packet ↦
      let rest =
        drain fuel (record (empty_slot r (slot_of r.expect)) { expect = u16 (r.expect + 1) }) in
      record rest { released = (b ∷ packet) ∷ rest.released }
]

-- av1_reorder_flush, with `left` rounds to go from the offset `i` on.
unfoldable pub flush_from : ℕ → ℕ → Av1Reorder → Reordered
flush_from zero i r = record { reorder = r; released = [] }
flush_from (suc left) i r =
    let slot = slot_of (u16 (r.expect + i)) in
    elim (get_or r.slots slot []) [
      | [] ↦ flush_from left (i + 1) r
      | b ∷ packet ↦
          let rest = flush_from left (i + 1) (empty_slot r slot) in
          record rest { released = (b ∷ packet) ∷ rest.released }
    ]

unfoldable pub flush : Av1Reorder → Reordered
flush r = flush_from reorder_depth 0 r

-- The 16 bits of `seq - expect`: as an int16_t they are negative from 2 ^ 15 on.
unfoldable pub distance : ℕ → ℕ → ℕ
distance seq expect = (seq + 2 ^ 16 - expect) % 2 ^ 16

-- The packet is put into its slot, and what is now in sequence is released.
unfoldable pub accept : Av1Reorder → ℕ → List ℕ → Reordered
accept r seq buf = drain reorder_depth (record r { slots = set r.slots (slot_of seq) buf })

-- What a call of rtp_decode_av1 does: the packets it releases, and what it returns.
pub record Decoded : Type 0 where
  pub reorder : Av1Reorder
  pub released : List (List ℕ)
  pub returned : Returned

-- A packet of a size that fits, once the stream has begun.
unfoldable pub place : Av1Reorder → ℕ → List ℕ → Decoded
place r seq buf =
    let ahead = distance seq r.expect in
    let flushed = flush r in
    let after_gap = accept (record (flushed.reorder) { expect = seq }) seq buf in
    let in_window = accept r seq buf in
    if leb (2 ^ 15) ahead
    then record { reorder = r; released = []; returned = size (length buf) }
    else if leb reorder_depth ahead
    then record {
      reorder = after_gap.reorder;
      released = flushed.released ++ after_gap.released;
      returned = size (length buf);
    }
    else record {
      reorder = in_window.reorder;
      released = in_window.released;
      returned = size (length buf);
    }

-- The first packet fixes where the sequence begins.
unfoldable pub begin_at : Av1Reorder → ℕ → Av1Reorder
begin_at r seq = if r.started then r else record r { started = true; expect = seq }

unfoldable pub reorder_packet : Av1Reorder → List ℕ → Decoded
reorder_packet r buf =
    if ltb (length buf) 12 || ltb recv_buffer_size (length buf)
    then record { reorder = r; released = []; returned = minus_one }
    else place (begin_at r (seq_number buf)) (seq_number buf) buf

-- The two static objects behind rtp_decode_av1.
pub record Av1Decoder : Type 0 where
  pub reorder : Av1Reorder
  pub depay : Depay

-- rtp_decode_av1: its state, the temporal units given to `on_packet`, and its value.
unfoldable pub rtp_decode_av1 : Av1Decoder → List ℕ → Av1Decoder × List (List ℕ) × Returned
rtp_decode_av1 s buf =
    let o = reorder_packet s.reorder buf in
    let (depay', units) = feed s.depay o.released in
    (record { reorder = o.reorder; depay = depay' }, units, o.returned)
