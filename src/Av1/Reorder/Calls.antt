-- ===== src/Av1/Reorder/Calls.antt =====
-- What a call of rtp_decode_av1 releases, and what it leaves in the window.
use libpeer.Base.{
  ℕ, suc, ◌+◌, ◌%◌, ◌^◌, ◌≤◌, ◌<◌, ◌≡◌, ◌≢◌, refl, ap, ◌∙◌, true, false, List, [], ◌∷◌, ◌++◌, arith,
  length, length-append, get_or, get_or-All, get_or_beyond, set_restore, set, get_or-set_self, ◌⊎◌,
  inl, inr, dec_lt, All,
}
use mathlib.Core.List.{Perm}
use libpeer.Base.Word.{u16, IsByte}
use libpeer.Rtp.Header.{seq_number}
use libpeer.Av1.Depay.{size}
use libpeer.Av1.Reorder.{
  Av1Reorder, Decoded, reorder_depth, recv_buffer_size, slot_of, flush, distance, accept, place,
  begin_at, reorder_packet,
}
use libpeer.Av1.Reorder.Window.{
  IsWindow, Consecutive, held, held-fill, waiting_in, drain_stop, drain_step,
}
use libpeer.Av1.Reorder.Order.{put, accept-IsDrained, flush-IsFlushed, flush-empty}
use libpeer.Av1.Reorder.Released.{upcoming, flush-released}

pub seq_number_lt : (buf : List ℕ) → All IsByte buf → seq_number buf < 2 ^ 16
unfolding seq_number
seq_number_lt buf bytes = omega (
  arith,
  get_or-All IsByte buf 2 0 bytes (omega arith),
  get_or-All IsByte buf 3 0 bytes (omega arith),
)

nil-cases : (packet : List ℕ) → (packet ≡ []) ⊎ (packet ≢ [])
nil-cases [] = inl refl
nil-cases (b ∷ packet) = inr (λ e. ground arith)

-- The state between two calls: before the first packet nothing waits.
pub record IsSettled (r : Av1Reorder) : Type 0 where
  pub window : IsWindow r
  pub idle : r.started ≡ false → (j : ℕ) → get_or r.slots j [] ≡ []

-- What is released when a packet within the window arrives.
pub record IsReleased (r : Av1Reorder) (buf : List ℕ) (o : Decoded) : Type 0 where
  pub in_order : Consecutive r.expect o.released
  pub moved : o.reorder.expect ≡ (r.expect + length o.released) % 2 ^ 16
  pub none_lost :
      (get_or r.slots (slot_of (seq_number buf)) [] ≢ [])
      ⊎ (held o.reorder.slots + length o.released ≡ suc (held r.slots))
  pub same_packets :
      Perm
        (o.released ++ waiting_in o.reorder.slots)
        (waiting_in (set r.slots (slot_of (seq_number buf)) buf))
  pub waits : get_or o.reorder.slots (slot_of o.reorder.expect) [] ≡ []
  pub settled : IsSettled o.reorder

abbrev pub FitsBuffer : List ℕ → Type 0
FitsBuffer buf = (12 ≤ length buf) × (length buf ≤ recv_buffer_size)

module _ (r : Av1Reorder) (buf : List ℕ) where
  abbrev in_window : Decoded
  in_window =
      (let o = accept r (seq_number buf) buf in
        record { reorder = o.reorder; released = o.released; returned = size (length buf) })

  place_near :
      distance (seq_number buf) r.expect < reorder_depth → place r (seq_number buf) buf ≡ in_window
  unfolding place
  place_near near = ground arith

  reorder_begun :
      FitsBuffer buf → r.started ≡ true → reorder_packet r buf ≡ place r (seq_number buf) buf
  unfolding reorder_packet begin_at
  reorder_begun (long, short) started = ground arith

  put-held :
      12 ≤ length buf
      → IsWindow r
      → get_or r.slots (slot_of (seq_number buf)) [] ≡ []
      → held (put r buf).slots ≡ suc (held r.slots)
  put-held long w free =
      held-fill r.slots (slot_of (seq_number buf)) buf (omega (arith, w.four)) free
        (λ e. ground arith)

-- A packet of 12 to 2048 bytes whose number is one of the four from the expected one on, given to a
-- well-formed reorder buffer of a stream that has begun, is put into its slot. The packets released then,
-- with those that still wait, are just the packets in the slots, the new one in its own, each as it was: the
-- new one may be released at once or wait. Those released carry consecutive numbers from the expected one on,
-- which moves behind them; they and those that wait are one more than before unless the slot of the packet
-- was taken; the packet expected next is not there; and the buffer stays well-formed.
pub reorder_window :
    (r : Av1Reorder) (buf : List ℕ)
    → IsSettled r
    → r.started ≡ true
    → All IsByte buf
    → FitsBuffer buf
    → distance (seq_number buf) r.expect < reorder_depth
    → IsReleased r buf (reorder_packet r buf)
reorder_window r buf s started bytes fits near =
    let d = accept-IsDrained r buf s.window (seq_number_lt buf bytes) near in
    rw (reorder_begun r buf fits started, place_near r buf near)
      (record {
        in_order = d.in_order;
        moved = d.moved;
        none_lost = elim (nil-cases (get_or r.slots (slot_of (seq_number buf)) [])) [
          | inl free ↦ inr (d.none_lost ∙ put-held r buf fits.0 s.window free)
          | inr full ↦ inl full
        ];
        same_packets = d.same_packets;
        waits = d.waits;
        settled = record { window = d.window; idle = λ e. absurd (ground (arith, d.same_started)) };
      })

-- What a gap leaves in front of the packet behind it.
module _ (r : Av1Reorder) (buf : List ℕ) where
  abbrev pub jumped : Av1Reorder
  jumped = record ((flush r).reorder) { expect = seq_number buf }

  jumped-IsWindow : IsWindow r → seq_number buf < 2 ^ 16 → IsWindow jumped
  jumped-IsWindow w lt = record {
    four = (flush-IsFlushed r).same_length ∙ w.four;
    sequence = lt;
    waiting = λ j h. inl (flush-empty r j h);
  }

  jumped_free : IsWindow r → (j : ℕ) → get_or jumped.slots j [] ≡ []
  jumped_free w j = elim (dec_lt j 4) [
    | yes h ↦ flush-empty r j h
    | no far ↦
        get_or_beyond jumped.slots j [] (omega (arith, (flush-IsFlushed r).same_length, w.four))
  ]

-- Where nothing waits, the expected packet passes straight through.
module _ (r : Av1Reorder) (b : ℕ) (packet : List ℕ) where
  abbrev pub advanced : Av1Reorder
  advanced = record r { expect = u16 (r.expect + 1) }

  pub accept_alone :
      length r.slots ≡ 4
      → ((j : ℕ) → get_or r.slots j [] ≡ [])
      → seq_number (b ∷ packet) ≡ r.expect
      → accept r (seq_number (b ∷ packet)) (b ∷ packet)
        ≡ record { reorder = advanced; released = (b ∷ packet) ∷ [] }
  unfolding accept
  accept_alone four free e =
      let at_slot : get_or (put r (b ∷ packet)).slots (slot_of r.expect) [] ≡ b ∷ packet =
        rw e (get_or-set_self r.slots (slot_of r.expect) (b ∷ packet) [] (omega (arith, four))) in
      let restored : set (put r (b ∷ packet)).slots (slot_of r.expect) [] ≡ r.slots =
        rw e (set_restore r.slots (slot_of r.expect) (b ∷ packet) [] (free (slot_of r.expect))) in
      drain_step 3 (put r (b ∷ packet)) b packet at_slot
      ∙ rw (restored, drain_stop 2 advanced (free _))

all_free : (slots : List (List ℕ)) → ((j : ℕ) → get_or slots j [] ≡ []) → held slots ≡ 0
unfolding held
all_free [] free = refl
all_free ([] ∷ slots) free = all_free slots (λ j. free (suc j))
all_free ((b ∷ packet) ∷ slots) free = absurd (ground (arith, free 0))

-- What is released when a packet arrives that is behind a gap.
pub record IsJump (r : Av1Reorder) (buf : List ℕ) (o : Decoded) : Type 0 where
  pub all_released : length o.released ≡ suc (held r.slots)
  pub in_order : o.released ≡ waiting_in (upcoming 4 0 r.expect r.slots) ++ (buf ∷ [])
  pub moved : o.reorder.expect ≡ u16 (seq_number buf + 1)
  pub none_left : held o.reorder.slots ≡ 0
  pub settled : IsSettled o.reorder

module _ (r : Av1Reorder) (b : ℕ) (packet : List ℕ) where
  abbrev buf : List ℕ
  buf = b ∷ packet

  place_far :
      IsWindow r
      → reorder_depth ≤ distance (seq_number buf) r.expect
      → distance (seq_number buf) r.expect < 2 ^ 15
      → place r (seq_number buf) buf ≡ record {
        reorder = advanced (jumped r buf) b packet;
        released = (flush r).released ++ (buf ∷ []);
        returned = size (length buf);
      }
  unfolding place
  place_far w far near =
      let alone =
        accept_alone (jumped r buf) b packet ((flush-IsFlushed r).same_length ∙ w.four)
          (jumped_free r buf w) refl in
      ground (arith, alone)

  IsJump-released :
      IsSettled r
      → r.started ≡ true
      → IsJump r buf (record {
        reorder = advanced (jumped r buf) b packet;
        released = (flush r).released ++ (buf ∷ []);
        returned = size (length buf);
      })
  IsJump-released s started =
      let none_left = all_free (jumped r buf).slots (jumped_free r buf s.window) in
      record {
        all_released = omega (
          arith,
          length-append (flush r).released (buf ∷ []),
          (flush-IsFlushed r).none_lost,
          none_left,
        );
        in_order = ap (λ packets. packets ++ (buf ∷ [])) (flush-released r);
        moved = refl;
        none_left = none_left;
        settled = record {
          window = record {
            four = (flush-IsFlushed r).same_length ∙ s.window.four;
            sequence = omega arith;
            waiting = λ j h. inl (flush-empty r j h);
          };
          idle = λ e. absurd (ground (arith, (flush-IsFlushed r).same_started));
        };
      }

-- A packet of 12 to 2048 bytes whose number is 4 or more, but less than 2 ^ 15, ahead of the expected
-- one, given to a well-formed reorder buffer of a stream that has begun, releases every packet that
-- waits and then itself: what the four slots hold, as it was, from the slot of the expected number on, and
-- the packet behind it. So nothing is left, and the number behind it is expected next.
pub reorder_gap :
    (r : Av1Reorder) (b : ℕ) (packet : List ℕ)
    → IsSettled r
    → r.started ≡ true
    → FitsBuffer (b ∷ packet)
    → reorder_depth ≤ distance (seq_number (b ∷ packet)) r.expect
    → distance (seq_number (b ∷ packet)) r.expect < 2 ^ 15
    → IsJump r (b ∷ packet) (reorder_packet r (b ∷ packet))
reorder_gap r b packet s started fits far near =
    rw (reorder_begun r (b ∷ packet) fits started, place_far r b packet s.window far near)
      (IsJump-released r b packet s started)
