-- ===== src/Av1/Reorder/Order.antt =====
-- What one packet does to the window: av1_reorder_flush, and the tail of rtp_decode_av1.
use libpeer.Base.{
  ℕ, zero, suc, ◌+◌, ◌-◌, ◌%◌, ◌^◌, ◌≤◌, ◌<◌, ◌≡◌, refl, ◌∙◌, List, [], ◌∷◌, arith, length,
  length-set, get_or, set, get_or-set_self, get_or-set_ne, inr, ℕ_discrete,
}
use libpeer.Base.Word.{u16}
use libpeer.Rtp.Header.{seq_number}
use libpeer.Av1.Reorder.{
  Av1Reorder, Reordered, reorder_depth, slot_of, empty_slot, flush_from, flush, distance, accept,
}
use libpeer.Av1.Reorder.Window.{
  IsWindow, held, held-le-length, held-empty, IsDrained, drain-IsDrained,
}

-- The packet goes into its slot.
abbrev pub put : Av1Reorder → List ℕ → Av1Reorder
put r buf = record r { slots = set r.slots (slot_of (seq_number buf)) buf }

pub put-IsWindow :
    (r : Av1Reorder) (buf : List ℕ)
    → IsWindow r
    → seq_number buf < 2 ^ 16
    → distance (seq_number buf) r.expect < reorder_depth
    → IsWindow (put r buf)
put-IsWindow r buf w lt near = record {
  four = length-set r.slots (slot_of (seq_number buf)) buf ∙ w.four;
  sequence = w.sequence;
  waiting = λ j h. elim (ℕ_discrete (slot_of (seq_number buf)) j) [
    | yes e ↦ inr (
        rw (← e) (
          rw (get_or-set_self r.slots (slot_of (seq_number buf)) buf [] (omega (arith, w.four)))
            (lt, refl, near)))
    | no ne ↦ rw (get_or-set_ne r.slots (slot_of (seq_number buf)) j buf [] ne) (w.waiting j h)
  ];
}

pub accept-IsDrained :
    (r : Av1Reorder) (buf : List ℕ)
    → IsWindow r
    → seq_number buf < 2 ^ 16
    → distance (seq_number buf) r.expect < reorder_depth
    → IsDrained (put r buf) (accept r (seq_number buf) buf)
unfolding accept
accept-IsDrained r buf w lt near =
    drain-IsDrained 4 (put r buf) (put-IsWindow r buf w lt near)
      (omega (arith, held-le-length (put r buf).slots, (put-IsWindow r buf w lt near).four))

set_empty : (slots : List (List ℕ)) (j : ℕ) → get_or (set slots j []) j [] ≡ []
set_empty [] j = refl
set_empty (packet ∷ slots) zero = refl
set_empty (packet ∷ slots) (suc j) = set_empty slots j

-- What av1_reorder_flush leaves and releases, from the offset `i` on with `left` rounds to go.
pub record IsFlushed (r : Av1Reorder) (left i : ℕ) (o : Reordered) : Type 0 where
  pub same_length : length o.reorder.slots ≡ length r.slots
  pub same_started : o.reorder.started ≡ r.started
  pub none_lost : held o.reorder.slots + length o.released ≡ held r.slots
  pub stays_empty : (j : ℕ) → get_or r.slots j [] ≡ [] → get_or o.reorder.slots j [] ≡ []
  pub emptied :
      (k : ℕ) → i ≤ k → k < i + left → get_or o.reorder.slots (slot_of (u16 (r.expect + k))) [] ≡ []

module _ (left i : ℕ) (r : Av1Reorder) where
  abbrev pub here : ℕ
  here = slot_of (u16 (r.expect + i))

  pub flush_skip :
      get_or r.slots here [] ≡ [] → flush_from (suc left) i r ≡ flush_from left (i + 1) r
  unfolding flush_from
  flush_skip h = ground arith

  pub flush_release :
      (b : ℕ) (packet : List ℕ)
      → get_or r.slots here [] ≡ b ∷ packet
      → flush_from (suc left) i r ≡ (
          let rest = flush_from left (i + 1) (empty_slot r here) in
          record rest { released = (b ∷ packet) ∷ rest.released })
  unfolding flush_from
  flush_release b packet h = ground arith

  skip-IsFlushed :
      (o : Reordered)
      → get_or r.slots here [] ≡ []
      → IsFlushed r left (i + 1) o
      → IsFlushed r (suc left) i o
  skip-IsFlushed o free f = record {
    same_length = f.same_length;
    same_started = f.same_started;
    none_lost = f.none_lost;
    stays_empty = f.stays_empty;
    emptied = λ k low high. elim (ℕ_discrete i k) [
      | yes e ↦ rw (← e) (f.stays_empty here free)
      | no ne ↦ f.emptied k (omega arith) (omega arith)
    ];
  }

  here_empty : get_or (set r.slots here []) here [] ≡ []
  here_empty = set_empty r.slots here

  still_empty : (j : ℕ) → get_or r.slots j [] ≡ [] → get_or (set r.slots here []) j [] ≡ []
  still_empty j h = elim (ℕ_discrete here j) [
    | yes e ↦ rw (← e) here_empty
    | no ne ↦ get_or-set_ne r.slots here j [] [] ne ∙ h
  ]

  release-IsFlushed :
      (b : ℕ) (packet : List ℕ) (o : Reordered)
      → get_or r.slots here [] ≡ b ∷ packet
      → IsFlushed (empty_slot r here) left (i + 1) o
      → IsFlushed r (suc left) i (record o { released = (b ∷ packet) ∷ o.released })
  release-IsFlushed b packet o full f = record {
    same_length = f.same_length ∙ length-set r.slots here [];
    same_started = f.same_started;
    none_lost = omega (arith, f.none_lost, held-empty r.slots here (λ h. ground arith));
    stays_empty = λ j h. f.stays_empty j (still_empty j h);
    emptied = λ k low high. elim (ℕ_discrete i k) [
      | yes e ↦ rw (← e) (f.stays_empty here here_empty)
      | no ne ↦ f.emptied k (omega arith) (omega arith)
    ];
  }

flush_from-IsFlushed : (left i : ℕ) (r : Av1Reorder) → IsFlushed r left i (flush_from left i r)
unfolding flush_from
flush_from-IsFlushed zero i r = record {
  same_length = refl;
  same_started = refl;
  none_lost = omega arith;
  stays_empty = λ j h. h;
  emptied = λ k low high. absurd (omega arith);
}
flush_from-IsFlushed (suc left) i r =
    go (get_or r.slots (here left i r) []) refl (flush_from-IsFlushed left (i + 1) r)
      (flush_from-IsFlushed left (i + 1) (empty_slot r (here left i r)))
  where
    go :
        (packet : List ℕ)
        → get_or r.slots (here left i r) [] ≡ packet
        → IsFlushed r left (i + 1) (flush_from left (i + 1) r)
        → IsFlushed
            (empty_slot r (here left i r))
            left
            (i + 1)
            (flush_from left (i + 1) (empty_slot r (here left i r)))
        → IsFlushed r (suc left) i (flush_from (suc left) i r)
    go [] e skipped emptied = rw (flush_skip left i r e) (skip-IsFlushed left i r _ e skipped)
    go (b ∷ packet) e skipped emptied =
        rw (flush_release left i r b packet e) (release-IsFlushed left i r b packet _ e emptied)

pub flush-IsFlushed : (r : Av1Reorder) → IsFlushed r 4 0 (flush r)
unfolding flush
flush-IsFlushed r = flush_from-IsFlushed 4 0 r

-- The four numbers from `expect` on visit every slot.
pub flush-empty : (r : Av1Reorder) (j : ℕ) → j < 4 → get_or (flush r).reorder.slots j [] ≡ []
flush-empty r j h = rw (← covers) ((flush-IsFlushed r).emptied k (omega arith) (omega arith))
  where
    k : ℕ
    k = (j + 4 - r.expect % 4) % 4

    covers : slot_of (u16 (r.expect + k)) ≡ j
    covers = omega arith
