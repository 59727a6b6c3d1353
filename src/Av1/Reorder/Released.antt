-- ===== src/Av1/Reorder/Released.antt =====
-- Which packets av1_reorder_flush releases, and in what order (src/rtp.c).
use libpeer.Base.{
  ℕ, zero, suc, ◌+◌, ◌%◌, ◌≤◌, ◌<◌, ◌≡◌, ◌≢◌, refl, sym, ap, ap₂, ◌∙◌, List, [], ◌∷◌, arith, get_or,
  set, get_or-set_ne,
}
use libpeer.Base.Word.{u16}
use libpeer.Av1.Reorder.{Av1Reorder, Reordered, slot_of, empty_slot, flush_from, flush}
use libpeer.Av1.Reorder.Window.{waiting_in}
use libpeer.Av1.Reorder.Order.{here, flush_skip, flush_release}

-- The contents of `left` slots, from the one of the number `expect + i` on.
unfoldable pub upcoming : ℕ → ℕ → ℕ → List (List ℕ) → List (List ℕ)
upcoming zero i expect slots = []
upcoming (suc left) i expect slots =
    get_or slots ((expect + i) % 4) [] ∷ upcoming left (i + 1) expect slots

-- A slot that lies behind makes no difference.
upcoming_other :
    (left i j expect : ℕ) (slots : List (List ℕ))
    → j < i
    → i + left ≤ j + 4
    → upcoming left i expect (set slots (slot_of (u16 (expect + j))) [])
      ≡ upcoming left i expect slots
unfolding upcoming
upcoming_other zero i j expect slots behind near = refl
upcoming_other (suc left) i j expect slots behind near =
    let apart : slot_of (u16 (expect + j)) ≢ (expect + i) % 4 = λ e. omega (arith, e) in
    ap₂ (λ packet packets. packet ∷ packets)
      (get_or-set_ne slots (slot_of (u16 (expect + j))) ((expect + i) % 4) [] [] apart)
      (upcoming_other left (i + 1) j expect slots (omega arith) (omega arith))

waiting_first :
    (packet : List ℕ) (packets : List (List ℕ))
    → packet ≡ []
    → waiting_in (packet ∷ packets) ≡ waiting_in packets
unfolding waiting_in
waiting_first packet packets e = rw e refl

waiting_next :
    (packet packet' : List ℕ) (b : ℕ) (packets : List (List ℕ))
    → packet ≡ b ∷ packet'
    → waiting_in (packet ∷ packets) ≡ (b ∷ packet') ∷ waiting_in packets
unfolding waiting_in
waiting_next packet packet' b packets e = rw e refl

-- av1_reorder_flush releases what the slots hold, in the order of the numbers.
flush_from-released :
    (left i : ℕ) (r : Av1Reorder)
    → left ≤ 4
    → (flush_from left i r).released ≡ waiting_in (upcoming left i r.expect r.slots)
unfolding upcoming
flush_from-released zero i r few = unfold flush_from waiting_in in refl
flush_from-released (suc left) i r few =
    go (get_or r.slots (here left i r) []) refl (flush_from-released left (i + 1) r (omega arith))
      (flush_from-released left (i + 1) (empty_slot r (here left i r)) (omega arith))
  where
    there : here left i r ≡ (r.expect + i) % 4
    there = omega arith

    first :
        (packet : List ℕ)
        → get_or r.slots (here left i r) [] ≡ packet
        → get_or r.slots ((r.expect + i) % 4) [] ≡ packet
    first packet e = rw there at e

    go :
        (packet : List ℕ)
        → get_or r.slots (here left i r) [] ≡ packet
        → (flush_from left (i + 1) r).released ≡ waiting_in (upcoming left (i + 1) r.expect r.slots)
        → (flush_from left (i + 1) (empty_slot r (here left i r))).released
          ≡ waiting_in
              (upcoming left (i + 1) r.expect (set r.slots (slot_of (u16 (r.expect + i))) []))
        → (flush_from (suc left) i r).released
          ≡ waiting_in
              (get_or r.slots ((r.expect + i) % 4) [] ∷ upcoming left (i + 1) r.expect r.slots)
    go [] e skipped emptied =
        ap (λ (o : Reordered). o.released) (flush_skip left i r e)
        ∙ (skipped ∙ sym (waiting_first _ _ (first [] e)))
    go (b ∷ packet) e skipped emptied =
        ap (λ (o : Reordered). o.released) (flush_release left i r b packet e)
        ∙ (ap (λ packets. (b ∷ packet) ∷ packets)
              (emptied
                ∙ ap waiting_in
                    (upcoming_other left (i + 1) i r.expect r.slots (omega arith) (omega arith)))
            ∙ sym (waiting_next _ packet b _ (first (b ∷ packet) e)))

pub flush-released :
    (r : Av1Reorder) → (flush r).released ≡ waiting_in (upcoming 4 0 r.expect r.slots)
unfolding flush
flush-released r = flush_from-released 4 0 r (omega arith)
