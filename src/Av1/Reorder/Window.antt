-- ===== src/Av1/Reorder/Window.antt =====
-- The window of the reorder buffer: every packet that waits is one of the next four, in its own slot.
use libpeer.Base.{
  ℕ, zero, suc, ◌+◌, ◌%◌, ◌^◌, ◌≤◌, ◌<◌, ◌≡◌, ◌≢◌, refl, ap, sym, ◌∙◌, List, [], ◌∷◌, ◌++◌, arith,
  length, length-set, get_or, set, get_or-set_self, get_or-set_ne, ◌⊎◌, inl, inr, ℕ_discrete,
}
use mathlib.Core.List.{Perm}
use mathlib.Core.List.Perm
use libpeer.Base.Word.{u16}
use libpeer.Rtp.Header.{seq_number}
use libpeer.Av1.Reorder.{Av1Reorder, Reordered, reorder_depth, slot_of, empty_slot, drain, distance}

-- What a slot may hold when `expect` comes next.
abbrev pub Waiting : ℕ → ℕ → List ℕ → Type 0
Waiting expect j packet =
    (packet ≡ [])
    ⊎ ((seq_number packet < 2 ^ 16)
        × (slot_of (seq_number packet) ≡ j)
        × (distance (seq_number packet) expect < reorder_depth))

pub record IsWindow (r : Av1Reorder) : Type 0 where
  pub four : length r.slots ≡ 4
  pub sequence : r.expect < 2 ^ 16
  pub waiting : (j : ℕ) → j < 4 → Waiting r.expect j (get_or r.slots j [])

-- The numbers that the packets carry go on one by one.
abbrev pub Consecutive : ℕ → List (List ℕ) → Type 0
Consecutive seq [] = Unit {0}
Consecutive seq (packet ∷ packets) = (seq_number packet ≡ seq) × Consecutive (u16 (seq + 1)) packets

-- The packet in the slot of `expect` is the expected one.
expected :
    (expect : ℕ) (packet : List ℕ)
    → expect < 2 ^ 16
    → packet ≢ []
    → Waiting expect (slot_of expect) packet
    → seq_number packet ≡ expect
unfolding distance
expected expect packet h full (inl e) = absurd (full e)
expected expect packet h full (inr (lt, slot, near)) = omega arith

-- When the expected packet has gone, the others are one step nearer.
step_window :
    (expect j : ℕ) (packet : List ℕ)
    → expect < 2 ^ 16
    → j ≢ slot_of expect
    → Waiting expect j packet
    → Waiting (u16 (expect + 1)) j packet
unfolding distance
step_window expect j packet h ne (inl e) = inl e
step_window expect j packet h ne (inr (lt, slot, near)) = inr (lt, slot, omega arith)

pub step-IsWindow :
    (r : Av1Reorder)
    → IsWindow r
    → IsWindow (record (empty_slot r (slot_of r.expect)) { expect = u16 (r.expect + 1) })
step-IsWindow r w = record {
  four = length-set r.slots (slot_of r.expect) [] ∙ w.four;
  sequence = omega arith;
  waiting = λ j h. elim (ℕ_discrete (slot_of r.expect) j) [
    | yes e ↦
        inl (rw (← e) (get_or-set_self r.slots (slot_of r.expect) [] [] (omega (arith, w.four))))
    | no ne ↦
        rw (get_or-set_ne r.slots (slot_of r.expect) j [] [] ne)
          (step_window r.expect j _ w.sequence (λ e. ne (sym e)) (w.waiting j h))
  ];
}

-- How many packets wait.
unfoldable pub held : List (List ℕ) → ℕ
held [] = 0
held ([] ∷ slots) = held slots
held ((b ∷ packet) ∷ slots) = suc (held slots)

pub held-le-length : (slots : List (List ℕ)) → held slots ≤ length slots
unfolding held
held-le-length [] = omega arith
held-le-length ([] ∷ slots) = omega (arith, held-le-length slots)
held-le-length ((b ∷ packet) ∷ slots) = omega (arith, held-le-length slots)

pub held-empty :
    (slots : List (List ℕ)) (j : ℕ)
    → get_or slots j [] ≢ []
    → suc (held (set slots j [])) ≡ held slots
unfolding held
held-empty [] j full = absurd (full refl)
held-empty ([] ∷ slots) zero full = absurd (full refl)
held-empty ((b ∷ packet) ∷ slots) zero full = refl
held-empty ([] ∷ slots) (suc j) full = held-empty slots j full
held-empty ((b ∷ packet) ∷ slots) (suc j) full = ap suc (held-empty slots j full)

pub held-fill :
    (slots : List (List ℕ)) (j : ℕ) (packet : List ℕ)
    → j < length slots
    → get_or slots j [] ≡ []
    → packet ≢ []
    → held (set slots j packet) ≡ suc (held slots)
unfolding held
held-fill [] j packet h free full = absurd (omega arith)
held-fill ([] ∷ slots) zero [] h free full = absurd (full refl)
held-fill ([] ∷ slots) zero (b ∷ packet) h free full = refl
held-fill ((c ∷ other) ∷ slots) zero packet h free full = cc
held-fill ([] ∷ slots) (suc j) packet h free full = held-fill slots j packet (omega arith) free full
held-fill ((c ∷ other) ∷ slots) (suc j) packet h free full =
    ap suc (held-fill slots j packet (omega arith) free full)

pub none_held : (slots : List (List ℕ)) (j : ℕ) → held slots ≡ 0 → get_or slots j [] ≡ []
unfolding held
none_held [] j h = refl
none_held ([] ∷ slots) zero h = refl
none_held ([] ∷ slots) (suc j) h = none_held slots j h
none_held ((b ∷ packet) ∷ slots) j h = absurd (omega arith)

-- The packets that wait, slot by slot.
unfoldable pub waiting_in : List (List ℕ) → List (List ℕ)
waiting_in [] = []
waiting_in ([] ∷ slots) = waiting_in slots
waiting_in ((b ∷ packet) ∷ slots) = (b ∷ packet) ∷ waiting_in slots

-- A packet taken out of its slot, put in front of the others.
waiting_taken :
    (slots : List (List ℕ)) (j b : ℕ) (packet : List ℕ)
    → get_or slots j [] ≡ b ∷ packet
    → Perm ((b ∷ packet) ∷ waiting_in (set slots j [])) (waiting_in slots)
unfolding waiting_in
waiting_taken [] j b packet e = absurd (ground (arith, e))
waiting_taken ([] ∷ slots) zero b packet e = absurd (ground (arith, e))
waiting_taken ((c ∷ other) ∷ slots) zero b packet e =
    rw e (Perm.refl ((b ∷ packet) ∷ waiting_in slots))
waiting_taken ([] ∷ slots) (suc j) b packet e = waiting_taken slots j b packet e
waiting_taken ((c ∷ other) ∷ slots) (suc j) b packet e =
    Perm.trans (Perm.swap (c ∷ other) (b ∷ packet) (waiting_in (set slots j [])))
      (Perm.cons (c ∷ other) (waiting_taken slots j b packet e))

-- What av1_reorder_drain leaves and releases.
pub record IsDrained (r : Av1Reorder) (o : Reordered) : Type 0 where
  pub window : IsWindow o.reorder
  pub in_order : Consecutive r.expect o.released
  pub moved : o.reorder.expect ≡ (r.expect + length o.released) % 2 ^ 16
  pub none_lost : held o.reorder.slots + length o.released ≡ held r.slots
  pub same_packets : Perm (o.released ++ waiting_in o.reorder.slots) (waiting_in r.slots)
  pub waits : get_or o.reorder.slots (slot_of o.reorder.expect) [] ≡ []
  pub same_started : o.reorder.started ≡ r.started

module _ (fuel : ℕ) (r : Av1Reorder) where
  pub drain_stop :
      get_or r.slots (slot_of r.expect) [] ≡ []
      → drain (suc fuel) r ≡ record { reorder = r; released = [] }
  unfolding drain
  drain_stop h = ground arith

  pub drain_step :
      (b : ℕ) (packet : List ℕ)
      → get_or r.slots (slot_of r.expect) [] ≡ b ∷ packet
      → drain (suc fuel) r ≡ (
          let rest =
            drain fuel (record (empty_slot r (slot_of r.expect)) { expect = u16 (r.expect + 1) }) in
          record rest { released = (b ∷ packet) ∷ rest.released })
  unfolding drain
  drain_step b packet h = ground arith

-- One more packet in front of what the rest of the drain releases.
module _ (r : Av1Reorder) (b : ℕ) (packet : List ℕ) (o : Reordered) where
  abbrev next : Av1Reorder
  next = record (empty_slot r (slot_of r.expect)) { expect = u16 (r.expect + 1) }

  head-IsExpected :
      IsWindow r
      → get_or r.slots (slot_of r.expect) [] ≡ b ∷ packet
      → seq_number (b ∷ packet) ≡ r.expect
  head-IsExpected w e =
      expected r.expect (b ∷ packet) w.sequence (λ h. ground arith)
        (rw (← e) (w.waiting (slot_of r.expect) (omega arith)))

  step-IsDrained :
      IsWindow r
      → get_or r.slots (slot_of r.expect) [] ≡ b ∷ packet
      → IsDrained next o
      → IsDrained r (record o { released = (b ∷ packet) ∷ o.released })
  step-IsDrained w e d = record {
    window = d.window;
    in_order = (head-IsExpected w e, d.in_order);
    moved = omega (arith, d.moved);
    none_lost =
        omega (arith, d.none_lost, held-empty r.slots (slot_of r.expect) (λ h. ground arith));
    same_packets =
        Perm.trans (Perm.cons (b ∷ packet) d.same_packets)
          (waiting_taken r.slots (slot_of r.expect) b packet e);
    waits = d.waits;
    same_started = d.same_started;
  }

pub drain-IsDrained :
    (fuel : ℕ) (r : Av1Reorder) → IsWindow r → held r.slots ≤ fuel → IsDrained r (drain fuel r)
unfolding drain
drain-IsDrained zero r w h = record {
  window = w;
  in_order = tt;
  moved = omega (arith, w.sequence);
  none_lost = omega arith;
  same_packets = Perm.refl (waiting_in r.slots);
  waits = none_held r.slots (slot_of r.expect) (omega arith);
  same_started = refl;
}
drain-IsDrained (suc fuel) r w h =
    go (get_or r.slots (slot_of r.expect) []) refl (drain-IsDrained fuel _ (step-IsWindow r w))
  where
    go :
        (packet : List ℕ)
        → get_or r.slots (slot_of r.expect) [] ≡ packet
        → (held (set r.slots (slot_of r.expect) []) ≤ fuel
            → IsDrained
                (next r 0 [] (record { reorder = r; released = [] }))
                (drain fuel (next r 0 [] (record { reorder = r; released = [] }))))
        → IsDrained r (drain (suc fuel) r)
    go [] e rest = rw (drain_stop fuel r e) (record {
      window = w;
      in_order = tt;
      moved = omega (arith, w.sequence);
      none_lost = omega arith;
      same_packets = Perm.refl (waiting_in r.slots);
      waits = e;
      same_started = refl;
    })
    go (b ∷ packet) e rest = rw (drain_step fuel r b packet e) (
        step-IsDrained r b packet _ w e
          (rest (omega (arith, held-empty r.slots (slot_of r.expect) (λ h. ground arith)))))
