-- ===== src/Leb128/Equations.antt =====
-- The three loops of src/rtp.c on leb128, and the equations by which the other modules use them.
use libpeer.Base.{
  ℕ, zero, suc, ◌+◌, ◌*◌, ◌/◌, ◌%◌, ◌^◌, ◌<◌, ◌≡◌, refl, List, [], ◌∷◌, Option, none, some, arith,
  ltb, ◌==◌, if◌then◌else◌, bit_and, bit_or, dec_lt, Bool-cases, ltb→lt, ltb_false→le, inl, inr,
  ◌≤◌, ◌∙◌,
}
use native.Mathlib.Nat.{pow-suc}
use libpeer.Base.Order.{lt_wf}
use libpeer.Base.Bits.{table, all_below}
use mathlib.Core.Logic.{dite}
use mathlib.Core.WellFounded.{Acc}

-- The do-while loop: `value >>= 7` ends it when nothing is left.
leb128_write_loop : (value : ℕ) → Acc ◌<◌ value → List ℕ
leb128_write_loop value (Acc.intro _ smaller) =
    dite (dec_lt 0 (value / 2 ^ 7))
      (λ more.
        bit_or (bit_and (value % 256) 0x7f) 0x80
        ∷ leb128_write_loop (value / 2 ^ 7) (smaller (value / 2 ^ 7) (omega arith)))
      (λ last. bit_and (value % 256) 0x7f ∷ [])

unfoldable pub leb128_write : ℕ → List ℕ
unfolding leb128_write_loop lt_wf dec_lt
leb128_write value = leb128_write_loop value (lt_wf.apply value)

-- `bytes` counts from 1.
leb128_size_loop : (value bytes : ℕ) → Acc ◌<◌ value → ℕ
leb128_size_loop value bytes (Acc.intro _ smaller) =
    dite (dec_lt 0x7f value)
      (λ more. leb128_size_loop (value / 2 ^ 7) (bytes + 1) (smaller (value / 2 ^ 7) (omega arith)))
      (λ last. bytes)

unfoldable pub leb128_size : ℕ → ℕ
unfolding leb128_size_loop lt_wf dec_lt
leb128_size value = leb128_size_loop value 1 (lt_wf.apply value)

-- `rounds` is what the bound 8 leaves of the loop, `i` the index, `v` what is read so far; the list is
-- what remains of `buf`. `none` is the return value -1, and `some (v, i)` fills `*value` and `*bytes`.
unfoldable pub leb128_read_loop : ℕ → ℕ → ℕ → List ℕ → Option (ℕ × ℕ)
leb128_read_loop zero i v buf = none
leb128_read_loop (suc rounds) i v [] = none
leb128_read_loop (suc rounds) i v (b ∷ buf) =
    let v' = bit_or v (bit_and b 0x7f * 2 ^ (i * 7)) in
    let rest = leb128_read_loop rounds (i + 1) v' buf in
    if bit_and b 0x80 == 0 then some (v', i + 1) else rest

unfoldable pub leb128_read : List ℕ → Option (ℕ × ℕ)
unfolding leb128_read_loop
leb128_read buf = leb128_read_loop 8 0 0 buf

pub low_bits : (b : ℕ) → b < 256 → bit_and b 0x7f ≡ b % 128
unfolding all_below
low_bits = table 256 _ _ refl

pub top_bit : (b : ℕ) → b < 256 → bit_and b 0x80 ≡ b / 128 * 128
unfolding all_below
top_bit = table 256 _ _ refl

pub set_top_bit : (b : ℕ) → b < 128 → bit_or b 0x80 ≡ b + 128
unfolding all_below
set_top_bit = table 128 _ _ refl

-- The bytes do not depend on the proof that the loop ends.
leb128_write_loop_any :
    (value : ℕ) (w w' : Acc ◌<◌ value) → leb128_write_loop value w ≡ leb128_write_loop value w'
unfolding leb128_write_loop
leb128_write_loop_any value (Acc.intro _ s) (Acc.intro _ s') = grind (
  arith,
  λ (p : value / 2 ^ 7 < value).
      leb128_write_loop_any (value / 2 ^ 7) (s (value / 2 ^ 7) p) (s' (value / 2 ^ 7) p),
)

write_last : (value : ℕ) (w : Acc ◌<◌ value) → value < 128 → leb128_write_loop value w ≡ value ∷ []
unfolding leb128_write_loop
write_last value (Acc.intro _ s) h = ground (arith, low_bits (value % 256))

write_more :
    (value : ℕ) (w : Acc ◌<◌ value) (w' : Acc ◌<◌ (value / 128))
    → 128 ≤ value
    → leb128_write_loop value w ≡ (value % 128 + 128) ∷ leb128_write_loop (value / 128) w'
unfolding leb128_write_loop
write_more value (Acc.intro _ s) w' h = grind (
  arith,
  low_bits (value % 256),
  set_top_bit (value % 128),
  λ (p : value / 2 ^ 7 < value). leb128_write_loop_any (value / 128) (s (value / 2 ^ 7) p) w',
)

-- What one value's encoding is, in plain arithmetic.
pub leb128_write_lem :
    (value : ℕ)
    → leb128_write value
      ≡ (if ltb value 128 then value ∷ [] else (value % 128 + 128) ∷ leb128_write (value / 128))
leb128_write_lem value = elim (Bool-cases (ltb value 128)) [
  | inl e ↦ rw e (unfold leb128_write in write_last value (lt_wf.apply value) (ltb→lt value 128 e))
  | inr e ↦ rw e (
      unfold leb128_write in
      write_more value (lt_wf.apply value) (lt_wf.apply (value / 128)) (ltb_false→le value 128 e))
]

leb128_size_loop_any :
    (value bytes : ℕ) (w w' : Acc ◌<◌ value)
    → leb128_size_loop value bytes w ≡ leb128_size_loop value bytes w'
unfolding leb128_size_loop
leb128_size_loop_any value bytes (Acc.intro _ s) (Acc.intro _ s') = grind (
  arith,
  λ (p : value / 2 ^ 7 < value).
      leb128_size_loop_any (value / 2 ^ 7) (bytes + 1) (s (value / 2 ^ 7) p) (s' (value / 2 ^ 7) p),
)

size_last :
    (value bytes : ℕ) (w : Acc ◌<◌ value) → value < 128 → leb128_size_loop value bytes w ≡ bytes
unfolding leb128_size_loop
size_last value bytes (Acc.intro _ s) h = ground arith

size_more :
    (value bytes : ℕ) (w : Acc ◌<◌ value) (w' : Acc ◌<◌ (value / 128))
    → 128 ≤ value
    → leb128_size_loop value bytes w ≡ leb128_size_loop (value / 128) (bytes + 1) w'
unfolding leb128_size_loop
size_more value bytes (Acc.intro _ s) w' h = grind (
  arith,
  λ (p : value / 2 ^ 7 < value).
      leb128_size_loop_any (value / 128) (bytes + 1) (s (value / 2 ^ 7) p) w',
)

-- The count of bytes is a plain recursion with `bytes` added on.
size_add :
    (k value bytes : ℕ) (w w' : Acc ◌<◌ value)
    → value < 128 ^ k
    → leb128_size_loop value (bytes + 1) w ≡ leb128_size_loop value bytes w' + 1
size_add zero value bytes w w' h =
    rw (size_last value (bytes + 1) w (omega arith), size_last value bytes w' (omega arith))
size_add (suc k) value bytes w w' h = elim (dec_lt value 128) [
  | yes p ↦ rw (size_last value (bytes + 1) w p, size_last value bytes w' p)
  | no p ↦
      let r : Acc ◌<◌ (value / 128) = lt_wf.apply (value / 128) in
      rw (size_more value (bytes + 1) w r (omega arith), size_more value bytes w' r (omega arith))
        (size_add k (value / 128) (bytes + 1) r r (omega (arith, pow-suc 128 k)))
]

lt-pow : (n : ℕ) → n < 128 ^ n
lt-pow zero = omega arith
lt-pow (suc n) = omega (arith, lt-pow n, pow-suc 128 n)

-- The size of one value's encoding, in plain arithmetic.
pub leb128_size_lem :
    (value : ℕ) → leb128_size value ≡ (if ltb value 128 then 1 else leb128_size (value / 128) + 1)
leb128_size_lem value = elim (Bool-cases (ltb value 128)) [
  | inl e ↦ rw e (unfold leb128_size in size_last value 1 (lt_wf.apply value) (ltb→lt value 128 e))
  | inr e ↦ rw e (
      unfold leb128_size in
      size_more value 1 (lt_wf.apply value) (lt_wf.apply (value / 128)) (ltb_false→le value 128 e)
      ∙ size_add (value / 128) (value / 128) 1 (lt_wf.apply (value / 128))
          (lt_wf.apply (value / 128)) (lt-pow (value / 128)))
]
