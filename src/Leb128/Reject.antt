-- ===== src/Leb128/Reject.antt =====
-- What av1_leb128_read answers at all (src/rtp.c): the range of its results, and the values that it
-- cannot read back.
use libpeer.Base.{
  ℕ, zero, suc, ◌+◌, ◌*◌, ◌/◌, ◌%◌, ◌^◌, ◌≤◌, ◌<◌, ◌≡◌, refl, List, [], ◌∷◌, ◌++◌, none, some,
  arith, length, All,
}
use libpeer.Base.Word.{IsByte}
use libpeer.Base.Bits.{bit_or_disjoint}
use libpeer.Leb128.Equations.{
  leb128_write, leb128_write_lem, leb128_read_loop, leb128_read, low_bits,
}
use libpeer.Leb128.RoundTrip.{read_more, pow_next, group_fits}
use native.Mathlib.Nat.{pow-suc, one-le-pow}

pow_le : (d i : ℕ) → 2 ^ ((i + 1) * 7) ≤ 2 ^ ((i + suc d) * 7)
pow_le zero i = omega arith
pow_le (suc d) i =
    let e : i + suc (suc d) ≡ i + suc d + 1 = omega arith in
    rw e (omega (arith, pow_le d i, pow_next (i + suc d)))

-- What holds of an answer of the loop that began at index `i` with `rounds` rounds left.
abbrev InRange : ℕ → ℕ → ℕ → ℕ × ℕ → Type 0
InRange rounds i size (value, bytes) =
    (value < 2 ^ ((i + rounds) * 7)) × (i < bytes) × (bytes ≤ i + rounds) × (bytes ≤ i + size)

read_loop_range :
    (rounds i v : ℕ) (buf : List ℕ) (value bytes : ℕ)
    → All IsByte buf
    → v < 2 ^ (i * 7)
    → leb128_read_loop rounds i v buf ≡ some (value, bytes)
    → InRange rounds i (length buf) (value, bytes)
unfolding leb128_read_loop
read_loop_range zero i v buf value bytes hb hv e = cc
read_loop_range (suc rounds) i v [] value bytes hb hv e = cc
read_loop_range (suc rounds) i v (b ∷ buf) value bytes (hb, hbs) hv e = ground (
  arith,
  low_bits b hb,
  bit_or_disjoint (i * 7) v (b % 128),
  group_fits v (b % 128) (2 ^ (i * 7)),
  pow_next i,
  pow_le rounds i,
  read_loop_range rounds (i + 1) (v + b % 128 * 2 ^ (i * 7)) buf value bytes hbs,
)

-- Whatever bytes it is given, what it answers is a value below 2 ^ 56 that took between one and eight
-- of them, and no more than there are.
pub leb128_read_range :
    (buf : List ℕ) (value bytes : ℕ)
    → All IsByte buf
    → leb128_read buf ≡ some (value, bytes)
    → (value < 2 ^ 56) × (1 ≤ bytes) × (bytes ≤ 8) × (bytes ≤ length buf)
unfolding leb128_read
leb128_read_range buf value bytes hb e =
    let (a, b, c, d) = read_loop_range 8 0 0 buf value bytes hb (omega arith) e in
    (a, b, c, omega (arith, d))

read_loop_too_wide :
    (rounds i v value : ℕ) (rest : List ℕ)
    → 128 ^ rounds ≤ value
    → v < 2 ^ (i * 7)
    → leb128_read_loop rounds i v (leb128_write value ++ rest) ≡ none
read_loop_too_wide zero i v value rest h hv = unfold leb128_read_loop in refl
read_loop_too_wide (suc rounds) i v value rest h hv =
    let big : 128 ≤ value = omega (arith, pow-suc 128 rounds, one-le-pow rounds 128) in
    ground (
      arith,
      big,
      leb128_write_lem value,
      read_more rounds i v (value % 128) (leb128_write (value / 128) ++ rest),
      pow_next i,
      group_fits v (value % 128) (2 ^ (i * 7)),
      read_loop_too_wide rounds (i + 1) (v + value % 128 * 2 ^ (i * 7)) (value / 128) rest
          (omega (arith, pow-suc 128 rounds)),
    )

length-write_wide : (k value : ℕ) → 128 ^ k ≤ value → k < length (leb128_write value)
length-write_wide zero value h = ground (arith, leb128_write_lem value)
length-write_wide (suc k) value h =
    let big : 128 ≤ value = omega (arith, pow-suc 128 k, one-le-pow k 128) in
    ground (
      arith,
      big,
      leb128_write_lem value,
      length-write_wide k (value / 128) (omega (arith, pow-suc 128 k)),
    )

-- A value of 2 ^ 56 or more is written in nine bytes or more, and the reader rejects them, whatever stands
-- behind them.
pub leb128_read_too_wide :
    (value : ℕ) (rest : List ℕ)
    → 2 ^ 56 ≤ value
    → (9 ≤ length (leb128_write value)) × (leb128_read (leb128_write value ++ rest) ≡ none)
unfolding leb128_read
leb128_read_too_wide value rest h = (
  length-write_wide 8 value (omega (arith, h)),
  read_loop_too_wide 8 0 0 value rest (omega arith) (omega arith),
)
