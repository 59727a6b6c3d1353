-- ===== src/Leb128/RoundTrip.antt =====
-- What av1_leb128_write writes, av1_leb128_read reads back (src/rtp.c).
use libpeer.Base.{
  ℕ, zero, suc, ◌+◌, ◌*◌, ◌/◌, ◌%◌, ◌^◌, ◌≤◌, ◌<◌, ◌≡◌, ap, List, ◌∷◌, ◌++◌, some, arith, length,
  All,
}
use libpeer.Base.Word.{IsByte}
use libpeer.Base.Bits.{bit_or_disjoint}
use libpeer.Leb128.Equations.{
  leb128_write, leb128_write_lem, leb128_size, leb128_size_lem, leb128_read_loop, leb128_read,
  low_bits, top_bit,
}
use native.Mathlib.Nat.{pow-suc, div-add-mod}

-- Strong induction on the number of bytes: below 128 ^ k at most k bytes are written.
length_below : (k value : ℕ) → value < 128 ^ suc k → length (leb128_write value) ≡ leb128_size value
length_below zero value h = ground (arith, leb128_write_lem value, leb128_size_lem value)
length_below (suc k) value h = ground (
  arith,
  leb128_write_lem value,
  leb128_size_lem value,
  length_below k (value / 128) (omega (arith, pow-suc 128 (suc k))),
)

lt-pow : (n : ℕ) → n < 128 ^ suc n
lt-pow zero = omega arith
lt-pow (suc n) = omega (arith, lt-pow n, pow-suc 128 (suc n))

-- av1_leb128_size is the number of bytes that av1_leb128_write stores, for every value.
pub length-leb128_write : (value : ℕ) → length (leb128_write value) ≡ leb128_size value
length-leb128_write value = length_below value value (lt-pow value)

-- The size of a value below 128 ^ (k + 1) lies between 1 and k + 1.
pub leb128_size_bounds :
    (k value : ℕ) → value < 128 ^ suc k → (1 ≤ leb128_size value) × (leb128_size value ≤ suc k)
leb128_size_bounds zero value h = ground (arith, leb128_size_lem value)
leb128_size_bounds (suc k) value h = ground (
  arith,
  leb128_size_lem value,
  leb128_size_bounds k (value / 128) (omega (arith, pow-suc 128 (suc k))),
)

pub leb128_size_pos : (value : ℕ) → 1 ≤ leb128_size value
leb128_size_pos value = (leb128_size_bounds value value (lt-pow value)).0

pub leb128_size_small : (value : ℕ) → value < 16384 → leb128_size value ≤ 2
leb128_size_small value h = (leb128_size_bounds 1 value h).1

IsByte_below : (k value : ℕ) → value < 128 ^ suc k → All IsByte (leb128_write value)
IsByte_below zero value h = rw (leb128_write_lem value) (ground arith)
IsByte_below (suc k) value h =
    rw (leb128_write_lem value)
      (ground (arith, IsByte_below k (value / 128) (omega (arith, pow-suc 128 (suc k)))))

pub leb128_write-IsByte : (value : ℕ) → All IsByte (leb128_write value)
leb128_write-IsByte value = IsByte_below value value (lt-pow value)

-- One round of the reader on a byte below 128, and on a byte that carries the group `g` and goes on.
pub read_last :
    (rounds i v b : ℕ) (rest : List ℕ)
    → b < 128
    → v < 2 ^ (i * 7)
    → leb128_read_loop (suc rounds) i v (b ∷ rest) ≡ some (v + b * 2 ^ (i * 7), i + 1)
unfolding leb128_read_loop
read_last rounds i v b rest hb hv =
    ground (arith, low_bits b, top_bit b, bit_or_disjoint (i * 7) v b)

pub read_more :
    (rounds i v g : ℕ) (rest : List ℕ)
    → g < 128
    → v < 2 ^ (i * 7)
    → leb128_read_loop (suc rounds) i v ((g + 128) ∷ rest)
      ≡ leb128_read_loop rounds (i + 1) (v + g * 2 ^ (i * 7)) rest
unfolding leb128_read_loop
read_more rounds i v g rest hg hv =
    ground (arith, low_bits (g + 128), top_bit (g + 128), bit_or_disjoint (i * 7) v g)

-- A group more is seven bits further up.
pub pow_next : (i : ℕ) → 2 ^ ((i + 1) * 7) ≡ 128 * 2 ^ (i * 7)
pow_next i =
    let e : (i + 1) * 7 ≡ suc (suc (suc (suc (suc (suc (suc (i * 7))))))) = omega arith in
    rw (e, pow-suc)
      (rw (pow-suc)
        (rw (pow-suc) (rw (pow-suc) (rw (pow-suc) (rw (pow-suc) (rw (pow-suc) (omega arith)))))))

pub group_fits : (v g p : ℕ) → v < p → g < 128 → v + g * p < 128 * p
group_fits v g p hv hg = grind arith

regroup : (value p : ℕ) → value % 128 * p + value / 128 * (128 * p) ≡ value * p
regroup value p = omega (arith, ap (λ (t : ℕ). t * p) (div-add-mod value 128))

read_loop-write :
    (k value rounds i v : ℕ) (rest : List ℕ)
    → value < 128 ^ suc k
    → k < rounds
    → v < 2 ^ (i * 7)
    → leb128_read_loop rounds i v (leb128_write value ++ rest)
      ≡ some (v + value * 2 ^ (i * 7), i + leb128_size value)
read_loop-write k value zero i v rest hk hr hv = absurd (omega arith)
read_loop-write zero value (suc rounds) i v rest hk hr hv =
    ground (arith, leb128_write_lem value, leb128_size_lem value, read_last rounds i v value rest)
read_loop-write (suc k) value (suc rounds) i v rest hk hr hv = ground (
  arith,
  leb128_write_lem value,
  leb128_size_lem value,
  read_last rounds i v value rest,
  read_more rounds i v (value % 128) (leb128_write (value / 128) ++ rest),
  pow_next i,
  group_fits v (value % 128) (2 ^ (i * 7)),
  regroup value (2 ^ (i * 7)),
  read_loop-write k (value / 128) rounds (i + 1) (v + value % 128 * 2 ^ (i * 7)) rest
      (omega (arith, pow-suc 128 (suc k))),
)

-- Every value below 2 ^ 56 is read back from its bytes whatever follows them, and the count of bytes
-- consumed is its size.
pub leb128_read-write :
    (value : ℕ) (rest : List ℕ)
    → value < 2 ^ 56
    → leb128_read (leb128_write value ++ rest) ≡ some (value, leb128_size value)
unfolding leb128_read
leb128_read-write value rest h = ground (arith, read_loop-write 7 value 8 0 0 rest)
