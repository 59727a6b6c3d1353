-- ===== src/Base64/Sextets.antt =====
-- The bit operations of src/base64.c as arithmetic, and its table read both ways.
use libpeer.Base.{
  ℕ, ◌+◌, ◌*◌, ◌/◌, ◌%◌, ◌<◌, ◌≡◌, refl, List, [], ◌∷◌, none, some, arith, bit_and, bit_or, ◌==◌,
  to_ℕ, get_or, length,
}
use libpeer.Base.Bits.{table, all_below}
use libpeer.Base64.{
  base64_table, pad, digit, index0, index1, index2, index3, table_index, Quad, load, load_quad,
  bytes_of,
}

or4_table : (t : ℕ) → t < 256 → bit_or (t / 4 * 4) (t % 4) ≡ t
unfolding all_below
or4_table = table 256 _ _ refl

or16_table : (t : ℕ) → t < 256 → bit_or (t / 16 * 16) (t % 16) ≡ t
unfolding all_below
or16_table = table 256 _ _ refl

or64_table : (t : ℕ) → t < 256 → bit_or (t / 64 * 64) (t % 64) ≡ t
unfolding all_below
or64_table = table 256 _ _ refl

module _ (x y : ℕ) where
  or4 : x < 64 → y < 4 → bit_or (x * 4) y ≡ x * 4 + y
  or4 hx hy =
      let high : (x * 4 + y) / 4 ≡ x = omega arith in
      let low : (x * 4 + y) % 4 ≡ y = omega arith in
      rw (high, low) at (or4_table (x * 4 + y) (omega arith))

  or16 : x < 16 → y < 16 → bit_or (x * 16) y ≡ x * 16 + y
  or16 hx hy =
      let high : (x * 16 + y) / 16 ≡ x = omega arith in
      let low : (x * 16 + y) % 16 ≡ y = omega arith in
      rw (high, low) at (or16_table (x * 16 + y) (omega arith))

  or64 : x < 4 → y < 64 → bit_or (x * 64) y ≡ x * 64 + y
  or64 hx hy =
      let high : (x * 64 + y) / 64 ≡ x = omega arith in
      let low : (x * 64 + y) % 64 ≡ y = omega arith in
      rw (high, low) at (or64_table (x * 64 + y) (omega arith))

and_fc : (a : ℕ) → a < 256 → bit_and a 0xfc ≡ a / 4 * 4
unfolding all_below
and_fc = table 256 _ _ refl

and_f0 : (a : ℕ) → a < 256 → bit_and a 0xf0 ≡ a / 16 * 16
unfolding all_below
and_f0 = table 256 _ _ refl

and_c0 : (a : ℕ) → a < 256 → bit_and a 0xc0 ≡ a / 64 * 64
unfolding all_below
and_c0 = table 256 _ _ refl

and_03 : (a : ℕ) → a < 256 → bit_and a 0x03 ≡ a % 4
unfolding all_below
and_03 = table 256 _ _ refl

and_0f : (a : ℕ) → a < 256 → bit_and a 0x0f ≡ a % 16
unfolding all_below
and_0f = table 256 _ _ refl

and_3f : (a : ℕ) → a < 256 → bit_and a 0x3f ≡ a % 64
unfolding all_below
and_3f = table 256 _ _ refl

and_30 : (a : ℕ) → a < 64 → bit_and a 0x30 ≡ a / 16 * 16
unfolding all_below
and_30 = table 64 _ _ refl

and_3c : (a : ℕ) → a < 64 → bit_and a 0x3c ≡ a / 4 * 4
unfolding all_below
and_3c = table 64 _ _ refl

-- The four indices of three bytes, and what they give back.
module _ (a b c : ℕ) (ha : a < 256) (hb : b < 256) (hc : c < 256) where
  pub index0_lem : index0 a ≡ a / 4
  unfolding index0
  index0_lem = omega (arith, and_fc a ha)

  pub index1_lem : index1 a b ≡ a % 4 * 16 + b / 16
  unfolding index1
  index1_lem =
      rw (and_03 a ha, and_f0 b hb)
        (omega (arith, or16 (a % 4) (b / 16 * 16 / 16) (omega arith) (omega arith)))

  pub index2_lem : index2 b c ≡ b % 16 * 4 + c / 64
  unfolding index2
  index2_lem =
      rw (and_0f b hb, and_c0 c hc)
        (omega (arith, or4 (b % 16) (c / 64 * 64 / 64) (omega arith) (omega arith)))

  pub index3_lem : index3 c ≡ c % 64
  unfolding index3
  index3_lem = and_3f c hc

-- What a round stores of three and of two indices.
module _ (i j k : ℕ) (hi : i < 64) (hj : j < 64) (hk : k < 64) where
  pub triple_bytes :
      bytes_of (record { buf0 = i; buf1 = j; buf2 = k; buf3 = 0 }) 3
      ≡ (i * 4 + j / 16) ∷ (j % 16 * 16 + k / 4) ∷ []
  unfolding bytes_of
  triple_bytes =
      rw (and_30 j hj, and_0f j (omega arith), and_3c k hk)
        (ground (arith, or4 i (j / 16 * 16 / 16), or16 (j % 16) (k / 4 * 4 / 4)))

  pub pair_bytes :
      bytes_of (record { buf0 = i; buf1 = j; buf2 = 0; buf3 = 0 }) 2 ≡ (i * 4 + j / 16) ∷ []
  unfolding bytes_of
  pair_bytes = rw (and_30 j hj) (ground (arith, or4 i (j / 16 * 16 / 16)))

-- What a round stores of its four indices.
module _ (i j k l : ℕ) (hi : i < 64) (hj : j < 64) (hk : k < 64) (hl : l < 64) where
  pub quad_bytes :
      bytes_of (record { buf0 = i; buf1 = j; buf2 = k; buf3 = l }) 4
      ≡ (i * 4 + j / 16) ∷ (j % 16 * 16 + k / 4) ∷ (k % 4 * 64 + l) ∷ []
  unfolding bytes_of
  quad_bytes =
      rw (and_30 j hj, and_0f j (omega arith), and_3c k hk, and_03 k (omega arith))
        (ground (arith, or4 i (j / 16 * 16 / 16), or16 (j % 16) (k / 4 * 4 / 4), or64 (k % 4) l))

-- The table is found again, and holds no '='.
unfoldable found_at : ℕ → ℕ
unfolding table_index digit
found_at i = elim (table_index base64_table 0 (digit i)) [ none ↦ 64 | some v ↦ v ]

found_table : (i : ℕ) → i < 64 → found_at i ≡ i
unfolding all_below found_at
found_table = table 64 _ _ refl

table_index-digit : (i : ℕ) → i < 64 → table_index base64_table 0 (digit i) ≡ some i
unfolding found_at
table_index-digit i h = ground (arith, found_table i h)

digit_table : (i : ℕ) → i < 64 → to_ℕ (digit i == pad) ≡ 0
unfolding all_below digit
digit_table = table 64 _ _ refl

module _ (input : List ℕ) (j held : ℕ) where
  load-digit :
      (i : ℕ)
      → i < 64
      → j < length input
      → get_or input j 0 ≡ digit i
      → load input j held ≡ some (i, 1)
  unfolding load
  load-digit i h there e = ground (arith, digit_table i h, table_index-digit i h)

  load-pad : j < length input → get_or input j 0 ≡ pad → load input j held ≡ some (0, 0)
  unfolding load
  load-pad there e = ground arith

module _ (q : Quad) (i j k l : ℕ) where
  pub load_quad-four :
      i < 64
      → j < 64
      → k < 64
      → l < 64
      → load_quad q (digit i ∷ digit j ∷ digit k ∷ digit l ∷ [])
        ≡ some (record { buf0 = i; buf1 = j; buf2 = k; buf3 = l }, 4)
  unfolding load_quad
  load_quad-four hi hj hk hl =
      let input = digit i ∷ digit j ∷ digit k ∷ digit l ∷ [] in
      rw
        (
          load-digit input 0 q.buf0 i hi (omega arith) refl,
          load-digit input 1 q.buf1 j hj (omega arith) refl,
          load-digit input 2 q.buf2 k hk (omega arith) refl,
          load-digit input 3 q.buf3 l hl (omega arith) refl,
        )
        refl

  pub load_quad-three :
      i < 64
      → j < 64
      → k < 64
      → load_quad q (digit i ∷ digit j ∷ digit k ∷ pad ∷ [])
        ≡ some (record { buf0 = i; buf1 = j; buf2 = k; buf3 = 0 }, 3)
  unfolding load_quad
  load_quad-three hi hj hk =
      let input = digit i ∷ digit j ∷ digit k ∷ pad ∷ [] in
      rw
        (
          load-digit input 0 q.buf0 i hi (omega arith) refl,
          load-digit input 1 q.buf1 j hj (omega arith) refl,
          load-digit input 2 q.buf2 k hk (omega arith) refl,
          load-pad input 3 q.buf3 (omega arith) refl,
        )
        refl

  pub load_quad-two :
      i < 64
      → j < 64
      → load_quad q (digit i ∷ digit j ∷ pad ∷ pad ∷ [])
        ≡ some (record { buf0 = i; buf1 = j; buf2 = 0; buf3 = 0 }, 2)
  unfolding load_quad
  load_quad-two hi hj =
      let input = digit i ∷ digit j ∷ pad ∷ pad ∷ [] in
      rw
        (
          load-digit input 0 q.buf0 i hi (omega arith) refl,
          load-digit input 1 q.buf1 j hj (omega arith) refl,
          load-pad input 2 q.buf2 (omega arith) refl,
          load-pad input 3 q.buf3 (omega arith) refl,
        )
        refl
