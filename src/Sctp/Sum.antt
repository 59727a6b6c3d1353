-- ===== src/Sctp/Sum.antt =====
-- The checksum of src/sctp.c has 32 bits, and a packet that carries it is accepted.
use libpeer.Base.{
  ℕ, ◌/◌, ◌^◌, ◌<◌, ◌≡◌, refl, ◌&&◌, ltb, ltb→lt, Bool, true, false, List, [], ◌∷◌, All, get_or,
  get_or-All, bit_xor, bit_and, arith, Bool-cases, inl, inr,
}
use libpeer.Base.Xor.{bit_xor_bound}
use libpeer.Sctp.Checksum.{crc32c_table, crc32c_loop, crc32c, sctp_get_checksum}

abbrev all_small : List ℕ → Bool
all_small [] = true
all_small (x ∷ xs) = ltb x (2 ^ 32) && all_small xs

all_small_sound : (xs : List ℕ) → all_small xs ≡ true → All (λ x. x < 2 ^ 32) xs
all_small_sound [] h = tt
all_small_sound (x ∷ xs) h = elim (Bool-cases (ltb x (2 ^ 32))) [
  | inl e ↦
      let rest : all_small xs ≡ true = rw e at h in (ltb→lt x (2 ^ 32) e, all_small_sound xs rest)
  | inr e ↦ let no : false ≡ true = rw e at h in absurd (ground (arith, no))
]

crc32c_loop_bound : (bytes : List ℕ) (crc : ℕ) → crc < 2 ^ 32 → crc32c_loop crc bytes < 2 ^ 32
unfolding crc32c_loop
crc32c_loop_bound [] crc h = h
crc32c_loop_bound (b ∷ bytes) crc h =
    let index = bit_and (bit_xor crc b) 0xff in
    let entry =
      get_or-All (λ x. x < 2 ^ 32) crc32c_table index 0 (all_small_sound crc32c_table refl)
        (omega arith) in
    crc32c_loop_bound bytes (bit_xor (get_or crc32c_table index 0) (crc / 2 ^ 8))
      (bit_xor_bound 32 (get_or crc32c_table index 0) (crc / 2 ^ 8) entry (omega arith))

pub sctp_get_checksum_bound : (bytes : List ℕ) → sctp_get_checksum bytes < 2 ^ 32
unfolding sctp_get_checksum crc32c
sctp_get_checksum_bound bytes =
    bit_xor_bound 32 (crc32c_loop 0xffffffff bytes) 0xffffffff
      (crc32c_loop_bound bytes 0xffffffff (omega arith)) (omega arith)
