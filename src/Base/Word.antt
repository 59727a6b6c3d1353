-- ===== src/Base/Word.antt =====
-- Bytes and big-endian words. A C integer of w bits is a number below 2 ^ w.
use Prim.Native.Nat.{ℕ, ◌+◌, ◌*◌, ◌/◌, ◌%◌, ◌^◌, ◌<◌}
use mathlib.Core.Path.{◌≡◌}
use mathlib.Core.List.{List, [], ◌∷◌}
use native.Mathlib.Omega.{arith}

abbrev pub IsByte : ℕ → Type 0
IsByte b = b < 256

-- (uint8_t)x, (uint16_t)x, (uint32_t)x
abbrev pub u8 : ℕ → ℕ
u8 x = x % 2 ^ 8

abbrev pub u16 : ℕ → ℕ
u16 x = x % 2 ^ 16

abbrev pub u32 : ℕ → ℕ
u32 x = x % 2 ^ 32

-- The bytes that htons and htonl lay down, and the words that ntohs and ntohl read.
abbrev pub be16 : ℕ → List ℕ
be16 x = x / 2 ^ 8 % 2 ^ 8 ∷ x % 2 ^ 8 ∷ []

abbrev pub be32 : ℕ → List ℕ
be32 x = x / 2 ^ 24 % 2 ^ 8 ∷ x / 2 ^ 16 % 2 ^ 8 ∷ x / 2 ^ 8 % 2 ^ 8 ∷ x % 2 ^ 8 ∷ []

abbrev pub read16 : ℕ → ℕ → ℕ
read16 a b = a * 2 ^ 8 + b

abbrev pub read32 : ℕ → ℕ → ℕ → ℕ → ℕ
read32 a b c d = a * 2 ^ 24 + b * 2 ^ 16 + c * 2 ^ 8 + d

pub read16-be16 : (x : ℕ) → x < 2 ^ 16 → read16 (x / 2 ^ 8 % 2 ^ 8) (x % 2 ^ 8) ≡ x
read16-be16 x h = omega arith

pub read32-be32 :
    (x : ℕ)
    → x < 2 ^ 32
    → read32 (x / 2 ^ 24 % 2 ^ 8) (x / 2 ^ 16 % 2 ^ 8) (x / 2 ^ 8 % 2 ^ 8) (x % 2 ^ 8) ≡ x
read32-be32 x h = omega arith
