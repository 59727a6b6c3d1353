-- ===== src/Base64.antt =====
-- src/base64.c: base64_encode and base64_decode, over lists of characters.
pub mod Sextets
pub mod RoundTrip
mod Tests
use libpeer.Base.{
  ℕ, zero, suc, ◌+◌, ◌*◌, ◌/◌, ◌^◌, Bool, true, false, List, [], ◌∷◌, ◌++◌, Option, none, some, ltb,
  ◌==◌, if◌then◌else◌, length, get_or, bit_and, bit_or,
}
use libpeer.Base.Word.{u8}

-- base64_table: 'A' to 'Z', 'a' to 'z', '0' to '9', '+' and '/'.
abbrev pub base64_table : List ℕ
base64_table =
    65 ∷ 66 ∷ 67 ∷ 68 ∷ 69 ∷ 70 ∷ 71 ∷ 72 ∷ 73 ∷ 74 ∷ 75 ∷ 76 ∷ 77 ∷ 78 ∷ 79 ∷ 80 ∷ 81 ∷ 82 ∷ 83
    ∷ 84 ∷ 85 ∷ 86 ∷ 87 ∷ 88 ∷ 89 ∷ 90 ∷ 97 ∷ 98 ∷ 99 ∷ 100 ∷ 101 ∷ 102 ∷ 103 ∷ 104 ∷ 105 ∷ 106
    ∷ 107 ∷ 108 ∷ 109 ∷ 110 ∷ 111 ∷ 112 ∷ 113 ∷ 114 ∷ 115 ∷ 116 ∷ 117 ∷ 118 ∷ 119 ∷ 120 ∷ 121 ∷ 122
    ∷ 48 ∷ 49 ∷ 50 ∷ 51 ∷ 52 ∷ 53 ∷ 54 ∷ 55 ∷ 56 ∷ 57 ∷ 43 ∷ 47 ∷ []

-- '='
abbrev pub pad : ℕ
pad = 61

unfoldable pub digit : ℕ → ℕ
digit i = get_or base64_table i 0

-- The four six-bit indices of three bytes.
unfoldable pub index0 : ℕ → ℕ
index0 a = bit_and a 0xfc / 2 ^ 2

unfoldable pub index1 : ℕ → ℕ → ℕ
index1 a b = bit_or (bit_and a 0x03 * 2 ^ 4) (bit_and b 0xf0 / 2 ^ 4)

unfoldable pub index2 : ℕ → ℕ → ℕ
index2 b c = bit_or (bit_and b 0x0f * 2 ^ 2) (bit_and c 0xc0 / 2 ^ 6)

unfoldable pub index3 : ℕ → ℕ
index3 c = bit_and c 0x3f

-- The four characters of one round, `buf_len` being the bytes that were there.
unfoldable pub group : ℕ → ℕ → ℕ → ℕ → List ℕ
group a b c buf_len =
    digit (index0 a)
    ∷ digit (index1 a b)
    ∷ (if ltb 1 buf_len then digit (index2 b c) else pad)
    ∷ (if ltb 2 buf_len then digit (index3 c) else pad)
    ∷ []

-- The loop of base64_encode: everything stored from `output_index` on, the terminating zero included.
-- The function returns early, without that zero, where a group does not fit.
unfoldable pub encode_loop : ℕ → ℕ → List ℕ → List ℕ
encode_loop output_index output_len [] = 0 ∷ []
encode_loop output_index output_len (a ∷ []) =
    if ltb output_len (output_index + 4) then [] else group a 0 0 1 ++ (0 ∷ [])
encode_loop output_index output_len (a ∷ b ∷ []) =
    if ltb output_len (output_index + 4) then [] else group a b 0 2 ++ (0 ∷ [])
encode_loop output_index output_len (a ∷ b ∷ c ∷ rest) =
    let stored = encode_loop (output_index + 4) output_len rest in
    if ltb output_len (output_index + 4) then [] else group a b c 3 ++ stored

unfoldable pub base64_encode : List ℕ → ℕ → List ℕ
base64_encode input output_len = encode_loop 0 output_len input

-- strchr(base64_table, c) - base64_table, from the index `i` on; the terminating zero is found last.
unfoldable pub table_index : List ℕ → ℕ → ℕ → Option ℕ
table_index [] i c = if c == 0 then some i else none
table_index (x ∷ table) i c =
    let rest = table_index table (i + 1) c in if c == x then some i else rest

-- The local array `buf` of base64_decode.
pub record Quad : Type 0 where
  pub buf0 : ℕ
  pub buf1 : ℕ
  pub buf2 : ℕ
  pub buf3 : ℕ

-- One character is read: the value stored, and what is added to buf_len. Behind the input the array
-- keeps what it held. `none` is a character outside the table, of which the source subtracts a null
-- pointer.
unfoldable pub load : List ℕ → ℕ → ℕ → Option (ℕ × ℕ)
load input j held =
    if ltb j (length input)
    then (if get_or input j 0 == pad
        then some (0, 0)
        else elim (table_index base64_table 0 (get_or input j 0)) [
          | none ↦ none
          | some v ↦ some (v, 1)
        ])
    else some (held, 0)

infixl 5 ◌>>=◌
abbrev pub ◌>>=◌ : {A B : Type 0} → Option A → (A → Option B) → Option B
none >>= f = none
(some a) >>= f = f a

unfoldable pub load_quad : Quad → List ℕ → Option (Quad × ℕ)
load_quad q input = do
  (v0, n0) ← load input 0 q.buf0
  (v1, n1) ← load input 1 q.buf1
  (v2, n2) ← load input 2 q.buf2
  (v3, n3) ← load input 3 q.buf3
  some (record { buf0 = v0; buf1 = v1; buf2 = v2; buf3 = v3 }, n0 + n1 + n2 + n3)

-- The bytes that one round stores.
unfoldable pub bytes_of : Quad → ℕ → List ℕ
bytes_of q buf_len =
    u8 (bit_or (q.buf0 * 2 ^ 2) (bit_and q.buf1 0x30 / 2 ^ 4))
    ∷ ((if ltb 2 buf_len
          then u8 (bit_or (bit_and q.buf1 0x0f * 2 ^ 4) (bit_and q.buf2 0x3c / 2 ^ 2)) ∷ []
          else [])
        ++ (if ltb 3 buf_len then u8 (bit_or (bit_and q.buf2 0x03 * 2 ^ 6) q.buf3) ∷ [] else []))

-- What a call of base64_decode comes to.
pub data Decoded : Type 0 where
  stored : List ℕ → Decoded
  minus_one undefined : Decoded

unfoldable pub prepend : List ℕ → Decoded → Decoded
prepend bytes (stored rest) = stored (bytes ++ rest)
prepend bytes minus_one = minus_one
prepend bytes undefined = undefined

-- The end of a round: no room, or the bytes stored.
unfoldable pub checked : ℕ → ℕ → ℕ → List ℕ → Decoded → Decoded
checked output_index output_len buf_len bytes rest =
    if ltb output_len (output_index + buf_len) then minus_one else prepend bytes rest

-- The loop of base64_decode, four characters a round; `stored` is everything stored, in order.
unfoldable pub decode_loop : ℕ → ℕ → Quad → List ℕ → Decoded
decode_loop output_index output_len q [] = stored []
decode_loop output_index output_len q (a ∷ b ∷ c ∷ d ∷ rest) =
    elim (load_quad q (a ∷ b ∷ c ∷ d ∷ [])) [
      | none ↦ undefined
      | some (q', buf_len) ↦
          checked output_index output_len buf_len (bytes_of q' buf_len)
            (decode_loop (output_index + length (bytes_of q' buf_len)) output_len q' rest)
    ]
decode_loop output_index output_len q (a ∷ short) = elim (load_quad q (a ∷ short)) [
  | none ↦ undefined
  | some (q', buf_len) ↦ checked output_index output_len buf_len (bytes_of q' buf_len) (stored [])
]

-- base64_decode, `uninitialized` being what the local array holds when it is called.
unfoldable pub base64_decode : Quad → List ℕ → ℕ → Decoded
base64_decode uninitialized input output_len = decode_loop 0 output_len uninitialized input
