-- ===== src/Base64/Tests.antt =====
-- "Man" and "M" in the words of src/base64.c.
use libpeer.Base.{ℕ, ◌+◌, ◌*◌, ◌/◌, ◌≤◌, ◌≡◌, refl, List, [], ◌∷◌, ◌++◌, length, arith}
use libpeer.Base64.{
  base64_encode, encode_loop, group, digit, index0, index1, index2, index3, Quad, base64_decode,
  stored,
}
use libpeer.Base64.RoundTrip.{base64_roundtrip, base64_encode_bounds, base64_encode_overrun}

abbrev man : List ℕ
man = 77 ∷ 97 ∷ 110 ∷ []

abbrev stale : Quad
stale = record { buf0 = 1; buf1 = 2; buf2 = 3; buf3 = 4 }

-- "TWFu"
encode_man : base64_encode man 5 ≡ 84 ∷ 87 ∷ 70 ∷ 117 ∷ 0 ∷ []
unfolding base64_encode encode_loop group digit index0 index1 index2 index3
encode_man = refl

-- "===="
abbrev only_pads : List ℕ
only_pads = 61 ∷ 61 ∷ 61 ∷ 61 ∷ []

base64_roundtrip_example :
    (chars : List ℕ) × (base64_encode (77 ∷ man) 8 ≡ chars ++ (0 ∷ []))
    × (length chars ≡ (length (77 ∷ man) + 2) / 3 * 4)
    × (base64_decode stale chars 5 ≡ stored (77 ∷ man))
base64_roundtrip_example =
    base64_roundtrip (77 ∷ man) 8 5 stale
      (omega arith, (omega arith, (omega arith, (omega arith, tt)))) (omega arith) (omega arith)

base64_encode_bounds_example : length (base64_encode man 3) ≤ 3 + 1
base64_encode_bounds_example = base64_encode_bounds man 3

base64_encode_overrun_example :
    length (base64_encode man ((length man + 2) / 3 * 4)) ≡ (length man + 2) / 3 * 4 + 1
base64_encode_overrun_example = base64_encode_overrun man
