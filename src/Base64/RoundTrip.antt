-- ===== src/Base64/RoundTrip.antt =====
-- What base64_encode writes, base64_decode reads back (src/base64.c).
use libpeer.Base.{
  ℕ, ◌+◌, ◌*◌, ◌/◌, ◌≤◌, ◌≡◌, refl, sym, ◌∙◌, ap, List, [], ◌∷◌, ◌++◌, some, arith, append_assoc,
  length, length-append, All, dec_le,
}
use libpeer.Base.Word.{IsByte}
use libpeer.Base64.{
  index0, index1, index2, index3, group, encode_loop, base64_encode, Quad, load_quad, bytes_of,
  stored, prepend, checked, decode_loop, base64_decode,
}
use libpeer.Base64.Sextets.{
  index0_lem, index1_lem, index2_lem, index3_lem, quad_bytes, triple_bytes, pair_bytes,
  load_quad-four, load_quad-three, load_quad-two,
}

-- The characters without the terminating zero.
unfoldable text : List ℕ → List ℕ
text [] = []
text (a ∷ []) = group a 0 0 1
text (a ∷ b ∷ []) = group a b 0 2
text (a ∷ b ∷ c ∷ rest) = group a b c 3 ++ text rest

length-text : (input : List ℕ) → length (text input) ≡ (length input + 2) / 3 * 4
unfolding text group
length-text [] = refl
length-text (a ∷ []) = refl
length-text (a ∷ b ∷ []) = refl
length-text (a ∷ b ∷ c ∷ rest) = omega (arith, length-text rest)

encode_step :
    (a b c : ℕ) (rest : List ℕ) (output_index output_len : ℕ)
    → output_index + 4 ≤ output_len
    → encode_loop output_index output_len (a ∷ b ∷ c ∷ rest)
      ≡ group a b c 3 ++ encode_loop (output_index + 4) output_len rest
unfolding encode_loop
encode_step a b c rest output_index output_len h = ground arith

encode-text :
    (input : List ℕ) (output_index output_len : ℕ)
    → output_index + (length input + 2) / 3 * 4 ≤ output_len
    → encode_loop output_index output_len input ≡ text input ++ (0 ∷ [])
unfolding text
encode-text [] output_index output_len h = unfold encode_loop in refl
encode-text (a ∷ []) output_index output_len h = unfold encode_loop in ground arith
encode-text (a ∷ b ∷ []) output_index output_len h = unfold encode_loop in ground arith
encode-text (a ∷ b ∷ c ∷ rest) output_index output_len h =
    encode_step a b c rest output_index output_len (omega arith)
    ∙ rw (encode-text rest (output_index + 4) output_len (omega arith))
        (sym (append_assoc (group a b c 3) (text rest) (0 ∷ [])))

-- One round on four characters whose quad and bytes are known.
decode_round :
    (output_index output_len : ℕ) (q q' : Quad) (c0 c1 c2 c3 buf_len : ℕ) (chars bytes out : List ℕ)
    → load_quad q (c0 ∷ c1 ∷ c2 ∷ c3 ∷ []) ≡ some (q', buf_len)
    → bytes_of q' buf_len ≡ bytes
    → output_index + buf_len ≤ output_len
    → decode_loop (output_index + length bytes) output_len q' chars ≡ stored out
    → decode_loop output_index output_len q (c0 ∷ c1 ∷ c2 ∷ c3 ∷ chars) ≡ stored (bytes ++ out)
unfolding decode_loop checked prepend
decode_round output_index output_len q q' c0 c1 c2 c3 buf_len chars bytes out loaded same room
      rest =
    ground (arith, loaded, same, rest)

decode-text :
    (input : List ℕ) (output_index output_len : ℕ) (q : Quad)
    → All IsByte input
    → output_index + length input + 1 ≤ output_len
    → decode_loop output_index output_len q (text input) ≡ stored input
unfolding text group
decode-text [] output_index output_len q bytes h = unfold decode_loop in refl
decode-text (a ∷ []) output_index output_len q (ha, bytes) h =
    let e0 = index0_lem a 0 0 ha (omega arith) (omega arith) in
    let e1 = index1_lem a 0 0 ha (omega arith) (omega arith) in
    decode_round output_index output_len q _ _ _ _ _ 2 [] (a ∷ []) []
      (load_quad-two q (index0 a) (index1 a 0) 0 0 (omega (arith, e0)) (omega (arith, e1)))
      (pair_bytes (index0 a) (index1 a 0) 0 (omega (arith, e0)) (omega (arith, e1)) (omega arith)
        ∙ ap (λ x. x ∷ []) (omega (arith, e0, e1)))
      (omega arith) (unfold decode_loop in refl)
decode-text (a ∷ b ∷ []) output_index output_len q (ha, (hb, bytes)) h =
    let e0 = index0_lem a b 0 ha hb (omega arith) in
    let e1 = index1_lem a b 0 ha hb (omega arith) in
    let e2 = index2_lem a b 0 ha hb (omega arith) in
    decode_round output_index output_len q _ _ _ _ _ 3 [] (a ∷ b ∷ []) []
      (load_quad-three q (index0 a) (index1 a b) (index2 b 0) 0 (omega (arith, e0))
        (omega (arith, e1)) (omega (arith, e2)))
      (triple_bytes (index0 a) (index1 a b) (index2 b 0) (omega (arith, e0)) (omega (arith, e1))
          (omega (arith, e2))
        ∙ ground (arith, e0, e1, e2))
      (omega arith) (unfold decode_loop in refl)
decode-text (a ∷ b ∷ c ∷ rest) output_index output_len q (ha, (hb, (hc, bytes))) h =
    let e0 = index0_lem a b c ha hb hc in
    let e1 = index1_lem a b c ha hb hc in
    let e2 = index2_lem a b c ha hb hc in
    let e3 = index3_lem a b c ha hb hc in
    decode_round output_index output_len q _ _ _ _ _ 4 (text rest) (a ∷ b ∷ c ∷ []) rest
      (load_quad-four q (index0 a) (index1 a b) (index2 b c) (index3 c) (omega (arith, e0))
        (omega (arith, e1)) (omega (arith, e2)) (omega (arith, e3)))
      (quad_bytes (index0 a) (index1 a b) (index2 b c) (index3 c) (omega (arith, e0))
          (omega (arith, e1)) (omega (arith, e2)) (omega (arith, e3))
        ∙ ground (arith, e0, e1, e2, e3))
      (omega arith) (decode-text rest (output_index + 3) output_len _ bytes (omega arith))

-- With room for the characters, base64_encode stores a text of four characters for each three bytes
-- begun and a zero behind it; and with room for one byte more than there were, base64_decode stores just
-- the bytes again, whatever its uninitialized array holds.
pub base64_roundtrip :
    (input : List ℕ) (text_len output_len : ℕ) (uninitialized : Quad)
    → All IsByte input
    → (length input + 2) / 3 * 4 ≤ text_len
    → length input + 1 ≤ output_len
    → (chars : List ℕ) × (base64_encode input text_len ≡ chars ++ (0 ∷ []))
      × (length chars ≡ (length input + 2) / 3 * 4)
      × (base64_decode uninitialized chars output_len ≡ stored input)
unfolding base64_encode base64_decode
base64_roundtrip input text_len output_len uninitialized bytes fits room = (
  text input,
  encode-text input 0 text_len (omega arith),
  length-text input,
  decode-text input 0 output_len uninitialized bytes (omega arith),
)

-- The buffer that holds just the characters has no room for the terminating zero: base64_encode stores one
-- byte more than the output length that it is given.
pub base64_encode_overrun :
    (input : List ℕ)
    → length (base64_encode input ((length input + 2) / 3 * 4)) ≡ (length input + 2) / 3 * 4 + 1
unfolding base64_encode
base64_encode_overrun input =
    rw (encode-text input 0 ((length input + 2) / 3 * 4) (omega arith))
      (omega (arith, length-append (text input) (0 ∷ []), length-text input))

encode_loop_bounds :
    (input : List ℕ) (output_index output_len : ℕ)
    → output_index ≤ output_len
    → output_index + length (encode_loop output_index output_len input) ≤ output_len + 1
unfolding encode_loop group
encode_loop_bounds [] output_index output_len h = omega arith
encode_loop_bounds (a ∷ []) output_index output_len h = ground arith
encode_loop_bounds (a ∷ b ∷ []) output_index output_len h = ground arith
encode_loop_bounds (a ∷ b ∷ c ∷ rest) output_index output_len h =
    elim (dec_le (output_index + 4) output_len) [
      | yes fits ↦ ground (arith, encode_loop_bounds rest (output_index + 4) output_len fits)
      | no full ↦ ground arith
    ]

-- base64_encode never stores more than one byte beyond the output length.
pub base64_encode_bounds :
    (input : List ℕ) (output_len : ℕ) → length (base64_encode input output_len) ≤ output_len + 1
unfolding base64_encode
base64_encode_bounds input output_len =
    omega (arith, encode_loop_bounds input 0 output_len (omega arith))
