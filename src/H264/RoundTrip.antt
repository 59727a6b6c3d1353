-- ===== src/H264/RoundTrip.antt =====
-- The fragments of a NAL unit, put together again (src/rtp.c).
use libpeer.Base.{
  ℕ, zero, suc, ◌+◌, ◌*◌, ◌/◌, ◌%◌, ◌≤◌, ◌<◌, ◌≡◌, refl, ap, ◌∙◌, ◌==◌, ltb, leb, Bool, true, false,
  some, List, [], ◌∷◌, ◌++◌, length, length-append, length-take, length-drop, take, drop,
  take-append-drop, append_assoc, arith, dec_le,
}
use libpeer.Rtp.Header.{header_bytes}
use libpeer.Rtp.Encoder.{RtpEncoder}
use libpeer.H264.Encode.{
  nalu_header, fu_header, fu_a, fragment, fragment_loop, fu_payload_size,
  rtp_encoder_encode_h264_fu_a, next_number, advance,
}
use libpeer.H264.Decode.{
  start_code, append_nalu, decode_fragment, decode_payload, rtp_decode_h264, decode_each,
  max_nalu_size,
}

pub append_fits :
    (nalu bytes : List ℕ)
    → length nalu + length bytes ≤ 10240
    → append_nalu nalu bytes ≡ some (nalu ++ bytes)
unfolding append_nalu
append_fits nalu bytes h = ground arith

decode_by :
    (nalu : List ℕ) (size indicator header : ℕ) (bytes : List ℕ)
    → indicator % 32 ≡ 28
    → decode_payload nalu size (indicator ∷ header ∷ bytes)
      ≡ decode_fragment nalu indicator header bytes
unfolding decode_payload
decode_by nalu size indicator header bytes e = ground arith

module _ (encoder : RtpEncoder) (timestamp nri type : ℕ) (nalu bytes : List ℕ) where
  abbrev indicator : ℕ
  indicator = nalu_header fu_a nri 0

  decode_fragment_lem :
      (start last : Bool)
      → rtp_decode_h264 nalu (fragment encoder timestamp nri type start last bytes)
        ≡ decode_fragment nalu indicator (fu_header type last start) bytes
  unfolding rtp_decode_h264 fragment header_bytes
  decode_fragment_lem start last =
      decode_by nalu _ indicator (fu_header type last start) bytes
        (unfold nalu_header in omega arith)

  -- A fragment behind the first.
  decode_middle :
      1 ≤ length bytes
      → length nalu + length bytes ≤ 10240
      → decode_fragment nalu indicator (fu_header type false false) bytes
        ≡ some (record { nalu = nalu ++ bytes; units = []; ret = 0 })
  unfolding decode_fragment fu_header
  decode_middle some_bytes fits =
      let begins : ((type % 32 + 0 * 64 + 0 * 128) / 128 % 2 == 1) ≡ false = ground arith in
      let ends : ((type % 32 + 0 * 64 + 0 * 128) / 64 % 2 == 1) ≡ false = ground arith in
      let room : ltb (length nalu) max_nalu_size ≡ true = ground arith in
      rw (begins, room, append_fits nalu bytes fits, ends) refl

  -- The last one.
  decode_last :
      1 ≤ length bytes
      → length nalu + length bytes ≤ 10240
      → decode_fragment nalu indicator (fu_header type true false) bytes
        ≡ some (record { nalu = []; units = (nalu ++ bytes) ∷ []; ret = 0 })
  unfolding decode_fragment fu_header
  decode_last some_bytes fits =
      let begins : ((type % 32 + 1 * 64 + 0 * 128) / 128 % 2 == 1) ≡ false = ground arith in
      let ends : ((type % 32 + 1 * 64 + 0 * 128) / 64 % 2 == 1) ≡ true = ground arith in
      let room : ltb (length nalu) max_nalu_size ≡ true = ground arith in
      rw (begins, room, append_fits nalu bytes fits, ends) refl

-- The first one brings the header of the unit back.
decode_first :
    (first : ℕ) (nalu bytes : List ℕ)
    → first < 128
    → 5 + length bytes ≤ 10240
    → decode_fragment nalu
        (nalu_header fu_a (first / 32 % 4) 0)
        (fu_header (first % 32) false true)
        bytes
      ≡ some (record { nalu = 0 ∷ 0 ∷ 0 ∷ 1 ∷ first ∷ bytes; units = []; ret = 0 })
unfolding decode_fragment fu_header nalu_header
decode_first first nalu bytes small fits =
    let indicator = 28 % 32 + first / 32 % 4 % 4 * 32 + 0 % 2 * 128 in
    let header = first % 32 % 32 + 0 * 64 + 1 * 128 in
    let begins : (header / 128 % 2 == 1) ≡ true = ground arith in
    let back : indicator / 128 % 2 * 128 + indicator / 32 % 4 * 32 + header % 32 ≡ first =
      omega arith in
    rw (begins, back, append_fits (start_code ++ (first ∷ [])) bytes (omega arith)) refl

each_by :
    (nalu packet nalu' : List ℕ) (packets : List (List ℕ)) (units : List (List ℕ)) (ret : ℕ)
    (last : List ℕ) (rest : List (List ℕ))
    → rtp_decode_h264 nalu packet ≡ some (record { nalu = nalu'; units = units; ret = ret })
    → decode_each nalu' packets ≡ some (last, rest)
    → decode_each nalu (packet ∷ packets) ≡ some (last, units ++ rest)
unfolding decode_each
each_by nalu packet nalu' packets units ret last rest e f = rw (e, f) refl

module _ (fuel : ℕ) (encoder : RtpEncoder) (timestamp nri type : ℕ) (start : Bool)
    (buf : List ℕ) where
  loop_last :
      1 ≤ length buf
      → length buf ≤ 1286
      → fragment_loop (suc fuel) encoder timestamp nri type start buf ≡ record {
        encoder = next_number encoder;
        packets = fragment encoder timestamp nri type start true buf ∷ [];
      }
  unfolding fragment_loop
  loop_last some_bytes short =
      let here : (length buf == 0) ≡ false = ground arith in
      let fits : leb (length buf) fu_payload_size ≡ true = ground arith in rw (here, fits) refl

  loop_more :
      1286 < length buf
      → fragment_loop (suc fuel) encoder timestamp nri type start buf ≡ (
          let rest =
            fragment_loop fuel (next_number encoder) timestamp nri type false (drop 1286 buf) in
          record {
            encoder = rest.encoder;
            packets =
                fragment encoder timestamp nri type start false (take 1286 buf) ∷ rest.packets;
          })
  unfolding fragment_loop
  loop_more long =
      let here : (length buf == 0) ≡ false = ground arith in
      let fits : leb (length buf) fu_payload_size ≡ false = ground arith in rw (here, fits) refl

-- What is left of a unit goes behind what nalu_buf holds of it, and the unit is delivered.
decode_rest :
    (fuel : ℕ) (encoder : RtpEncoder) (timestamp nri type : ℕ) (nalu buf : List ℕ)
    → 1 ≤ length buf
    → length buf ≤ fuel
    → length nalu + length buf ≤ 10240
    → decode_each nalu (fragment_loop fuel encoder timestamp nri type false buf).packets
      ≡ some ([], (nalu ++ buf) ∷ [])
decode_rest zero encoder timestamp nri type nalu buf some_bytes enough fits = absurd (omega arith)
decode_rest (suc fuel) encoder timestamp nri type nalu buf some_bytes enough fits =
    elim (dec_le (length buf) 1286) [
      | yes short ↦ rw (loop_last fuel encoder timestamp nri type false buf some_bytes short) (
          each_by nalu _ [] [] ((nalu ++ buf) ∷ []) 0 [] []
            (decode_fragment_lem encoder timestamp nri type nalu buf false true
              ∙ decode_last encoder timestamp nri type nalu buf some_bytes fits)
            (unfold decode_each in refl))
      | no long ↦
          let head = take 1286 buf in
          let tail = drop 1286 buf in
          let h : length head ≡ 1286 = omega (arith, length-take 1286 buf) in
          let t : length tail + 1286 ≡ length buf = omega (arith, length-drop 1286 buf) in
          let joined : (nalu ++ head) ++ tail ≡ nalu ++ buf =
            append_assoc nalu head tail
            ∙ ap (λ (xs : List ℕ). nalu ++ xs) (take-append-drop 1286 buf) in
          let further =
            decode_rest fuel (next_number encoder) timestamp nri type (nalu ++ head) tail
              (omega arith) (omega arith) (omega (arith, length-append nalu head)) in
          rw (loop_more fuel encoder timestamp nri type false buf (omega arith)) (
            each_by nalu _ (nalu ++ head) _ [] 0 [] ((nalu ++ buf) ∷ [])
              (decode_fragment_lem encoder timestamp nri type nalu head false false
                ∙ decode_middle encoder timestamp nri type nalu head (omega arith) (omega arith))
              (rw joined at further))
    ]

-- Take a NAL unit of more than RTP_PAYLOAD_SIZE bytes whose forbidden bit is 0, and which fits nalu_buf behind a
-- start code. The packets that rtp_encoder_encode_h264_fu_a sends of it, put through rtp_decode_h264 one
-- after another, deliver one unit: the start code and the NAL unit as it was. Whatever an unfinished unit had
-- left in nalu_buf is dropped, and nothing is left there.
pub fu_a_roundtrip :
    (encoder : RtpEncoder) (nalu : List ℕ) (first : ℕ) (buf : List ℕ)
    → first < 128
    → 1288 < suc (length buf)
    → 5 + length buf ≤ 10240
    → decode_each nalu (rtp_encoder_encode_h264_fu_a encoder first buf).packets
      ≡ some ([], (start_code ++ (first ∷ buf)) ∷ [])
unfolding rtp_encoder_encode_h264_fu_a
fu_a_roundtrip encoder nalu first [] small long fits = absurd (omega arith)
fu_a_roundtrip encoder nalu first (x ∷ xs) small long fits =
    let buf = x ∷ xs in
    let head = take 1286 buf in
    let tail = drop 1286 buf in
    let enc = advance encoder (first % 32) in
    let begun = 0 ∷ 0 ∷ 0 ∷ 1 ∷ first ∷ head in
    let h : length head ≡ 1286 = omega (arith, length-take 1286 buf) in
    let t : length tail + 1286 ≡ length buf = omega (arith, length-drop 1286 buf) in
    let joined : begun ++ tail ≡ start_code ++ (first ∷ buf) =
      ap (λ (ys : List ℕ). start_code ++ (first ∷ ys)) (take-append-drop 1286 buf) in
    let further =
      decode_rest (length xs) (next_number enc) encoder.timestamp (first / 32 % 4) (first % 32)
        begun tail (omega arith) (omega arith) (omega arith) in
    rw
      (loop_more (length xs) enc encoder.timestamp (first / 32 % 4) (first % 32) true buf
        (omega arith))
      (each_by nalu _ begun _ [] 0 [] ((start_code ++ (first ∷ buf)) ∷ [])
        (decode_fragment_lem enc encoder.timestamp (first / 32 % 4) (first % 32) nalu head true
            false
          ∙ decode_first first nalu head small (omega arith))
        (rw joined at further))
