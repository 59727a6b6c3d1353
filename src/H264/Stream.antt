-- ===== src/H264/Stream.antt =====
-- The NAL units of a stream, one after another (src/rtp.c).
use libpeer.Base.{
  ℕ, zero, suc, ◌+◌, ◌%◌, ◌-◌, ◌≤◌, ◌<◌, ◌≡◌, inl, inr, refl, ap, sym, ◌∙◌, ◌==◌, ltb, leb,
  if◌then◌else◌, true, false, ◌&&◌, Option, none, some, List, [], ◌∷◌, ◌++◌, map, length,
  length-drop, take, drop, get_or, All, append_assoc, arith, dec_le, Bool-cases, Option-cases,
}
use mathlib.Core.Option.{some-injective}
use libpeer.Rtp.Header.{header_bytes}
use libpeer.Rtp.Encoder.{RtpEncoder}
use libpeer.H264.Encode.{
  rtp_payload_size, h264_find_nalu, strip_zeros, encode_unit, unit_of, unit_loop,
  rtp_encoder_encode_h264, rtp_encoder_encode_h264_single,
}
use libpeer.H264.Decode.{Decoded, start_code, decode_payload, rtp_decode_h264, decode_each}
use libpeer.H264.RoundTrip.{append_fits, fu_a_roundtrip}

-- A NAL unit of one of the types 1 to 23 whose forbidden bit is 0, and which fits nalu_buf.
abbrev pub IsNalu : List ℕ → Type 0
IsNalu unit =
    (first : ℕ) × (buf : List ℕ) × (unit ≡ first ∷ buf)
    × (first < 128)
    × (1 ≤ first % 32)
    × (first % 32 < 24)
    × (5 + length buf ≤ 10240)

-- A unit, delivered behind a start code; `last` is what is left in nalu_buf.
abbrev pub Delivers : List ℕ → List (List ℕ) → List (List ℕ) → Type 0
Delivers nalu packets units =
    (last : List ℕ) × (decode_each nalu packets
      ≡ some (last, map (λ (unit : List ℕ). start_code ++ unit) units))

single_roundtrip :
    (encoder : RtpEncoder) (nalu : List ℕ) (first : ℕ) (buf : List ℕ)
    → 1 ≤ first % 32
    → first % 32 < 24
    → 5 + length buf ≤ 10240
    → Delivers nalu
        (rtp_encoder_encode_h264_single encoder first (first ∷ buf)).packets
        ((first ∷ buf) ∷ [])
unfolding rtp_encoder_encode_h264_single decode_each rtp_decode_h264 decode_payload header_bytes
single_roundtrip encoder nalu first buf least most fits =
    let low : ltb 0 (first % 32) ≡ true = ground arith in
    let high : ltb (first % 32) 24 ≡ true = ground arith in
    (
      start_code ++ (first ∷ buf),
      rw (low, high, append_fits start_code (first ∷ buf) (omega arith)) refl,
    )

unit_roundtrip :
    (encoder : RtpEncoder) (nalu mem unit : List ℕ)
    → IsNalu unit
    → get_or mem 0 0 ≡ get_or unit 0 0
    → Delivers nalu (encode_unit encoder mem unit).packets (unit ∷ [])
unfolding encode_unit
unit_roundtrip encoder nalu mem unit (first, buf, e, small, least, most, fits) same =
    elim (dec_le (length unit) 1288) [
      | yes short ↦
          let test : leb (length unit) rtp_payload_size ≡ true = ground arith in
          rw (test, same, e) (single_roundtrip encoder nalu first buf least most fits)
      | no long ↦
          let test : leb (length unit) rtp_payload_size ≡ false = ground arith in
          let size : length unit ≡ suc (length buf) = ap (λ (xs : List ℕ). length xs) e in
          rw (test, same, e) ([], fu_a_roundtrip encoder nalu first buf small (omega arith) fits)
    ]

none-some : {A : Type 0} (a : A) → none ≡ some a → ⊥
none-some a e = ground arith

both_same :
    (xs ys : List ℕ) (us vs : List (List ℕ))
    → ◌≡◌ {A = Option (List ℕ × List (List ℕ))} (some (xs, us)) (some (ys, vs))
    → (xs ≡ ys) × (us ≡ vs)
both_same xs ys us vs e =
    let same = some-injective (xs, us) (ys, vs) e in
    (ap (λ (p : List ℕ × List (List ℕ)). p.0) same, ap (λ (p : List ℕ × List (List ℕ)). p.1) same)

each_suc :
    (nalu packet : List ℕ) (packets : List (List ℕ)) (d : Decoded) (last : List ℕ)
    (rest : List (List ℕ))
    → rtp_decode_h264 nalu packet ≡ some d
    → decode_each d.nalu packets ≡ some (last, rest)
    → decode_each nalu (packet ∷ packets) ≡ some (last, d.units ++ rest)
unfolding decode_each
each_suc nalu packet packets d last rest e f = rw (e, f) refl

each_parts :
    (nalu packet : List ℕ) (packets : List (List ℕ)) (mid : List ℕ) (a : List (List ℕ))
    → decode_each nalu (packet ∷ packets) ≡ some (mid, a)
    → (d : Decoded) × (rest : List (List ℕ)) × (rtp_decode_h264 nalu packet ≡ some d)
      × (decode_each d.nalu packets ≡ some (mid, rest))
      × (a ≡ d.units ++ rest)
unfolding decode_each
each_parts nalu packet packets mid a e = elim (Option-cases (rtp_decode_h264 nalu packet)) [
  | inl stuck ↦ absurd (none-some (mid, a) (rw stuck at e))
  | inr (d, first) ↦ elim (Option-cases (decode_each d.nalu packets)) [
    | inl stuck ↦ absurd (none-some (mid, a) (rw (first, stuck) at e))
    | inr ((mid', rest), second) ↦
        let whole : some (mid', d.units ++ rest) ≡ some (mid, a) = rw (first, second) at e in
        let (kept, found) = both_same mid' mid (d.units ++ rest) a whole in
        (d, rest, first, rw kept at second, sym found)
  ]
]

each-append :
    (nalu : List ℕ) (xs ys : List (List ℕ)) (mid last : List ℕ) (a b : List (List ℕ))
    → decode_each nalu xs ≡ some (mid, a)
    → decode_each mid ys ≡ some (last, b)
    → decode_each nalu (xs ++ ys) ≡ some (last, a ++ b)
unfolding decode_each
each-append nalu [] ys mid last a b e f =
    let (kept, found) = both_same nalu mid [] a e in rw (kept, ← found) f
each-append nalu (x ∷ xs) ys mid last a b e f =
    let (d, rest, first, second, same) = each_parts nalu x xs mid a e in
    rw (same, append_assoc d.units rest b)
      (each_suc nalu x (xs ++ ys) d last (rest ++ b) first
        (each-append d.nalu xs ys mid last rest b second f))

strip_head : (xs : List ℕ) (y : ℕ) (ys : List ℕ) → strip_zeros xs ≡ y ∷ ys → get_or xs 0 0 ≡ y
unfolding strip_zeros
strip_head [] y ys e = absurd (omega (arith, ap (λ (l : List ℕ). length l) e))
strip_head (x ∷ xs) y ys e = elim (Bool-cases (x == 0 && length (strip_zeros xs) == 0)) [
  | inl gone ↦
      let none_left : [] ≡ y ∷ ys = rw gone at e in
      absurd (omega (arith, ap (λ (l : List ℕ). length l) none_left))
  | inr kept ↦
      let same : x ∷ strip_zeros xs ≡ y ∷ ys = rw kept at e in
      ap (λ (l : List ℕ). get_or l 0 0) same
]

get_or-take :
    (k : ℕ) (xs : List ℕ) → 1 ≤ length (take k xs) → get_or (take k xs) 0 0 ≡ get_or xs 0 0
get_or-take zero xs h = absurd (omega arith)
get_or-take (suc k) [] h = refl
get_or-take (suc k) (x ∷ xs) h = refl

strip_nonempty : (xs : List ℕ) → 1 ≤ length (strip_zeros xs) → 1 ≤ length xs
unfolding strip_zeros
strip_nonempty [] h = h
strip_nonempty (x ∷ xs) h = omega arith

unit_head :
    (mem unit : List ℕ) (first : ℕ) (buf : List ℕ)
    → unit_of mem ≡ first ∷ buf
    → get_or mem 0 0 ≡ first
unfolding unit_of
unit_head mem unit first buf e =
    let size = h264_find_nalu mem in
    let k = if size == length mem then size else size - 1 in
    let long : 1 ≤ length (take k mem) =
      strip_nonempty (take k mem) (omega (arith, ap (λ (l : List ℕ). length l) e)) in
    sym (get_or-take k mem long) ∙ strip_head (take k mem) first buf e

find_positive : (mem : List ℕ) → 1 ≤ length mem → 1 ≤ h264_find_nalu mem
unfolding h264_find_nalu
find_positive [] h = h
find_positive (a ∷ []) h = omega arith
find_positive (a ∷ b ∷ []) h = omega arith
find_positive (a ∷ b ∷ c ∷ rest) h = ground arith

-- The units of a stream, as h264_find_nalu splits it. H264.Split says which streams these are.
pub data IsSplit : List ℕ → List (List ℕ) → Type 0 where
  ended : IsSplit [] []
  behind :
      (mem : List ℕ) (units : List (List ℕ))
      → 1 ≤ length mem
      → IsSplit (drop (h264_find_nalu mem) mem) units
      → IsSplit mem (unit_of mem ∷ units)

loop_behind :
    (fuel : ℕ) (encoder : RtpEncoder) (mem : List ℕ)
    → 1 ≤ length mem
    → unit_loop (suc fuel) encoder mem ≡ (
        let unit = encode_unit encoder mem (unit_of mem) in
        let rest = unit_loop fuel unit.encoder (drop (h264_find_nalu mem) mem) in
        record { encoder = rest.encoder; packets = unit.packets ++ rest.packets })
unfolding unit_loop
loop_behind fuel encoder mem h = let here : (length mem == 0) ≡ false = ground arith in rw here refl

split-Delivers :
    (fuel : ℕ) (encoder : RtpEncoder) (nalu mem : List ℕ) (units : List (List ℕ))
    → IsSplit mem units
    → length mem ≤ fuel
    → All IsNalu units
    → Delivers nalu (unit_loop fuel encoder mem).packets units
unfolding unit_loop decode_each
split-Delivers zero encoder nalu _ _ ended enough valid = (nalu, refl)
split-Delivers (suc fuel) encoder nalu _ _ ended enough valid = (nalu, refl)
split-Delivers zero encoder nalu _ _ (behind mem units h s) enough valid = absurd (omega arith)
split-Delivers (suc fuel) encoder nalu _ _ (behind mem units h s) enough (valid, valids) =
    let (first, buf, e, _, _, _, _) = valid in
    let starts : get_or mem 0 0 ≡ get_or (unit_of mem) 0 0 =
      unit_head mem (unit_of mem) first buf e ∙ sym (ap (λ (l : List ℕ). get_or l 0 0) e) in
    let (mid, delivered) = unit_roundtrip encoder nalu mem (unit_of mem) valid starts in
    let next = (encode_unit encoder mem (unit_of mem)).encoder in
    let rest = drop (h264_find_nalu mem) mem in
    let shorter : length rest ≤ fuel =
      omega (arith, length-drop (h264_find_nalu mem) mem, find_positive mem h) in
    let (last, others) = split-Delivers fuel next mid rest units s shorter valids in
    (
      last,
      rw (loop_behind fuel encoder mem h) (
          each-append nalu (encode_unit encoder mem (unit_of mem)).packets
            (unit_loop fuel next rest).packets mid last _ _ delivered others),
    )

pub split_stream-Delivers :
    (encoder : RtpEncoder) (nalu buf : List ℕ) (units : List (List ℕ))
    → IsSplit (drop (h264_find_nalu buf) buf) units
    → All IsNalu units
    → Delivers nalu (rtp_encoder_encode_h264 encoder buf).packets units
unfolding rtp_encoder_encode_h264
split_stream-Delivers encoder nalu buf units s valid =
    split-Delivers (length buf) encoder nalu (drop (h264_find_nalu buf) buf) units s
      (omega (arith, length-drop (h264_find_nalu buf) buf)) valid
