-- ===== src/H264/Tests.antt =====
-- A stream of two NAL units to try the packetizer and the depacketizer on.
use libpeer.Base.{ℕ, zero, suc, ◌≡◌, ◌≢◌, refl, ap, List, [], ◌∷◌, ◌++◌, All, replicate, arith}
use libpeer.Rtp.Encoder.{RtpEncoder, encode_h264}
use libpeer.H264.Encode.{rtp_encoder_encode_h264}
use libpeer.H264.Stream.{Delivers}
use libpeer.H264.Split.{
  HasNoStartCode, IsUnit, trailing, started, rtp_decode_h264-rtp_encoder_encode_h264,
}

abbrev encoder : RtpEncoder
encoder = record {
  type = 96;
  encode_func = encode_h264;
  seq_number = 65535;
  ssrc = 1;
  timestamp = 9;
  timestamp_increment = 3000;
}

-- A unit with zeros behind it, and one that is sent in fragments.
abbrev large : List ℕ
large = 101 ∷ replicate 1400 5

abbrev stream : List ℕ
stream = 0 ∷ 0 ∷ 0 ∷ 1 ∷ 103 ∷ 66 ∷ 7 ∷ 0 ∷ 0 ∷ 0 ∷ 1 ∷ (large ++ [])

abbrev IsNonzero : ℕ → Type 0
IsNonzero b = b ≢ 0

nonzero_apart : (before after : List ℕ) → All IsNonzero (before ++ (0 ∷ 0 ∷ 1 ∷ after)) → ⊥
nonzero_apart [] after (h, hs) = h refl
nonzero_apart (x ∷ before) after (h, hs) = nonzero_apart before after hs

nonzero-HasNoStartCode : (bytes : List ℕ) → All IsNonzero bytes → HasNoStartCode bytes
nonzero-HasNoStartCode bytes h = λ before after e. nonzero_apart before after (rw e at h)

fives : (n : ℕ) → All IsNonzero (replicate n 5)
fives zero = tt
fives (suc n) = (λ e. absurd (omega (arith, e)), fives n)

fives_end : (n : ℕ) → replicate {A = ℕ} (suc n) 5 ≡ replicate n 5 ++ (5 ∷ [])
fives_end zero = refl
fives_end (suc n) = ap (λ xs. 5 ∷ xs) (fives_end n)

large-IsUnit : IsUnit large
large-IsUnit = record {
  no_start_code = nonzero-HasNoStartCode large (λ e. absurd (omega (arith, e)), fives 1400);
  front = 101 ∷ replicate 1399 5;
  final = 5;
  ends = ap (λ xs. 101 ∷ xs) (fives_end 1399);
  nonzero = λ e. absurd (omega (arith, e));
}

small-IsUnit : IsUnit (103 ∷ 66 ∷ 7 ∷ [])
small-IsUnit = record {
  no_start_code = nonzero-HasNoStartCode (103 ∷ 66 ∷ 7 ∷ []) (
    λ e. absurd (omega (arith, e)),
    (λ e. absurd (omega (arith, e)), (λ e. absurd (omega (arith, e)), tt)),
  );
  front = 103 ∷ 66 ∷ [];
  final = 7;
  ends = refl;
  nonzero = λ e. absurd (omega (arith, e));
}

rtp_decode_h264-rtp_encoder_encode_h264_example :
    Delivers
      (9 ∷ [])
      (rtp_encoder_encode_h264 encoder stream).packets
      ((103 ∷ 66 ∷ 7 ∷ []) ∷ large ∷ [])
rtp_decode_h264-rtp_encoder_encode_h264_example =
    rtp_decode_h264-rtp_encoder_encode_h264 encoder (9 ∷ []) stream
      ((103 ∷ 66 ∷ 7 ∷ []) ∷ large ∷ [])
      (started 1 (103 ∷ 66 ∷ 7 ∷ []) (0 ∷ 0 ∷ 0 ∷ 1 ∷ (large ++ [])) (large ∷ []) small-IsUnit
        (started 1 large [] [] large-IsUnit (trailing 0)))
      (
        (103, 66 ∷ 7 ∷ [], refl, omega arith, omega arith, omega arith, omega arith),
        ((101, replicate 1400 5, refl, omega arith, omega arith, omega arith, omega arith), tt),
      )
