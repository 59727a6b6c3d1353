-- ===== src/H264/Split.antt =====
-- Byte streams of NAL units (Annex B of H.264), and how h264_find_nalu (src/rtp.c) splits them.
use libpeer.Base.{
  ℕ, zero, suc, ◌+◌, ◌-◌, ◌≤◌, ◌≡◌, ◌≢◌, refl, ap, sym, ◌∙◌, ◌==◌, true, false, List, [], ◌∷◌, ◌++◌,
  length, length-append, length-replicate, take, drop, take-append_exact, take_all, replicate,
  get_or, append_assoc, arith, drop_all, All, eq→==, ne→==_false,
}
use libpeer.Rtp.Encoder.{RtpEncoder}
use libpeer.H264.Encode.{h264_find_nalu, strip_zeros, unit_of, rtp_encoder_encode_h264}
use libpeer.H264.Stream.{IsSplit, ended, behind, IsNalu, Delivers, split_stream-Delivers}

-- No start code 00 00 01 anywhere in the bytes.
abbrev pub HasNoStartCode : List ℕ → Type 0
HasNoStartCode bytes = (before after : List ℕ) → bytes ≡ before ++ (0 ∷ 0 ∷ 1 ∷ after) → ⊥

-- The bytes of a NAL unit: no start code, and the last of them is not zero.
pub record IsUnit (unit : List ℕ) : Type 0 where
  pub no_start_code : HasNoStartCode unit
  pub front : List ℕ
  pub final : ℕ
  pub ends : unit ≡ front ++ (final ∷ [])
  pub nonzero : final ≢ 0

-- A stream of units: in front of each stand zeros, as many as may be, and the start code 00 00 01; zeros may
-- stand at the end.
pub data IsStream : List ℕ → List (List ℕ) → Type 0 where
  trailing : (zeros : ℕ) → IsStream (replicate zeros 0) []
  started :
      (zeros : ℕ) (unit rest : List ℕ) (units : List (List ℕ))
      → IsUnit unit
      → IsStream rest units
      → IsStream (replicate zeros 0 ++ (0 ∷ 0 ∷ 1 ∷ (unit ++ rest))) (unit ∷ units)

-- A byte at which no start code begins is passed.
find_pass :
    (a : ℕ) (xs : List ℕ)
    → ((a ≡ 0) → (get_or xs 0 0 ≡ 0) → (get_or xs 1 0 ≡ 1) → ⊥)
    → h264_find_nalu (a ∷ xs) ≡ suc (h264_find_nalu xs)
unfolding h264_find_nalu
find_pass a [] h = refl
find_pass a (b ∷ []) h = refl
find_pass a (b ∷ c ∷ rest) h = ground (arith, h)

find_zeros : (n : ℕ) → h264_find_nalu (replicate n 0) ≡ n
find_zeros zero = unfold h264_find_nalu in refl
find_zeros (suc zero) = unfold h264_find_nalu in refl
find_zeros (suc (suc zero)) = unfold h264_find_nalu in refl
find_zeros (suc (suc (suc n))) =
    find_pass 0 (replicate (suc (suc n)) 0) (λ a b c. absurd (omega (arith, c)))
    ∙ ap suc (find_zeros (suc (suc n)))

find_start : (n : ℕ) (rest : List ℕ) → h264_find_nalu (replicate n 0 ++ (0 ∷ 0 ∷ 1 ∷ rest)) ≡ n + 3
find_start zero rest = unfold h264_find_nalu in refl
find_start (suc zero) rest =
    let passed = find_pass 0 (0 ∷ 0 ∷ 1 ∷ rest) (λ a b c. absurd (omega (arith, c))) in
    omega (arith, passed, find_start zero rest)
find_start (suc (suc n)) rest =
    let passed = find_pass 0 (replicate (suc n) 0 ++ (0 ∷ 0 ∷ 1 ∷ rest)) (third n) in
    let more = find_start (suc n) rest in passed ∙ (ap suc more ∙ omega arith)
  where
    third :
        (n : ℕ)
        → ◌≡◌ {A = ℕ} 0 0
        → get_or (replicate (suc n) 0 ++ (0 ∷ 0 ∷ 1 ∷ rest)) 0 0 ≡ 0
        → get_or (replicate (suc n) 0 ++ (0 ∷ 0 ∷ 1 ∷ rest)) 1 0 ≡ 1
        → ⊥
    third zero a b c = omega (arith, c)
    third (suc n) a b c = omega (arith, c)

-- A unit is passed whole.
find_unit :
    (front : List ℕ) (final : ℕ) (tail : List ℕ)
    → final ≢ 0
    → HasNoStartCode (front ++ (final ∷ []))
    → h264_find_nalu (front ++ (final ∷ tail)) ≡ length front + 1 + h264_find_nalu tail
find_unit [] final tail nonzero none =
    let passed = find_pass final tail (λ a b c. nonzero a) in omega (arith, passed)
find_unit (x ∷ front) final tail nonzero none =
    let passed = find_pass x (front ++ (final ∷ tail)) (begins front none) in
    let more =
      find_unit front final tail nonzero
        (λ before after e. none (x ∷ before) after (ap (λ xs. x ∷ xs) e)) in
    omega (arith, passed, more)
  where
    begins :
        (front : List ℕ)
        → HasNoStartCode (x ∷ (front ++ (final ∷ [])))
        → x ≡ 0
        → get_or (front ++ (final ∷ tail)) 0 0 ≡ 0
        → get_or (front ++ (final ∷ tail)) 1 0 ≡ 1
        → ⊥
    begins [] none a b c = nonzero b
    begins (y ∷ []) none a b c = none [] [] (rw (a, b, c) refl)
    begins (y ∷ z ∷ front) none a b c = none [] (front ++ (final ∷ [])) (rw (a, b, c) refl)

strip_none : (n : ℕ) → strip_zeros (replicate n 0) ≡ []
unfolding strip_zeros
strip_none zero = refl
strip_none (suc n) = rw (strip_none n) refl

strip_unit :
    (front : List ℕ) (final n : ℕ)
    → final ≢ 0
    → strip_zeros (front ++ (final ∷ replicate n 0)) ≡ front ++ (final ∷ [])
unfolding strip_zeros
strip_unit [] final n nonzero =
    let other : (final == 0) ≡ false = ne→==_false final 0 nonzero in rw (strip_none n, other) refl
strip_unit (x ∷ front) final n nonzero =
    let long : (length (front ++ (final ∷ [])) == 0) ≡ false =
      ground (arith, length-append front (final ∷ [])) in
    rw (strip_unit front final n nonzero, long) (ground arith)

-- The unit at the head of the bytes, and where the next one is.
module _ (front : List ℕ) (final : ℕ) (nonzero : final ≢ 0)
    (none : HasNoStartCode (front ++ (final ∷ []))) where
  abbrev body : List ℕ
  body = front ++ (final ∷ [])

  find_behind : (tail : List ℕ) → h264_find_nalu (body ++ tail) ≡ length body + h264_find_nalu tail
  find_behind tail =
      let found = find_unit front final tail nonzero none in
      rw (append_assoc front (final ∷ []) tail)
        (omega (arith, found, length-append front (final ∷ [])))

  strip_behind : (n : ℕ) → strip_zeros (body ++ replicate n 0) ≡ body
  strip_behind n =
      rw (append_assoc front (final ∷ []) (replicate n 0)) (strip_unit front final n nonzero)

  last_unit : (n : ℕ) → unit_of (body ++ replicate n 0) ≡ body
  unfolding unit_of
  last_unit n =
      let whole = body ++ replicate n 0 in
      let found : h264_find_nalu whole ≡ length whole = omega (
        arith,
        find_behind (replicate n 0),
        find_zeros n,
        length-append body (replicate n 0),
        length-replicate {A = ℕ} n 0,
      ) in
      let ended : (length whole == length whole) ≡ true = eq→== _ _ refl in
      rw (found, ended, take_all (length whole) whole (omega arith)) (strip_behind n)

  next_unit :
      (n : ℕ) (more : List ℕ)
      → 1 ≤ length more
      → unit_of (body ++ (replicate n 0 ++ (0 ∷ 0 ∷ 1 ∷ more))) ≡ body
  unfolding unit_of
  next_unit n more some_more =
      let whole = body ++ (replicate n 0 ++ (0 ∷ 0 ∷ 1 ∷ more)) in
      let found : h264_find_nalu whole ≡ length body + (n + 3) =
        find_behind (replicate n 0 ++ (0 ∷ 0 ∷ 1 ∷ more))
        ∙ ap (λ k. length body + k) (find_start n more) in
      let inside : (length body + (n + 3) == length whole) ≡ false = ne→==_false _ _ (λ e. omega (
        arith,
        e,
        length-append body (replicate n 0 ++ (0 ∷ 0 ∷ 1 ∷ more)),
        length-append (replicate n 0) (0 ∷ 0 ∷ 1 ∷ more),
        length-replicate {A = ℕ} n 0,
      )) in
      let cut : length body + (n + 3) - 1 ≡ length (body ++ replicate (n + 2) 0) =
        omega
          (arith, length-append body (replicate (n + 2) 0), length-replicate {A = ℕ} (n + 2) 0) in
      let shape : whole ≡ (body ++ replicate (n + 2) 0) ++ (1 ∷ more) =
        ap (λ xs. body ++ xs) (two_zeros n)
        ∙ sym (append_assoc body (replicate (n + 2) 0) (1 ∷ more)) in
      let taken : take (length body + (n + 3) - 1) whole ≡ body ++ replicate (n + 2) 0 =
        ap (λ xs. take (length body + (n + 3) - 1) xs) shape
        ∙ take-append_exact _ (body ++ replicate (n + 2) 0) (1 ∷ more) cut in
      rw (found, inside, taken) (strip_behind (n + 2))
    where
      two_zeros : (n : ℕ) → replicate n 0 ++ (0 ∷ 0 ∷ 1 ∷ more) ≡ replicate (n + 2) 0 ++ (1 ∷ more)
      two_zeros zero = refl
      two_zeros (suc n) =
          let longer : suc n + 2 ≡ suc (n + 2) = omega arith in
          rw longer (ap (λ xs. 0 ∷ xs) (two_zeros n))

unit_nonempty : (unit rest : List ℕ) → IsUnit unit → 1 ≤ length (unit ++ rest)
unit_nonempty unit rest u =
    let size : length unit ≡ length u.front + 1 =
      ap (λ (xs : List ℕ). length xs) u.ends ∙ length-append u.front (u.final ∷ []) in
    omega (arith, size, length-append unit rest)

unit_of_stream :
    (unit rest : List ℕ) (units : List (List ℕ))
    → IsUnit unit
    → IsStream rest units
    → unit_of (unit ++ rest) ≡ unit
unit_of_stream unit rest units u (trailing n) =
    let none = rw u.ends at u.no_start_code in
    rw (u.ends) (last_unit u.front u.final u.nonzero none n)
unit_of_stream unit rest units u (started n more rest' units' v s) =
    let none = rw u.ends at u.no_start_code in
    rw (u.ends)
      (next_unit u.front u.final u.nonzero none n (more ++ rest') (unit_nonempty more rest' v))

stream-IsSplit :
    (bytes : List ℕ) (units : List (List ℕ))
    → IsStream bytes units
    → IsSplit (drop (h264_find_nalu bytes) bytes) units
stream-IsSplit bytes units (trailing n) =
    let gone : drop n (replicate {A = ℕ} n 0) ≡ [] =
      drop_all n (replicate {A = ℕ} n 0) (omega (arith, length-replicate {A = ℕ} n 0)) in
    rw (find_zeros n, gone) ended
stream-IsSplit bytes units (started n unit rest more u s) =
    let none = rw u.ends at u.no_start_code in
    let here : drop (n + 3) (replicate n 0 ++ (0 ∷ 0 ∷ 1 ∷ (unit ++ rest))) ≡ unit ++ rest =
      past n (unit ++ rest) in
    let found : h264_find_nalu (unit ++ rest) ≡ length unit + h264_find_nalu rest =
      rw (u.ends) (find_behind u.front u.final u.nonzero none rest) in
    let beyond : drop (length unit + h264_find_nalu rest) (unit ++ rest)
        ≡ drop (h264_find_nalu rest) rest =
      drop_more unit rest (h264_find_nalu rest) in
    let further : IsSplit (drop (h264_find_nalu (unit ++ rest)) (unit ++ rest)) more =
      rw (found, beyond) (stream-IsSplit rest more s) in
    let first = unit_of_stream unit rest more u s in
    rw (find_start n (unit ++ rest), here)
      (rw first at (behind (unit ++ rest) more (unit_nonempty unit rest u) further))
  where
    past : (n : ℕ) (ys : List ℕ) → drop (n + 3) (replicate n 0 ++ (0 ∷ 0 ∷ 1 ∷ ys)) ≡ ys
    past zero ys = refl
    past (suc n) ys = let longer : suc n + 3 ≡ suc (n + 3) = omega arith in rw longer (past n ys)

    drop_more : (xs ys : List ℕ) (k : ℕ) → drop (length xs + k) (xs ++ ys) ≡ drop k ys
    drop_more [] ys k = let same : 0 + k ≡ k = omega arith in rw same refl
    drop_more (x ∷ xs) ys k =
        let longer : suc (length xs) + k ≡ suc (length xs + k) = omega arith in
        rw longer (drop_more xs ys k)

-- Take a byte stream of NAL units, each behind any number of zeros and the start code 00 00 01, without a
-- start code in itself and without a zero at its end; each of one of the types 1 to 23, with the forbidden
-- bit 0, and small enough for nalu_buf. The packets that rtp_encoder_encode_h264 sends of it, whole units
-- and fragments, put through rtp_decode_h264 in order, deliver exactly these units, each behind a start
-- code, whatever nalu_buf held before.
pub rtp_decode_h264-rtp_encoder_encode_h264 :
    (encoder : RtpEncoder) (nalu buf : List ℕ) (units : List (List ℕ))
    → IsStream buf units
    → All IsNalu units
    → Delivers nalu (rtp_encoder_encode_h264 encoder buf).packets units
rtp_decode_h264-rtp_encoder_encode_h264 encoder nalu buf units s valid =
    split_stream-Delivers encoder nalu buf units (stream-IsSplit buf units s) valid
