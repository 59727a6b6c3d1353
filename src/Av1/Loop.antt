-- ===== src/Av1/Loop.antt =====
-- The loop of av1_depay_packet over what one round of rtp_encoder_encode_av1 put into a packet.
use libpeer.Base.{
  ℕ, zero, suc, ◌+◌, ◌-◌, ◌^◌, ◌≤◌, ◌<◌, ◌≡◌, refl, ap, sym, ◌∙◌, Bool, true, false, List, [], ◌∷◌,
  ◌++◌, none, some, arith, if◌then◌else◌, length, length-append, length-take, length-drop, take,
  drop, append-nil, append_assoc, take-append_exact, drop-append_exact, take_all,
}
use libpeer.Leb128.{leb128_size, leb128_write, leb128_read}
use libpeer.Leb128.RoundTrip.{length-leb128_write, leb128_read-write}
use libpeer.Av1.Obu.{Av1ObuElement, has_extension}
use libpeer.Av1.Packetize.{element_len}
use libpeer.Av1.Depay.{Depay, max_tu_size, take_element, element_loop, done, element_length}
use libpeer.Av1.Elements.{
  IsElement, element_bytes, length-element_bytes, low_overhead, close_obu_lem,
}
use libpeer.Av1.Chunks.{chunk_bytes}

read-nil : leb128_read [] ≡ none
unfolding leb128_read
read-nil = refl

-- One round of the loop, for a packet whose elements all carry their length.
element_loop_step :
    (fuel : ℕ) (y : Bool) (d : Depay) (rest : List ℕ) (len n : ℕ) (next : Depay × List ℕ)
    → leb128_read rest ≡ some (len, n)
    → take_element y d len (drop n rest) ≡ some next
    → 0 < fuel
    → element_loop fuel 0 y 0 d rest ≡ element_loop (fuel - 1) 0 y 0 next.0 next.1
unfolding element_loop element_length
element_loop_step zero y d rest len n next e t h = absurd (omega arith)
element_loop_step (suc fuel) y d [] len n next e t h = cc read-nil
element_loop_step (suc fuel) y d (b ∷ rest) len n (d', rest') e t h = ground arith

pub loop_end : (fuel : ℕ) (y : Bool) (d : Depay) → element_loop fuel 0 y 0 d [] ≡ done d
unfolding element_loop
loop_end zero y d = refl
loop_end (suc fuel) y d = refl

-- The bytes of a chunk, split by what the reader does with them.
read_chunk :
    (piece rest : List ℕ)
    → length piece < 2 ^ 56
    → leb128_read ((leb128_write (length piece) ++ piece) ++ rest)
      ≡ some (length piece, leb128_size (length piece))
read_chunk piece rest h = rw (append_assoc) (leb128_read-write (length piece) (piece ++ rest) h)

drop-length :
    (piece rest : List ℕ)
    → drop (leb128_size (length piece)) ((leb128_write (length piece) ++ piece) ++ rest)
      ≡ piece ++ rest
drop-length piece rest = rw (append_assoc) (
    drop-append_exact (leb128_size (length piece)) (leb128_write (length piece)) (piece ++ rest)
      (sym (length-leb128_write (length piece))))

-- An element that ends in this packet.
take_element_close :
    (y : Bool) (d : Depay) (e : Av1ObuElement) (piece rest : List ℕ)
    → IsElement e
    → d.obu ++ piece ≡ element_bytes e
    → length d.tu + length (low_overhead e) ≤ max_tu_size
    → length (element_bytes e) ≤ length (low_overhead e)
    → (rest ≡ [] → y ≡ false)
    → take_element y d (length piece) (piece ++ rest)
      ≡ some (record d { tu = d.tu ++ low_overhead e; obu = [] }, rest)
unfolding take_element
take_element_close y d e piece [] v j h g o = ground (
  arith,
  o refl,
  take-append_exact (length piece) piece [],
  drop-append_exact (length piece) piece [],
  length-append piece [],
  length-append d.obu piece,
  close_obu_lem (record d { obu = d.obu ++ piece }) e v,
)
take_element_close y d e piece (b ∷ rest) v j h g o = ground (
  arith,
  take-append_exact (length piece) piece (b ∷ rest),
  drop-append_exact (length piece) piece (b ∷ rest),
  length-append piece (b ∷ rest),
  length-append d.obu piece,
  close_obu_lem (record d { obu = d.obu ++ piece }) e v,
)

-- The last element of a packet with y set stays open.
take_element_open :
    (d : Depay) (piece : List ℕ)
    → length d.tu + length d.obu + length piece ≤ max_tu_size
    → take_element true d (length piece) piece
      ≡ some (record d { obu = d.obu ++ piece; obu_open = true }, [])
unfolding take_element
take_element_open d piece h = ground (
  arith,
  take_all (length piece) piece,
  drop-append_exact (length piece) piece [],
  append-nil piece,
)

take-add {ℓ} :
    {A : Type ℓ} (m n : ℕ) (xs : List A) → take m xs ++ take n (drop m xs) ≡ take (m + n) xs
take-add zero n xs = let e : 0 + n ≡ n = omega arith in rw e
take-add (suc m) zero [] = let e : suc m + 0 ≡ suc m = omega arith in rw e
take-add (suc m) (suc n) [] = let e : suc m + suc n ≡ suc (m + suc n) = omega arith in rw e
take-add (suc m) n (x ∷ xs) =
    let e : suc m + n ≡ suc (m + n) = omega arith in rw e (ap (λ ys. x ∷ ys) (take-add m n xs))

length-piece :
    (e : Av1ObuElement) (offset chunk : ℕ)
    → IsElement e
    → offset + chunk ≤ element_len e
    → length (take chunk (drop offset (element_bytes e))) ≡ chunk
length-piece e offset chunk v h = omega (
  arith,
  length-take chunk (drop offset (element_bytes e)),
  length-drop offset (element_bytes e),
  length-element_bytes e v,
)

-- Restoring obu_size only adds bytes.
pub length-low_overhead : (e : Av1ObuElement) → length (element_bytes e) ≤ length (low_overhead e)
unfolding low_overhead
length-low_overhead e = ground (
  arith,
  length-append (if has_extension e.hdr0 then e.hdr1 ∷ [] else []) e.payload,
  length-append (if has_extension e.hdr0 then e.hdr1 ∷ [] else [])
      (leb128_write (length e.payload) ++ e.payload),
  length-append (leb128_write (length e.payload)) e.payload,
)

-- One round on a chunk of a known length.
round :
    (fuel : ℕ) (y : Bool) (d : Depay) (piece rest : List ℕ) (chunk : ℕ) (next : Depay × List ℕ)
    → length piece ≡ chunk
    → chunk < 2 ^ 56
    → take_element y d (length piece) (piece ++ rest) ≡ some next
    → 0 < fuel
    → element_loop fuel 0 y 0 d ((leb128_write chunk ++ piece) ++ rest)
      ≡ element_loop (fuel - 1) 0 y 0 next.0 next.1
round fuel y d piece rest chunk next len small took enough =
    let small' : length piece < 2 ^ 56 = omega arith in
    rw (← len) (
      element_loop_step fuel y d ((leb128_write (length piece) ++ piece) ++ rest) (length piece)
        (leb128_size (length piece)) next (read_chunk piece rest small')
        (rw (drop-length piece rest) took) enough)

-- One round on an element that ends in this packet.
pub round_close :
    (fuel : ℕ) (y : Bool) (d : Depay) (e : Av1ObuElement) (offset chunk : ℕ) (rest : List ℕ)
    → IsElement e
    → offset + chunk ≡ element_len e
    → chunk < 2 ^ 56
    → d.obu ≡ take offset (element_bytes e)
    → length d.tu + length (low_overhead e) ≤ max_tu_size
    → (rest ≡ [] → y ≡ false)
    → 0 < fuel
    → element_loop fuel 0 y 0 d (chunk_bytes e offset chunk ++ rest)
      ≡ element_loop (fuel - 1) 0 y 0 (record d { tu = d.tu ++ low_overhead e; obu = [] }) rest
round_close fuel y d e offset chunk rest v h small o room last enough =
    let piece = take chunk (drop offset (element_bytes e)) in
    let whole : d.obu ++ piece ≡ element_bytes e =
      rw (o, take-add offset chunk (element_bytes e))
        (take_all (offset + chunk) (element_bytes e) (omega (arith, length-element_bytes e v))) in
    round fuel y d piece rest chunk (record d { tu = d.tu ++ low_overhead e; obu = [] }, rest)
      (length-piece e offset chunk v (omega arith)) small
      (take_element_close y d e piece rest v whole room (length-low_overhead e) last) enough

-- One round on an element that goes on in the next packet.
pub round_open :
    (fuel : ℕ) (d : Depay) (e : Av1ObuElement) (offset chunk : ℕ)
    → IsElement e
    → offset + chunk < element_len e
    → chunk < 2 ^ 56
    → d.obu ≡ take offset (element_bytes e)
    → length d.tu + length (low_overhead e) ≤ max_tu_size
    → 0 < fuel
    → element_loop fuel 0 true 0 d (chunk_bytes e offset chunk)
      ≡ done (record d { obu = take (offset + chunk) (element_bytes e); obu_open = true })
round_open fuel d e offset chunk v h small o room enough =
    let piece = take chunk (drop offset (element_bytes e)) in
    let len : length piece ≡ chunk = length-piece e offset chunk v (omega arith) in
    let joined : d.obu ++ piece ≡ take (offset + chunk) (element_bytes e) =
      rw o (take-add offset chunk (element_bytes e)) in
    let fits : length d.tu + length d.obu + length piece ≤ max_tu_size = omega (
      arith,
      length-low_overhead e,
      length-element_bytes e v,
      ap (λ (xs : List ℕ). length xs) o,
      length-take offset (element_bytes e),
    ) in
    rw (← append-nil (chunk_bytes e offset chunk)) (
      round fuel true d piece [] chunk (record d { obu = d.obu ++ piece; obu_open = true }, []) len
        small (rw (append-nil piece) (take_element_open d piece fits)) enough
      ∙ rw joined (
          loop_end (fuel - 1) true
            (record d { obu = take (offset + chunk) (element_bytes e); obu_open = true })))
