-- ===== src/Av1/Chunks.antt =====
-- The inner loop of rtp_encoder_encode_av1, split into what it appends and what it leaves (src/rtp.c).
use libpeer.Base.{
  ℕ, ◌+◌, ◌-◌, ◌≤◌, ◌<◌, ◌≡◌, refl, true, false, List, [], ◌∷◌, ◌++◌, arith, ltb, if◌then◌else◌,
  length, length-append, length-take, length-drop, take, drop, append-nil, append_assoc, All, ◌⊎◌,
}
use libpeer.Leb128.{leb128_size, leb128_write}
use libpeer.Leb128.RoundTrip.{length-leb128_write, leb128_size_small, leb128_size_pos}
use libpeer.Av1.Obu.{Av1ObuElement}
use libpeer.Av1.Packetize.{element_len, chunk_size, fill, Filled, av1_payload_size, total_len}
use libpeer.Av1.Elements.{IsElement, element_bytes, length-element_bytes, element_copy_lem}

-- One element's contribution: its length field and its bytes.
abbrev pub chunk_bytes : Av1ObuElement → ℕ → ℕ → List ℕ
chunk_bytes e offset chunk = leb128_write chunk ++ take chunk (drop offset (element_bytes e))

abbrev pub chunk_at : Av1ObuElement → ℕ → ℕ → ℕ
chunk_at e offset used = chunk_size (element_len e - offset) (av1_payload_size - used)

-- `fill` on a body of `used` bytes, with what it appends in the place of the body.
unfoldable pub filled : List Av1ObuElement → ℕ → ℕ → Filled
filled [] offset used = record { body = []; elements = []; offset = offset; y = false }
filled (e ∷ elements) offset used =
    let chunk = chunk_at e offset used in
    let bytes = chunk_bytes e offset chunk in
    let rest = filled elements 0 (used + length bytes) in
    if ltb (av1_payload_size - used) 3
    then record { body = []; elements = e ∷ elements; offset = offset; y = false }
    else if ltb (offset + chunk) (element_len e)
    then record { body = bytes; elements = e ∷ elements; offset = offset + chunk; y = true }
    else record rest { body = bytes ++ rest.body }

abbrev pub prepend : List ℕ → Filled → Filled
prepend body f = record f { body = body ++ f.body }

pub fill-filled :
    (elements : List Av1ObuElement) (offset : ℕ) (body : List ℕ)
    → All IsElement elements
    → fill elements offset body ≡ prepend body (filled elements offset (length body))
unfolding fill filled
fill-filled [] offset body v = ground (arith, append-nil body)
fill-filled (e ∷ elements) offset body (v, vs) =
    let chunk = chunk_at e offset (length body) in
    let bytes = chunk_bytes e offset chunk in
    ground (
      arith,
      append-nil body,
      element_copy_lem e offset chunk v,
      length-append body bytes,
      append_assoc body bytes (filled elements 0 (length body + length bytes)).body,
      fill-filled elements 0 (body ++ bytes) vs,
    )

-- The packet starts empty.
pub fill_empty :
    (elements : List Av1ObuElement) (offset : ℕ)
    → All IsElement elements
    → fill elements offset [] ≡ filled elements offset 0
fill_empty elements offset v = fill-filled elements offset [] v

-- A chunk has a byte or more, is no longer than what remains, and fits the room with its length field.
pub chunk_size_bounds :
    (remaining room : ℕ)
    → 0 < remaining
    → 3 ≤ room
    → room ≤ av1_payload_size
    → (1 ≤ chunk_size remaining room)
      × (chunk_size remaining room ≤ remaining)
      × (leb128_size (chunk_size remaining room) + chunk_size remaining room ≤ room)
unfolding chunk_size
chunk_size_bounds remaining room pos lo hi = ground (
  arith,
  leb128_size_pos remaining,
  leb128_size_small remaining,
  leb128_size_small (room - 2) (omega arith),
)

pub length-chunk_bytes :
    (e : Av1ObuElement) (offset chunk : ℕ)
    → IsElement e
    → offset + chunk ≤ element_len e
    → length (chunk_bytes e offset chunk) ≡ leb128_size chunk + chunk
length-chunk_bytes e offset chunk v h = omega (
  arith,
  length-append (leb128_write chunk) (take chunk (drop offset (element_bytes e))),
  length-leb128_write chunk,
  length-take chunk (drop offset (element_bytes e)),
  length-drop offset (element_bytes e),
  length-element_bytes e v,
)

-- The position between two rounds: inside the first element, or at its start.
abbrev pub IsPosition : List Av1ObuElement → ℕ → Type 0
IsPosition [] offset = offset ≡ 0
IsPosition (e ∷ elements) offset = offset < element_len e

pub element_len_pos : (e : Av1ObuElement) → IsElement e → 0 < element_len e
element_len_pos e v = omega (arith, v.header)

pub IsPosition-zero :
    (elements : List Av1ObuElement) → All IsElement elements → IsPosition elements 0
IsPosition-zero [] v = refl
IsPosition-zero (e ∷ elements) (v, vs) = element_len_pos e v

-- A packet never outgrows its payload, the position stays well formed, and y says whether the last
-- element goes on.
pub filled_bounds :
    (elements : List Av1ObuElement) (offset used : ℕ)
    → All IsElement elements
    → IsPosition elements offset
    → used ≤ av1_payload_size
    → (used ≡ 0) ⊎ (offset ≡ 0)
    → let f = filled elements offset used in
      (used + length f.body ≤ av1_payload_size)
      × All IsElement f.elements
      × IsPosition f.elements f.offset
      × (f.y ≡ ltb 0 f.offset)
unfolding filled
filled_bounds [] offset used v p h z = ground arith
filled_bounds (e ∷ elements) offset used (v, vs) p h z =
    let chunk = chunk_at e offset used in
    let bytes = chunk_bytes e offset chunk in
    ground (
      arith,
      chunk_size_bounds (element_len e - offset) (av1_payload_size - used),
      length-chunk_bytes e offset chunk v,
      length-append bytes (filled elements 0 (used + length bytes)).body,
      filled_bounds elements 0 (used + length bytes) vs (IsPosition-zero elements vs),
    )

-- What of the elements is still to be sent.
unfoldable pub left_over : List Av1ObuElement → ℕ → ℕ
left_over elements offset = total_len elements - offset

filled_total :
    (elements : List Av1ObuElement) (used : ℕ)
    → All IsElement elements
    → used ≤ av1_payload_size
    → let f = filled elements 0 used in total_len f.elements - f.offset ≤ total_len elements
unfolding filled total_len
filled_total [] used v h = omega arith
filled_total (e ∷ elements) used (v, vs) h =
    let chunk = chunk_at e 0 used in
    let bytes = chunk_bytes e 0 chunk in
    ground (
      arith,
      element_len_pos e v,
      chunk_size_bounds (element_len e - 0) (av1_payload_size - used),
      length-chunk_bytes e 0 chunk v,
      filled_total elements (used + length bytes) vs,
    )

-- Each packet sends a byte or more.
pub filled_progress :
    (e : Av1ObuElement) (elements : List Av1ObuElement) (offset : ℕ)
    → All IsElement (e ∷ elements)
    → offset < element_len e
    → let f = filled (e ∷ elements) offset 0 in
      left_over f.elements f.offset < left_over (e ∷ elements) offset
unfolding filled left_over total_len
filled_progress e elements offset (v, vs) p =
    let chunk = chunk_at e offset 0 in
    let bytes = chunk_bytes e offset chunk in
    ground (
      arith,
      chunk_size_bounds (element_len e - offset) (av1_payload_size - 0),
      length-chunk_bytes e offset chunk v,
      filled_total elements (0 + length bytes) vs,
    )

-- A packet does not stay empty.
pub filled_sends :
    (e : Av1ObuElement) (elements : List Av1ObuElement) (offset : ℕ)
    → All IsElement (e ∷ elements)
    → offset < element_len e
    → 0 < length (filled (e ∷ elements) offset 0).body
unfolding filled
filled_sends e elements offset (v, vs) p =
    let chunk = chunk_at e offset 0 in
    let bytes = chunk_bytes e offset chunk in
    ground (
      arith,
      chunk_size_bounds (element_len e - offset) (av1_payload_size - 0),
      length-chunk_bytes e offset chunk v,
      length-append bytes (filled elements 0 (0 + length bytes)).body,
    )
