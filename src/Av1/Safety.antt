-- ===== src/Av1/Safety.antt =====
-- av1_depay_packet on arbitrary bytes from the network (src/rtp.c): its buffer is never overrun, and it
-- returns.
use libpeer.Base.{
  ℕ, zero, suc, ◌+◌, ◌-◌, ◌*◌, ◌/◌, ◌%◌, ◌^◌, ◌≤◌, ◌<◌, ◌≡◌, ◌≢◌, refl, ap, Bool, true, false, not,
  ◌&&◌, List, [], ◌∷◌, ◌++◌, none, some, arith, leb, ◌==◌, to_ℕ, if◌then◌else◌, length,
  length-append, length-drop, length-take, All, inl, inr, take, drop, get_or, bit_and, bit_or,
  Option-cases,
}
use libpeer.Leb128.{leb128_write, leb128_read, leb128_read_loop}
use libpeer.Leb128.RoundTrip.{length-leb128_write}
use libpeer.Rtp.Header.{markerbit, seq_number}
use libpeer.Av1.Obu.{has_extension}
use libpeer.Av1.Depay.{
  Depay, max_tu_size, depay_reset, splice_size, close_nonempty, close_obu, element_length,
  take_element, Looped, done, corrupt, out_of_fuel, element_loop, Outcome, stuck, size, minus_one,
  give_up, finish_packet, depay_elements, depay_payload, track_sequence, rtp_header_size,
  unpadded_size, depay_sized, depay_start, av1_depay_packet,
}

-- What is stored lies inside `buf`.
abbrev pub Fits : Depay → Type 0
Fits d = length d.tu + length d.obu ≤ max_tu_size

splice_size-Fits :
    (d d' : Depay) (hdr : ℕ) (tail : List ℕ) (hdr_size : ℕ)
    → length d.obu ≡ suc (length tail)
    → 1 ≤ hdr_size
    → hdr_size ≤ length d.obu
    → splice_size d hdr tail hdr_size ≡ some d'
    → Fits d'
unfolding splice_size
splice_size-Fits d d' hdr tail hdr_size full low high h =
    let n = length d.obu - hdr_size in
    let front = take (hdr_size - 1) tail in
    let behind = leb128_write n ++ drop (hdr_size - 1) tail in
    ground (
      arith,
      length-append d.tu (bit_or hdr 0x02 ∷ (front ++ behind)),
      length-append front behind,
      length-append (leb128_write n) (drop (hdr_size - 1) tail),
      length-leb128_write n,
      length-take (hdr_size - 1) tail,
      length-drop (hdr_size - 1) tail,
    )

close_nonempty-Fits :
    (d d' : Depay) (hdr : ℕ) (tail : List ℕ)
    → Fits d
    → d.obu ≡ hdr ∷ tail
    → close_nonempty d hdr tail ≡ some d'
    → Fits d'
unfolding close_nonempty
close_nonempty-Fits d d' hdr tail fits full h = ground (
  arith,
  ap (λ (xs : List ℕ). length xs) full,
  length-append d.tu d.obu,
  splice_size-Fits d d' hdr tail (1 + to_ℕ (has_extension hdr)),
)

close_list-Fits :
    (d d' : Depay) (obu : List ℕ)
    → Fits d
    → d.obu ≡ obu
    → (elim obu [ [] ↦ some d | hdr ∷ tail ↦ close_nonempty d hdr tail ]) ≡ some d'
    → Fits d'
close_list-Fits d d' [] fits e h = ground arith
close_list-Fits d d' (hdr ∷ tail) fits e h = close_nonempty-Fits d d' hdr tail fits e h

-- av1_depay_close_obu keeps what is stored inside the buffer.
close_obu-Fits : (d d' : Depay) → Fits d → close_obu d ≡ some d' → Fits d'
unfolding close_obu
close_obu-Fits d d' fits h = close_list-Fits d d' d.obu fits refl h

take_element-Fits :
    (y : Bool) (d d' : Depay) (len : ℕ) (rest rest' : List ℕ)
    → take_element y d len rest ≡ some (d', rest')
    → Fits d' × (rest' ≡ drop len rest)
unfolding take_element
take_element-Fits y d d' len rest rest' h =
    let joined : Depay = record d { obu = d.obu ++ take len rest } in
    grind (arith, length-append d.obu (take len rest), length-take len rest, close_obu-Fits joined)

read_loop_pos :
    (rounds i v : ℕ) (buf : List ℕ) (value bytes : ℕ)
    → leb128_read_loop rounds i v buf ≡ some (value, bytes)
    → i < bytes
unfolding leb128_read_loop
read_loop_pos zero i v buf value bytes e = cc
read_loop_pos (suc rounds) i v [] value bytes e = cc
read_loop_pos (suc rounds) i v (b ∷ buf) value bytes e =
    ground (
      arith,
      read_loop_pos rounds (i + 1) (bit_or v (bit_and b 0x7f * 2 ^ (i * 7))) buf value bytes,
    )

read_pos : (buf : List ℕ) (value bytes : ℕ) → leb128_read buf ≡ some (value, bytes) → 0 < bytes
unfolding leb128_read
read_pos buf value bytes e = read_loop_pos 8 0 0 buf value bytes e

-- A length field takes a byte, or the element takes all that is left.
element_length_pos :
    (w element : ℕ) (rest : List ℕ) (len len_bytes : ℕ)
    → element_length w element rest ≡ some (len, len_bytes)
    → 0 < length rest
    → 0 < len + len_bytes
unfolding element_length
element_length_pos w element rest len len_bytes e h = ground (arith, read_pos rest len len_bytes)

-- The loop over the elements ends, and leaves the buffer intact unless it gives up.
abbrev LoopFits : Looped → Type 0
LoopFits (done d) = Fits d
LoopFits corrupt = Unit {0}
LoopFits out_of_fuel = ⊥

module _ (fuel w : ℕ) (y : Bool) (element : ℕ) (d : Depay) (b : ℕ) (rest : List ℕ) where
  abbrev at_element : ℕ
  at_element = if w == 0 then element else element + 1

  loop_malformed :
      element_length w at_element (b ∷ rest) ≡ none
      → element_loop (suc fuel) w y element d (b ∷ rest) ≡ corrupt
  unfolding element_loop
  loop_malformed h = ground arith

  loop_refused :
      (len len_bytes : ℕ)
      → element_length w at_element (b ∷ rest) ≡ some (len, len_bytes)
      → take_element y d len (drop len_bytes (b ∷ rest)) ≡ none
      → element_loop (suc fuel) w y element d (b ∷ rest) ≡ corrupt
  unfolding element_loop
  loop_refused len len_bytes h g = ground arith

  loop_taken :
      (len len_bytes : ℕ) (d' : Depay) (rest' : List ℕ)
      → element_length w at_element (b ∷ rest) ≡ some (len, len_bytes)
      → take_element y d len (drop len_bytes (b ∷ rest)) ≡ some (d', rest')
      → element_loop (suc fuel) w y element d (b ∷ rest) ≡ element_loop fuel w y at_element d' rest'
  unfolding element_loop
  loop_taken len len_bytes d' rest' h g = ground arith

loop_nil :
    (fuel w : ℕ) (y : Bool) (element : ℕ) (d : Depay) → element_loop fuel w y element d [] ≡ done d
unfolding element_loop
loop_nil zero w y element d = refl
loop_nil (suc fuel) w y element d = refl

element_loop-LoopFits :
    (fuel w : ℕ) (y : Bool) (element : ℕ) (d : Depay) (rest : List ℕ)
    → Fits d
    → length rest ≤ fuel
    → LoopFits (element_loop fuel w y element d rest)
element_loop-LoopFits fuel w y element d [] fits h = rw (loop_nil fuel w y element d) fits
element_loop-LoopFits zero w y element d (b ∷ rest) fits h = absurd (omega arith)
element_loop-LoopFits (suc fuel) w y element d (b ∷ rest) fits h =
    let next = if w == 0 then element else element + 1 in
    elim (Option-cases (element_length w next (b ∷ rest))) [
      | inl e ↦ rw (loop_malformed fuel w y element d b rest e) tt
      | inr ((len, len_bytes), e) ↦
          elim (Option-cases (take_element y d len (drop len_bytes (b ∷ rest)))) [
            | inl t ↦ rw (loop_refused fuel w y element d b rest len len_bytes e t) tt
            | inr ((d', rest'), t) ↦
                let (fits', cut) =
                  take_element-Fits y d d' len (drop len_bytes (b ∷ rest)) rest' t in
                rw (loop_taken fuel w y element d b rest len len_bytes d' rest' e t) (
                  element_loop-LoopFits fuel w y next d' rest' fits' (
                    omega (
                      arith,
                      ap (λ (xs : List ℕ). length xs) cut,
                      length-drop len (drop len_bytes (b ∷ rest)),
                      length-drop len_bytes (b ∷ rest),
                      element_length_pos w next (b ∷ rest) len len_bytes e,
                    )))
          ]
    ]

-- What holds after a packet: the buffer is intact, what is delivered fits it, and the call returned.
pub record IsSafe (o : Outcome) : Type 0 where
  pub intact : Fits o.depay
  pub delivered : All (λ (unit : List ℕ). length unit ≤ max_tu_size) o.units
  pub returns : o.returned ≢ stuck

reset-Fits : (d : Depay) → Fits (depay_reset d)
unfolding depay_reset
reset-Fits d = omega arith

finish_packet-IsSafe :
    (marker total : ℕ) (d : Depay) → Fits d → IsSafe (finish_packet marker total d)
unfolding finish_packet give_up depay_reset
finish_packet-IsSafe marker total d fits = ground arith

depay_elements-IsSafe :
    (marker total aggr : ℕ) (payload : List ℕ) (d : Depay)
    → Fits d
    → IsSafe (depay_elements marker total aggr payload d)
depay_elements-IsSafe marker total aggr payload d fits =
    unfold depay_elements in
    after_loop _ (
      element_loop-LoopFits (length payload) (aggr / 2 ^ 4 % 4) (aggr / 2 ^ 6 % 2 == 1) 0
        (record d { obu_open = false }) payload fits (omega arith))
  where
    after_loop :
        (l : Looped)
        → LoopFits l
        → IsSafe (elim l [
          | done d' ↦ finish_packet marker total d'
          | corrupt ↦ give_up d
          | out_of_fuel ↦ record { depay = d; units = []; returned = stuck }
        ])
    after_loop (done d') h = finish_packet-IsSafe marker total d' h
    after_loop corrupt h = unfold give_up depay_reset in ground arith
    after_loop out_of_fuel h = absurd h

-- Both branches of a test.
if-IsSafe : (b : Bool) (o o' : Outcome) → IsSafe o → IsSafe o' → IsSafe (if b then o else o')
if-IsSafe true o o' s s' = s
if-IsSafe false o o' s s' = s'

if-Fits : (b : Bool) (d d' : Depay) → Fits d → Fits d' → Fits (if b then d else d')
if-Fits true d d' f f' = f
if-Fits false d d' f f' = f'

-- A packet without anything to deliver.
idle-IsSafe :
    (d : Depay) (total : ℕ)
    → Fits d
    → IsSafe (record { depay = d; units = []; returned = size total })
idle-IsSafe d total fits = ground arith

depay_payload-IsSafe :
    (marker total aggr : ℕ) (payload : List ℕ) (d : Depay)
    → Fits d
    → IsSafe (depay_payload marker total aggr payload d)
unfolding depay_payload
depay_payload-IsSafe marker total aggr payload d fits =
    let resumed = if d.dropping then depay_reset (record d { dropping = false }) else d in
    let fits' : Fits resumed =
      if-Fits d.dropping _ d (reset-Fits (record d { dropping = false })) fits in
    if-IsSafe (d.dropping && aggr / 2 ^ 3 % 2 == 0) _ _ (idle-IsSafe d total fits) (
      if-IsSafe (aggr / 2 ^ 7 % 2 == to_ℕ resumed.obu_open) _ _
        (depay_elements-IsSafe marker total aggr payload resumed fits')
        (idle-IsSafe (record (depay_reset resumed) { dropping = true }) total (reset-Fits resumed)))

track_sequence-Fits : (d : Depay) (seq : ℕ) → Fits d → Fits (track_sequence d seq)
unfolding track_sequence
track_sequence-Fits d seq fits =
    if-Fits (d.have_seq && not (seq == d.next_seq)) (record (depay_reset d) { dropping = true }) d
      (reset-Fits d) fits

depay_sized-IsSafe :
    (d : Depay) (buf : List ℕ) (hdr_size total : ℕ)
    → Fits d
    → IsSafe (depay_sized d buf hdr_size total)
unfolding depay_sized
depay_sized-IsSafe d buf hdr_size total fits =
    let fits' = track_sequence-Fits d (seq_number buf) fits in
    if-IsSafe (leb total (hdr_size + 1)) _ _ (idle-IsSafe _ total fits')
      (depay_payload-IsSafe (markerbit buf) total (get_or buf hdr_size 0) _ _ fits')

depay_start-Fits : (d : Depay) → Fits d → Fits (depay_start d)
unfolding depay_start
depay_start-Fits d fits =
    if-Fits d.started d (record (depay_reset d) { started = true; dropping = true }) fits
      (reset-Fits d)

refused-IsSafe :
    (d : Depay) → Fits d → IsSafe (record { depay = d; units = []; returned = minus_one })
refused-IsSafe d fits = ground arith

-- Whatever packet arrives in a state that fits the buffer, av1_depay_packet returns, leaves a state
-- that fits the buffer, and delivers no temporal unit longer than the buffer.
pub av1_depay_packet-IsSafe : (d : Depay) (buf : List ℕ) → Fits d → IsSafe (av1_depay_packet d buf)
unfolding av1_depay_packet
av1_depay_packet-IsSafe d buf fits =
    let fits' = depay_start-Fits d fits in
    elim (rtp_header_size buf)
      as (λ o. IsSafe (elim o [
        | none ↦ record { depay = depay_start d; units = []; returned = minus_one }
        | some hdr_size ↦ elim (unpadded_size buf hdr_size) [
          | none ↦ record { depay = depay_start d; units = []; returned = minus_one }
          | some total ↦ depay_sized (depay_start d) buf hdr_size total
        ]
      ])) [
        | none ↦ refused-IsSafe _ fits'
        | some hdr_size ↦
            elim (unpadded_size buf hdr_size)
              as (λ o. IsSafe (elim o [
                | none ↦ record { depay = depay_start d; units = []; returned = minus_one }
                | some total ↦ depay_sized (depay_start d) buf hdr_size total
              ])) [
                | none ↦ refused-IsSafe _ fits'
                | some total ↦ depay_sized-IsSafe _ buf hdr_size total fits'
              ]
      ]
