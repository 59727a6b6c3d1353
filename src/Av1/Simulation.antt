-- ===== src/Av1/Simulation.antt =====
-- What av1_depay_packet makes of one packet's elements, in step with the packetizer's position.
use libpeer.Base.{
  ℕ, ◌+◌, ◌-◌, ◌≤◌, ◌≡◌, refl, ap, sym, ◌∙◌, true, false, List, [], ◌∷◌, ◌++◌, arith, ltb, length,
  length-append, take, append_assoc, All, ◌⊎◌, inl, inr, Bool-cases, ltb→lt, ltb_false→le,
}
use libpeer.Leb128.RoundTrip.{leb128_size_pos}
use libpeer.Av1.Obu.{Av1ObuElement}
use libpeer.Av1.Packetize.{element_len, Filled, av1_payload_size}
use libpeer.Av1.Depay.{Depay, max_tu_size, element_loop, done}
use libpeer.Av1.Elements.{IsElement, element_bytes, low_overhead}
use libpeer.Av1.Chunks.{
  chunk_bytes, chunk_at, filled, chunk_size_bounds, length-chunk_bytes, IsPosition, IsPosition-zero,
}
use libpeer.Av1.Loop.{round_close, round_open, loop_end}

-- A temporal unit without its delimiter.
abbrev pub all_low_overhead : List Av1ObuElement → List ℕ
all_low_overhead [] = []
all_low_overhead (e ∷ elements) = low_overhead e ++ all_low_overhead elements

-- What the receiver holds of the element that the packetizer is in the middle of.
abbrev pub sent : List Av1ObuElement → ℕ → List ℕ
sent [] offset = []
sent (e ∷ elements) offset = take offset (element_bytes e)

sent-zero : (elements : List Av1ObuElement) → sent elements 0 ≡ []
sent-zero [] = refl
sent-zero (e ∷ elements) = refl

module _ (e : Av1ObuElement) (elements : List Av1ObuElement) (offset used : ℕ) where
  filled_stop :
      ltb (av1_payload_size - used) 3 ≡ true
      → filled (e ∷ elements) offset used
        ≡ record { body = []; elements = e ∷ elements; offset = offset; y = false }
  unfolding filled
  filled_stop h = rw h

  filled_open :
      ltb (av1_payload_size - used) 3 ≡ false
      → ltb (offset + chunk_at e offset used) (element_len e) ≡ true
      → filled (e ∷ elements) offset used ≡ record {
        body = chunk_bytes e offset (chunk_at e offset used);
        elements = e ∷ elements;
        offset = offset + chunk_at e offset used;
        y = true;
      }
  unfolding filled
  filled_open h g = ground arith

  filled_close :
      ltb (av1_payload_size - used) 3 ≡ false
      → ltb (offset + chunk_at e offset used) (element_len e) ≡ false
      → filled (e ∷ elements) offset used ≡ (
          let rest =
            filled elements 0 (used + length (chunk_bytes e offset (chunk_at e offset used))) in
          record rest { body = chunk_bytes e offset (chunk_at e offset used) ++ rest.body })
  unfolding filled
  filled_close h g = ground arith

-- An empty packet is not marked as going on.
filled_last :
    (elements : List Av1ObuElement) (used : ℕ)
    → All IsElement elements
    → used ≤ av1_payload_size
    → (filled elements 0 used).body ≡ []
    → (filled elements 0 used).y ≡ false
unfolding filled
filled_last [] used v h e = refl
filled_last (e ∷ elements) used (v, vs) h none_sent =
    let c = chunk_at e 0 used in
    let bytes = chunk_bytes e 0 c in
    ground (
      arith,
      chunk_size_bounds (element_len e - 0) (av1_payload_size - used),
      length-chunk_bytes e 0 c v,
      leb128_size_pos c,
      length-append bytes (filled elements 0 (used + length bytes)).body,
      ap (λ (xs : List ℕ). length xs) none_sent,
    )

-- The receiver after a packet: it holds the finished elements, and what was sent of the next.
abbrev pub Follows : List Av1ObuElement → ℕ → Depay → Filled → Type 0
Follows elements fuel d f =
    (tu : List ℕ) × (element_loop fuel 0 f.y 0 d f.body
      ≡ done (record d { tu = tu; obu = sent f.elements f.offset; obu_open = f.y }))
    × (tu ++ all_low_overhead f.elements ≡ d.tu ++ all_low_overhead elements)
    × (length d.tu ≤ length tu)

pub filled_depay :
    (elements : List Av1ObuElement) (offset used fuel : ℕ) (d : Depay)
    → All IsElement elements
    → IsPosition elements offset
    → used ≤ av1_payload_size
    → (used ≡ 0) ⊎ (offset ≡ 0)
    → d.obu ≡ sent elements offset
    → d.obu_open ≡ false
    → length d.tu + length (all_low_overhead elements) ≤ max_tu_size
    → length (filled elements offset used).body ≤ fuel
    → Follows elements fuel d (filled elements offset used)
filled_depay [] offset used fuel d v p h z o c room enough =
    unfold filled in (d.tu, ground (arith, loop_end fuel false d), refl, omega arith)
filled_depay (e ∷ elements) offset used fuel d (v, vs) p h z o c room enough =
    elim (Bool-cases (ltb (av1_payload_size - used) 3)) [
      | inl full ↦
          rw (filled_stop e elements offset used full)
            (d.tu, ground (arith, loop_end fuel false d), refl, omega arith)
      | inr free ↦
          let n = chunk_at e offset used in
          let bytes = chunk_bytes e offset n in
          let b =
            chunk_size_bounds (element_len e - offset) (av1_payload_size - used) (omega arith)
              (ltb_false→le _ _ free) (omega arith) in
          let fits : length d.tu + length (low_overhead e) ≤ max_tu_size =
            omega (arith, length-append (low_overhead e) (all_low_overhead elements)) in
          let len = length-chunk_bytes e offset n v (omega arith) in
          let pos = leb128_size_pos n in
          elim (Bool-cases (ltb (offset + n) (element_len e))) [
            | inl more ↦
                let some_sent : length (filled (e ∷ elements) offset used).body ≡ length bytes =
                  rw (filled_open e elements offset used free more) in
                rw (filled_open e elements offset used free more) (
                  d.tu,
                  round_open fuel d e offset n v (ltb→lt _ _ more) (omega arith) o fits
                      (omega arith),
                  refl,
                  omega arith,
                )
            | inr whole ↦
                let used' = used + length bytes in
                let rest = filled elements 0 used' in
                let d' : Depay = record d { tu = d.tu ++ low_overhead e; obu = [] } in
                let total : length (filled (e ∷ elements) offset used).body
                    ≡ length bytes + length rest.body =
                  rw (filled_close e elements offset used free whole)
                    (length-append bytes rest.body) in
                let (tu, runs, same, grows) =
                  filled_depay elements 0 used' (fuel - 1) d' vs (IsPosition-zero elements vs)
                    (omega arith) (inr refl) (sym (sent-zero elements)) c
                    (omega (
                      arith,
                      length-append d.tu (low_overhead e),
                      length-append (low_overhead e) (all_low_overhead elements),
                    ))
                    (omega arith) in
                rw (filled_close e elements offset used free whole) (
                  tu,
                  round_close fuel rest.y d e offset n rest.body v
                        (omega (arith, ltb_false→le _ _ whole)) (omega arith) o fits
                        (filled_last elements used' vs (omega arith)) (omega arith)
                      ∙ runs,
                  same ∙ append_assoc d.tu (low_overhead e) (all_low_overhead elements),
                  omega (arith, length-append d.tu (low_overhead e)),
                )
          ]
    ]
