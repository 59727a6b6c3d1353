-- ===== src/Av1/Elements.antt =====
-- An OBU element as a run of bytes: what av1_element_copy copies out of it, and what
-- av1_depay_close_obu makes of it (src/rtp.c).
use libpeer.Base.{
  ℕ, zero, suc, ◌+◌, ◌-◌, ◌≤◌, ◌<◌, ◌≡◌, refl, false, List, [], ◌∷◌, ◌++◌, some, arith, to_ℕ,
  if◌then◌else◌, length, length-append, take, drop, bit_or, Bool-cases, inl, inr,
}
use libpeer.Leb128.{leb128_write}
use libpeer.Leb128.RoundTrip.{length-leb128_write}
use libpeer.Av1.Obu.{Av1ObuElement, has_extension, has_size_field}
use libpeer.Av1.Packetize.{element_len, element_copy}
use libpeer.Av1.Depay.{Depay, max_tu_size, splice_size, close_nonempty, close_obu}

-- The header bytes behind the first.
abbrev pub extension_bytes : Av1ObuElement → List ℕ
extension_bytes e = if has_extension e.hdr0 then e.hdr1 ∷ [] else []

-- The OBU as it goes on the wire, without an obu_size field.
abbrev pub element_bytes : Av1ObuElement → List ℕ
element_bytes e = e.hdr0 ∷ (extension_bytes e ++ e.payload)

-- The OBU in the low-overhead format, with its obu_size field.
unfoldable pub low_overhead : Av1ObuElement → List ℕ
low_overhead e =
    bit_or e.hdr0 0x02 ∷ (extension_bytes e ++ (leb128_write (length e.payload) ++ e.payload))

-- What av1_parse_temporal_unit stores.
pub record IsElement (e : Av1ObuElement) : Type 0 where
  pub byte : e.hdr0 < 256
  pub no_size : has_size_field e.hdr0 ≡ false
  pub header : e.hdr_size ≡ 1 + to_ℕ (has_extension e.hdr0)
  pub plain : has_extension e.hdr0 ≡ false → e.hdr1 ≡ 0

pub length-element_bytes :
    (e : Av1ObuElement) → IsElement e → length (element_bytes e) ≡ element_len e
length-element_bytes e v = ground (arith, length-append (extension_bytes e) e.payload)

copy_payload :
    (e : Av1ObuElement) (at left : ℕ)
    → e.hdr_size ≤ at
    → element_copy e at left ≡ take left (drop (at - e.hdr_size) e.payload)
unfolding element_copy
copy_payload e at zero h = refl
copy_payload e at (suc left) h = ground arith

-- av1_element_copy is a plain copy out of the element's bytes.
pub element_copy_lem :
    (e : Av1ObuElement) (at left : ℕ)
    → IsElement e
    → element_copy e at left ≡ take left (drop at (element_bytes e))
element_copy_lem e at zero v = unfold element_copy in refl
element_copy_lem e zero (suc zero) v = unfold element_copy in ground arith
element_copy_lem e zero (suc (suc left)) v =
    unfold element_copy in ground (arith, copy_payload e 1 (suc left), copy_payload e 2 left)
element_copy_lem e (suc zero) (suc left) v =
    unfold element_copy in ground (arith, copy_payload e 1 (suc left), copy_payload e 2 left)
element_copy_lem e (suc (suc at)) (suc left) v = elim (Bool-cases (has_extension e.hdr0)) [
  | inl x ↦ rw (copy_payload e (suc (suc at)) (suc left) (ground arith)) (ground arith)
  | inr x ↦ rw (copy_payload e (suc (suc at)) (suc left) (ground arith)) (ground arith)
]

-- Closing a whole element takes it into the temporal unit, with its obu_size field restored.
pub close_obu_lem :
    (d : Depay) (e : Av1ObuElement)
    → IsElement e
    → d.obu ≡ element_bytes e
    → length d.tu + length (low_overhead e) ≤ max_tu_size
    → close_obu d ≡ some (record d { tu = d.tu ++ low_overhead e; obu = [] })
unfolding close_obu close_nonempty splice_size low_overhead
close_obu_lem d e v o h = ground (
  arith,
  length-append (extension_bytes e) e.payload,
  length-append (extension_bytes e) (leb128_write (length e.payload) ++ e.payload),
  length-append (leb128_write (length e.payload)) e.payload,
  length-leb128_write (length e.payload),
)
