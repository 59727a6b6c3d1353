-- ===== src/Av1/Found.antt =====
-- Where in the buffer an element comes from that av1_parse_temporal_unit stores (src/rtp.c).
use libpeer.Base.{
  ℕ, suc, ◌+◌, ◌-◌, ◌*◌, ◌/◌, ◌%◌, ◌≤◌, ◌<◌, ◌≡◌, refl, sym, ap, ◌∙◌, false, List, ◌∷◌, ◌++◌, true,
  some, arith, to_ℕ, length, length-drop, take_all, take, drop, get_or, bit_and,
}
use libpeer.Leb128.{leb128_read}
use libpeer.Base.Bits.{table, all_below}
use libpeer.Av1.Obu.{Av1ObuElement, has_extension, has_size_field, obu_sizes, element_of}

pub clear_size : (h : ℕ) → h < 256 → bit_and h 0xfd ≡ h - h / 2 % 2 * 2
unfolding all_below
clear_size = table 256 _ _ refl

-- Where an element comes from: an OBU of the buffer, of which it keeps the first byte without the bit for the
-- size field (bit 1), where the bit for the extension (bit 2) is set, the second, and the payload.
pub record IsFound (buf : List ℕ) (e : Av1ObuElement) : Type 0 where
  pub before : List ℕ
  pub hdr : ℕ
  pub behind : List ℕ
  pub place : buf ≡ before ++ (hdr ∷ behind)
  pub first : e.hdr0 ≡ hdr - hdr / 2 % 2 * 2
  pub extension : hdr / 4 % 2 ≡ 1 → (e.hdr_size ≡ 2) × (e.hdr1 ≡ get_or behind 0 0)
  pub no_extension : hdr / 4 % 2 ≡ 0 → (e.hdr_size ≡ 1) × (e.hdr1 ≡ 0)
  pub to_the_end : hdr / 2 % 2 ≡ 0 → e.payload ≡ drop (e.hdr_size - 1) behind
  pub sized :
      hdr / 2 % 2 ≡ 1
      → (size bytes : ℕ) × (leb128_read (drop (e.hdr_size - 1) behind) ≡ some (size, bytes))
        × (e.payload ≡ take size (drop (e.hdr_size - 1 + bytes) behind))

-- What the sizes of an OBU come from.
module _ (hdr hdr_size payload_size len_size consumed : ℕ) (rest : List ℕ)
    (e : obu_sizes hdr hdr_size rest ≡ some (payload_size, len_size, consumed)) where
  sizes_plain :
      has_size_field hdr ≡ false → (payload_size ≡ length rest - hdr_size) × (len_size ≡ 0)
  unfolding obu_sizes
  sizes_plain h = ground (arith, e, h)

  sizes_read :
      has_size_field hdr ≡ true → leb128_read (drop hdr_size rest) ≡ some (payload_size, len_size)
  unfolding obu_sizes
  sizes_read h = ground (arith, e, h)

module _ (hdr hdr_size payload_size len_size : ℕ) (behind : List ℕ) (n : ℕ)
    (one_more : hdr_size ≡ suc n) where
  payload_rest :
      payload_size ≡ length (hdr ∷ behind) - hdr_size
      → len_size ≡ 0
      → take payload_size (drop (hdr_size + len_size) (hdr ∷ behind)) ≡ drop (hdr_size - 1) behind
  payload_rest e1 e2 =
      let same : hdr_size + len_size ≡ suc n = omega (arith, e2, one_more) in
      let back : hdr_size - 1 ≡ n = omega (arith, one_more) in
      let whole : length (drop n behind) ≤ payload_size =
        omega (arith, e1, one_more, length-drop n behind) in
      rw (same, back) (take_all payload_size (drop n behind) whole)

  payload_sized :
      take payload_size (drop (hdr_size + len_size) (hdr ∷ behind))
      ≡ take payload_size (drop (hdr_size - 1 + len_size) behind)
  payload_sized =
      let same : hdr_size + len_size ≡ suc (n + len_size) = omega (arith, one_more) in
      let back : hdr_size - 1 + len_size ≡ n + len_size = omega (arith, one_more) in
      rw (same, back) refl

  size_behind : drop hdr_size (hdr ∷ behind) ≡ drop (hdr_size - 1) behind
  size_behind = let back : hdr_size - 1 ≡ n = omega (arith, one_more) in rw (back, one_more) refl

pub element_of-IsFound :
    (buf before : List ℕ) (hdr len_size payload_size consumed : ℕ) (behind : List ℕ)
    → hdr < 256
    → buf ≡ before ++ (hdr ∷ behind)
    → obu_sizes hdr (1 + to_ℕ (has_extension hdr)) (hdr ∷ behind)
      ≡ some (payload_size, len_size, consumed)
    → IsFound buf
        (element_of hdr (1 + to_ℕ (has_extension hdr)) len_size payload_size (hdr ∷ behind))
unfolding element_of has_extension has_size_field
element_of-IsFound buf before hdr len_size payload_size consumed behind lt e sizes =
    let n = to_ℕ (has_extension hdr) in
    let hdr_size = 1 + n in
    let one_more : hdr_size ≡ suc n = omega arith in
    record {
      before = before;
      hdr = hdr;
      behind = behind;
      place = e;
      first = omega (arith, clear_size hdr lt);
      extension = λ h. ground (arith, h);
      no_extension = λ h. ground (arith, h);
      to_the_end = λ h.
          let (e1, e2) =
            sizes_plain hdr hdr_size payload_size len_size consumed (hdr ∷ behind) sizes
              (ground (arith, h)) in
          payload_rest hdr hdr_size payload_size len_size behind n one_more e1 e2;
      sized = λ h. (
        payload_size,
        len_size,
        ap leb128_read (sym (size_behind hdr hdr_size payload_size len_size behind n one_more))
            ∙ sizes_read hdr hdr_size payload_size len_size consumed (hdr ∷ behind) sizes
                (ground (arith, h)),
        payload_sized hdr hdr_size payload_size len_size behind n one_more,
      );
    }
