-- ===== src/Stun/Append.antt =====
-- What stun_msg_write_attr and stun_msg_finish add to a message (src/stun.c).
use libpeer.Base.{
  ℕ, ◌+◌, ◌-◌, ◌^◌, ◌≤◌, ◌<◌, ◌≡◌, refl, ap, some, List, [], ◌∷◌, ◌++◌, length, length-append,
  arith,
}
use libpeer.Base.Word.{be16, u16}
use libpeer.Base.Memory.{store, load}
use libpeer.Stun.Message.{StunMessage, stun_header, header_length, set_header_length}
use libpeer.Stun.Fingerprint.{stun_calculate_fingerprint}
use libpeer.Stun.Write.{
  padded, append_attr, attr_message_integrity, attr_fingerprint, append_integrity,
  append_fingerprint,
}
use libpeer.Stun.Written.{
  Attr, attr_bytes, attrs_bytes, IsAttr, IsWritten, length-attr_bytes, attrs_bytes-append,
  header_length_lem, set_header_length_lem, split_tail, store_attr,
}

pub padded_bounds : (n : ℕ) → (n ≤ padded n) × (padded n ≤ n + 3)
unfolding padded
padded_bounds n = omega arith

pub length-attrs_snoc :
    (attrs : List Attr) (a : Attr)
    → IsAttr a
    → length (attrs_bytes (attrs ++ (a ∷ [])))
      ≡ length (attrs_bytes attrs) + padded (length a.value) + 4
unfolding attrs_bytes
length-attrs_snoc attrs a v = omega (
  arith,
  ap (λ (xs : List ℕ). length xs) (attrs_bytes-append attrs (a ∷ [])),
  length-append (attrs_bytes attrs) (attrs_bytes (a ∷ [])),
  length-append (attr_bytes a) [],
  length-attr_bytes a v,
)

-- What an attribute takes.
abbrev pub room : List ℕ → ℕ
room value = padded (length value) + 4

-- How an attribute gets its bytes, in front of what is left of the tail.
module _ (buf : List ℕ) (size type : ℕ) (id : List ℕ) (attrs : List Attr) (tail : List ℕ) (ty : ℕ)
    (value : List ℕ) (w : IsWritten buf size type id attrs tail) (ty_fits : ty < 2 ^ 16)
    (fits : room value ≤ length tail) where
  abbrev attrs' : Attr → List Attr
  attrs' a = attrs ++ (a ∷ [])

  -- The header of the stored message counts `count` bytes yet.
  pub place_attr :
      (a : Attr) × (rest : List ℕ) × (a.type ≡ ty)
      × (a.value ≡ value)
      × IsAttr a
      × (length rest + room value ≡ length tail)
      × ((count : ℕ)
          → store
              (stun_header type count id ++ (attrs_bytes attrs ++ tail))
              size
              (be16 ty ++ (be16 (length value) ++ value))
            ≡ some (stun_header type count id ++ (attrs_bytes (attrs' a) ++ rest)))
  place_attr =
      let (over, pad, rest, split, lo, lp) =
        split_tail (4 + length value) (padded (length value) - length value) tail
          (omega (arith, padded_bounds (length value))) in
      let a : Attr = record { type = ty; value = value; pad = pad } in
      (
        a,
        rest,
        refl,
        refl,
        record {
          type_fits = ty_fits;
          small = omega (arith, padded_bounds (length value), w.whole);
          aligned = omega (arith, padded_bounds (length value));
        },
        omega (
          arith,
          ap (λ (xs : List ℕ). length xs) split,
          length-append over (pad ++ rest),
          length-append pad rest,
          padded_bounds (length value),
        ),
        λ count. rw (split, w.counted) (store_attr type count id attrs a over rest w.named lo),
      )

-- The message written as `buf` and `size`, with the attribute `a` behind the others.
abbrev Grown :
    StunMessage → ℕ → List ℕ → List Attr → ℕ → List ℕ → (Attr → List ℕ → List ℕ → Type 0) → Type 0
Grown msg type id attrs ty value Writes =
    (a : Attr) × (rest : List ℕ) × (buf' : List ℕ) × (a.type ≡ ty)
    × (a.value ≡ value)
    × IsAttr a
    × IsWritten buf' (msg.size + room value) type id (attrs ++ (a ∷ [])) rest
    × Writes a rest buf'

append_by :
    (msg : StunMessage) (ty : ℕ) (value buf' buf'' : List ℕ) (count : ℕ)
    → store msg.buf msg.size (be16 ty ++ (be16 (length value) ++ value)) ≡ some buf'
    → header_length buf' ≡ count
    → count + room value < 2 ^ 16
    → set_header_length buf' (count + room value) ≡ buf''
    → append_attr msg ty (length value) value
      ≡ some (record msg { buf = buf''; size = msg.size + room value })
unfolding append_attr
append_by msg ty value buf' buf'' count stored counts fits recounted =
    let small : u16 (padded (length value)) ≡ padded (length value) = omega arith in
    let total : u16 (count + 4 + padded (length value)) ≡ count + room value = omega arith in
    let size : msg.size + padded (length value) + 4 ≡ msg.size + room value = omega arith in
    rw (stored, small, counts, total, recounted, size) refl

module _ (msg : StunMessage) (type : ℕ) (id : List ℕ) (attrs : List Attr) (tail : List ℕ)
    (w : IsWritten msg.buf msg.size type id attrs tail) where
  abbrev count : ℕ
  count = length (attrs_bytes attrs)

  -- The header when it counts the attribute.
  pub recount-IsWritten :
      (a : Attr) (rest value : List ℕ)
      → a.value ≡ value
      → IsAttr a
      → length rest + room value ≡ length tail
      → IsWritten
          (stun_header type (count + room value) id ++ (attrs_bytes (attrs ++ (a ∷ [])) ++ rest))
          (msg.size + room value)
          type
          id
          (attrs ++ (a ∷ []))
          rest
  recount-IsWritten a rest value e v fits =
      let longer : length (attrs_bytes (attrs ++ (a ∷ []))) ≡ count + room value =
        omega (arith, length-attrs_snoc attrs a v, ap (λ (xs : List ℕ). padded (length xs)) e) in
      record {
        layout = rw longer refl;
        counted = omega (arith, longer, w.counted);
        whole = omega (arith, w.whole);
        named = w.named;
      }

  -- An attribute of `len` bytes, which takes `taken` with its header and its padding.
  pub placed :
      (ty : ℕ) (value : List ℕ) (len taken : ℕ)
      → ty < 2 ^ 16
      → length value ≡ len
      → padded len + 4 ≡ taken
      → taken ≤ length tail
      → (a : Attr) × (rest : List ℕ) × (a.type ≡ ty)
        × (a.value ≡ value)
        × IsAttr a
        × (length rest + taken ≡ length tail)
        × IsWritten
            (stun_header type (count + taken) id ++ (attrs_bytes (attrs ++ (a ∷ [])) ++ rest))
            (msg.size + taken)
            type
            id
            (attrs ++ (a ∷ []))
            rest
        × ((count' : ℕ)
            → store
                (stun_header type count' id ++ (attrs_bytes attrs ++ tail))
                msg.size
                (be16 ty ++ (be16 len ++ value))
              ≡ some (stun_header type count' id ++ (attrs_bytes (attrs ++ (a ∷ [])) ++ rest)))
  placed ty value len taken ty_fits sized total fits =
      rw (← total, ← sized)
        (let (a, rest, same_type, same_value, v, used, stores) =
            place_attr msg.buf msg.size type id attrs tail ty value w ty_fits
              (omega (arith, total, ap padded sized)) in
          (
            a,
            rest,
            same_type,
            same_value,
            v,
            used,
            recount-IsWritten a rest value same_value v used,
            stores,
          ))

  pub append_attr-IsWritten :
      (ty : ℕ) (value : List ℕ)
      → ty < 2 ^ 16
      → room value ≤ length tail
      → Grown msg type id attrs ty value (λ a rest buf'.
        append_attr msg ty (length value) value
        ≡ some (record msg { buf = buf'; size = msg.size + room value }))
  append_attr-IsWritten ty value ty_fits fits =
      let (a, rest, same_type, same_value, v, used, stores) =
        place_attr msg.buf msg.size type id attrs tail ty value w ty_fits fits in
      let body = attrs_bytes (attrs ++ (a ∷ [])) ++ rest in
      (
        a,
        rest,
        stun_header type (count + room value) id ++ body,
        same_type,
        same_value,
        v,
        recount-IsWritten a rest value same_value v used,
        append_by msg ty value (stun_header type count id ++ body) _ count
            (rw w.layout (stores count))
            (header_length_lem type count id body (omega (arith, w.whole, w.counted)))
            (omega (arith, w.whole, w.counted))
            (set_header_length_lem type count id body (count + room value)),
      )

-- A message of which the code of its attributes and the fingerprint are the last two attributes.
module _ (hmac_sha1 : List ℕ → List ℕ → List ℕ) (md5 : List ℕ → List ℕ) where
  pub integrity_by :
      (msg : StunMessage) (key covered buf' buf'' : List ℕ) (count : ℕ)
      → set_header_length msg.buf (count + 24) ≡ buf'
      → count + 24 < 2 ^ 16
      → load buf' 0 msg.size ≡ some covered
      → store buf' msg.size (be16 attr_message_integrity ++ (be16 20 ++ hmac_sha1 key covered))
        ≡ some buf''
      → append_integrity md5 hmac_sha1 msg key count
        ≡ some (record msg { buf = buf''; size = msg.size + 24 })
  unfolding append_integrity
  integrity_by msg key covered buf' buf'' count recounted fits loaded stored =
      let total : u16 (count + 24) ≡ count + 24 = omega arith in
      let size : msg.size + 4 + 20 ≡ msg.size + 24 = omega arith in
      rw (total, recounted, loaded, stored, size) refl

  pub fingerprint_by :
      (msg : StunMessage) (covered buf' buf'' : List ℕ) (count : ℕ)
      → set_header_length msg.buf (count + 32) ≡ buf'
      → count + 32 < 2 ^ 16
      → load buf' 0 msg.size ≡ some covered
      → store buf' msg.size
          (be16 attr_fingerprint ++ (be16 4 ++ stun_calculate_fingerprint covered))
        ≡ some buf''
      → append_fingerprint md5 hmac_sha1 msg count
        ≡ some (record msg { buf = buf''; size = msg.size + 8 })
  unfolding append_fingerprint
  fingerprint_by msg covered buf' buf'' count recounted fits loaded stored =
      let total : u16 (count + 24 + 8) ≡ count + 32 = omega arith in
      let size : msg.size + 4 + 4 ≡ msg.size + 8 = omega arith in
      rw (total, recounted, loaded, stored, size) refl
