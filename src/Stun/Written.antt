-- ===== src/Stun/Written.antt =====
-- What a message looks like that stun_msg_create, stun_msg_write_attr and stun_msg_finish have written
-- (src/stun.c): a header that counts the attributes, and the attributes.
use libpeer.Base.{
  ℕ, ◌+◌, ◌^◌, ◌≤◌, ◌<◌, ◌≡◌, refl, ap, sym, ◌∙◌, some, List, [], ◌∷◌, ◌++◌, length, length-append,
  length-take, length-drop, take, drop, take-append-drop, append_assoc, append-nil, arith,
}
use libpeer.Base.Word.{be16}
use libpeer.Base.Memory.{store, store-append}
use libpeer.Stun.Message.{
  StunMessage, stun_header, header_type, header_length, set_header_length, stun_msg_create,
  default_id,
}
use libpeer.Stun.Write.{padded}

-- An attribute with the padding behind it.
pub record Attr : Type 0 where
  pub type : ℕ
  pub value : List ℕ
  pub pad : List ℕ

unfoldable pub attr_bytes : Attr → List ℕ
attr_bytes a = be16 a.type ++ (be16 (length a.value) ++ (a.value ++ a.pad))

unfoldable pub attrs_bytes : List Attr → List ℕ
attrs_bytes [] = []
attrs_bytes (a ∷ attrs) = attr_bytes a ++ attrs_bytes attrs

pub record IsAttr (a : Attr) : Type 0 where
  pub type_fits : a.type < 2 ^ 16
  pub small : length a.value < 2 ^ 15
  pub aligned : length a.value + length a.pad ≡ padded (length a.value)

pub length-attr_bytes : (a : Attr) → IsAttr a → length (attr_bytes a) ≡ padded (length a.value) + 4
unfolding attr_bytes
length-attr_bytes a v = omega (arith, v.aligned, length-append a.value a.pad)

pub attrs_bytes-append :
    (xs ys : List Attr) → attrs_bytes (xs ++ ys) ≡ attrs_bytes xs ++ attrs_bytes ys
unfolding attrs_bytes
attrs_bytes-append [] ys = refl
attrs_bytes-append (a ∷ xs) ys =
    rw (attrs_bytes-append xs ys)
      (sym (append_assoc (attr_bytes a) (attrs_bytes xs) (attrs_bytes ys)))

-- The header in front of `rest`.
module _ (type length : ℕ) (id rest : List ℕ) where
  pub header_length_lem :
      length < 2 ^ 16 → header_length (stun_header type length id ++ rest) ≡ length
  unfolding header_length stun_header
  header_length_lem h = omega arith

  pub header_type_lem : type < 2 ^ 16 → header_type (stun_header type length id ++ rest) ≡ type
  unfolding header_type stun_header
  header_type_lem h = omega arith

  pub set_header_length_lem :
      (length' : ℕ)
      → set_header_length (stun_header type length id ++ rest) length'
        ≡ stun_header type length' id ++ rest
  unfolding set_header_length stun_header
  set_header_length_lem length' = refl

pub length-stun_header :
    (type len : ℕ) (id : List ℕ) → length (stun_header type len id) ≡ 8 + length id
unfolding stun_header
length-stun_header type len id = omega arith

-- `tail` is what the buffer holds behind the message.
pub record IsWritten (buf : List ℕ) (size type : ℕ) (id : List ℕ) (attrs : List Attr)
    (tail : List ℕ) : Type 0 where
  pub layout : buf ≡ stun_header type (length (attrs_bytes attrs)) id ++ (attrs_bytes attrs ++ tail)
  pub counted : size ≡ 20 + length (attrs_bytes attrs)
  pub whole : size + length tail ≡ 256
  pub named : length id ≡ 12

-- stun_msg_create
pub create-IsWritten :
    (msg : StunMessage) (type : ℕ)
    → length msg.buf ≡ 256
    → IsWritten
        (stun_msg_create msg type).buf
        (stun_msg_create msg type).size
        type
        default_id
        []
        (drop 20 msg.buf)
unfolding stun_msg_create attrs_bytes
create-IsWritten msg type h = record {
  layout = refl;
  counted = refl;
  whole = omega (arith, length-drop 20 msg.buf);
  named = refl;
}

-- The tail in front of which an attribute is written: what it overwrites, its padding, and the rest.
pub split_tail :
    (n k : ℕ) (tail : List ℕ)
    → n + k ≤ length tail
    → (over pad rest : List ℕ) × (tail ≡ over ++ (pad ++ rest))
      × (length over ≡ n)
      × (length pad ≡ k)
split_tail n k tail h =
    let rest = drop n tail in
    (
      take n tail,
      take k rest,
      drop k rest,
      sym (take-append-drop n tail)
          ∙ ap (λ (xs : List ℕ). take n tail ++ xs) (sym (take-append-drop k rest)),
      omega (arith, length-take n tail),
      omega (arith, length-take k rest, length-drop n tail),
    )

-- An attribute goes behind the others.
module _ (type count : ℕ) (id : List ℕ) (attrs : List Attr) (a : Attr) (over rest : List ℕ) where
  abbrev written : List ℕ
  written = be16 a.type ++ (be16 (length a.value) ++ a.value)

  abbrev header : List ℕ
  header = stun_header type count id

  behind :
      attrs_bytes (attrs ++ (a ∷ [])) ++ rest ≡ attrs_bytes attrs ++ (written ++ (a.pad ++ rest))
  unfolding attr_bytes
  behind =
      ap (λ (xs : List ℕ). xs ++ rest) (attrs_bytes-append attrs (a ∷ []))
      ∙ append_assoc (attrs_bytes attrs) (attrs_bytes (a ∷ [])) rest
      ∙ ap (λ (xs : List ℕ). attrs_bytes attrs ++ xs)
          (unfold attrs_bytes in rw (append-nil, append_assoc a.value a.pad rest) refl)

  pub store_attr :
      length id ≡ 12
      → length over ≡ 4 + length a.value
      → store
          (header ++ (attrs_bytes attrs ++ (over ++ (a.pad ++ rest))))
          (20 + length (attrs_bytes attrs))
          written
        ≡ some (header ++ (attrs_bytes (attrs ++ (a ∷ [])) ++ rest))
  store_attr named same =
      rw
        (
          behind,
          ← append_assoc header (attrs_bytes attrs) (over ++ (a.pad ++ rest)),
          ← append_assoc header (attrs_bytes attrs) (written ++ (a.pad ++ rest)),
        )
        (store-append (header ++ attrs_bytes attrs) over (a.pad ++ rest) written _
          (omega
            (arith, length-append header (attrs_bytes attrs), length-stun_header type count id))
          (omega arith))
