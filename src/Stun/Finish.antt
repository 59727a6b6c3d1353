-- ===== src/Stun/Finish.antt =====
-- What stun_msg_finish leaves (src/stun.c): MESSAGE-INTEGRITY and FINGERPRINT behind the attributes.
use libpeer.Base.{
  ℕ, ◌+◌, ◌≤◌, ◌≡◌, refl, some, List, [], ◌∷◌, ◌++◌, length, length-append, append_assoc, arith,
}
use libpeer.Base.Memory.{load, load-append}
use libpeer.Stun.Message.{StunMessage, stun_header, header_length}
use libpeer.Stun.Fingerprint.{stun_calculate_fingerprint}
use libpeer.Stun.Write.{
  padded, attr_message_integrity, attr_fingerprint, append_integrity, append_fingerprint,
  stun_msg_finish, short_term, integrity_key,
}
use libpeer.Stun.Written.{
  Attr, attrs_bytes, IsAttr, IsWritten, header_length_lem, set_header_length_lem,
  length-stun_header,
}
use libpeer.Stun.Append.{placed, integrity_by, fingerprint_by}

pub load_written :
    (type count : ℕ) (id : List ℕ) (attrs : List Attr) (tail : List ℕ)
    → length id ≡ 12
    → load
        (stun_header type count id ++ (attrs_bytes attrs ++ tail))
        0
        (20 + length (attrs_bytes attrs))
      ≡ some (stun_header type count id ++ attrs_bytes attrs)
load_written type count id attrs tail named =
    rw (← append_assoc (stun_header type count id) (attrs_bytes attrs) tail) (
      load-append (stun_header type count id ++ attrs_bytes attrs) tail _ (
        omega (
          arith,
          length-append (stun_header type count id) (attrs_bytes attrs),
          length-stun_header type count id,
        )))

length-fingerprint : (buf : List ℕ) → length (stun_calculate_fingerprint buf) ≡ 4
unfolding stun_calculate_fingerprint
length-fingerprint buf = refl

-- The two attributes of a message that is finished.
pub record IsFinished (hmac_sha1 : List ℕ → List ℕ → List ℕ) (type : ℕ) (id : List ℕ)
    (attrs : List Attr) (key : List ℕ) (mi fp : Attr) : Type 0 where
  pub mi_type : mi.type ≡ attr_message_integrity
  pub mi_value :
      mi.value
      ≡ hmac_sha1 key (stun_header type (length (attrs_bytes attrs) + 24) id ++ attrs_bytes attrs)
  pub mi_valid : IsAttr mi
  pub fp_type : fp.type ≡ attr_fingerprint
  pub fp_value :
      fp.value
      ≡ stun_calculate_fingerprint (
          stun_header type (length (attrs_bytes attrs) + 32) id ++ attrs_bytes (attrs ++ (mi ∷ [])))
  pub fp_valid : IsAttr fp

module _ (hmac_sha1 : List ℕ → List ℕ → List ℕ) (md5 : List ℕ → List ℕ)
    (digest : (key message : List ℕ) → length (hmac_sha1 key message) ≡ 20) (msg : StunMessage)
    (type : ℕ) (id : List ℕ) (attrs : List Attr) (tail password : List ℕ)
    (w : IsWritten msg.buf msg.size type id attrs tail) where
  abbrev count : ℕ
  count = length (attrs_bytes attrs)

  abbrev covered : List ℕ
  covered = stun_header type (count + 24) id ++ attrs_bytes attrs

  abbrev code : List ℕ
  code = hmac_sha1 password covered

  -- After MESSAGE-INTEGRITY.
  with_integrity :
      32 ≤ length tail
      → (mi : Attr) × (rest buf' : List ℕ) × (mi.type ≡ attr_message_integrity)
        × (mi.value ≡ code)
        × IsAttr mi
        × (8 ≤ length rest)
        × (append_integrity md5 hmac_sha1 msg password count
            ≡ some (record msg { buf = buf'; size = msg.size + 24 }))
        × IsWritten buf' (msg.size + 24) type id (attrs ++ (mi ∷ [])) rest
  with_integrity fits =
      let (mi, rest, same_type, same_value, v, used, grown, stores) =
        placed msg type id attrs tail w attr_message_integrity code 20 24 (omega arith)
          (digest password covered) (unfold padded in refl) (omega arith) in
      (
        mi,
        rest,
        stun_header type (count + 24) id ++ (attrs_bytes (attrs ++ (mi ∷ [])) ++ rest),
        same_type,
        same_value,
        v,
        omega arith,
        integrity_by hmac_sha1 md5 msg password covered
            (stun_header type (count + 24) id ++ (attrs_bytes attrs ++ tail)) _ count
            (rw w.layout
              (set_header_length_lem type count id (attrs_bytes attrs ++ tail) (count + 24)))
            (omega (arith, w.whole, w.counted))
            (rw w.counted (load_written type (count + 24) id attrs tail w.named))
            (stores (count + 24)),
        grown,
      )

  abbrev attrs' : Attr → List Attr
  attrs' mi = attrs ++ (mi ∷ [])

-- stun_msg_finish, where 32 bytes are left.
module _ (hmac_sha1 : List ℕ → List ℕ → List ℕ) (md5 : List ℕ → List ℕ)
    (digest : (key message : List ℕ) → length (hmac_sha1 key message) ≡ 20) (msg : StunMessage)
    (type : ℕ) (id : List ℕ) (attrs : List Attr) (tail password : List ℕ) where
  with_fingerprint :
      (count : ℕ)
      → IsWritten msg.buf msg.size type id attrs tail
      → length (attrs_bytes attrs) ≡ count + 24
      → 8 ≤ length tail
      → (fp : Attr) × (rest buf' : List ℕ) × (fp.type ≡ attr_fingerprint)
        × (fp.value
            ≡ stun_calculate_fingerprint (stun_header type (count + 32) id ++ attrs_bytes attrs))
        × IsAttr fp
        × (append_fingerprint md5 hmac_sha1 msg count
            ≡ some (record msg { buf = buf'; size = msg.size + 8 }))
        × IsWritten buf' (msg.size + 8) type id (attrs ++ (fp ∷ [])) rest
  with_fingerprint count w counts fits =
      let covered = stun_header type (count + 32) id ++ attrs_bytes attrs in
      let value = stun_calculate_fingerprint covered in
      let (fp, rest, same_type, same_value, v, used, grown, stores) =
        placed msg type id attrs tail w attr_fingerprint value 4 8 (omega arith)
          (length-fingerprint covered) (unfold padded in refl) (omega arith) in
      let total : length (attrs_bytes attrs) + 8 ≡ count + 32 = omega arith in
      (
        fp,
        rest,
        stun_header type (count + 32) id ++ (attrs_bytes (attrs ++ (fp ∷ [])) ++ rest),
        same_type,
        same_value,
        v,
        fingerprint_by hmac_sha1 md5 msg covered
            (stun_header type (count + 32) id ++ (attrs_bytes attrs ++ tail)) _ count
            (rw w.layout (
              set_header_length_lem type (length (attrs_bytes attrs)) id (attrs_bytes attrs ++ tail)
                (count + 32)))
            (omega (arith, w.whole, w.counted))
            (rw w.counted (load_written type (count + 32) id attrs tail w.named))
            (stores (count + 32)),
        rw total at grown,
      )

finish_by :
    (hmac_sha1 : List ℕ → List ℕ → List ℕ) (md5 : List ℕ → List ℕ) (msg msg' msg'' : StunMessage)
    (password : List ℕ) (count : ℕ)
    → header_length msg.buf ≡ count
    → append_integrity md5 hmac_sha1 msg password count ≡ some msg'
    → append_fingerprint md5 hmac_sha1 msg' count ≡ some msg''
    → stun_msg_finish md5 hmac_sha1 msg short_term password ≡ some msg''
unfolding stun_msg_finish integrity_key
finish_by hmac_sha1 md5 msg msg' msg'' password count counts first second =
    rw (counts, first) second

-- stun_msg_finish on a message with 32 bytes left behind it.
pub finish-IsWritten :
    (hmac_sha1 : List ℕ → List ℕ → List ℕ) (md5 : List ℕ → List ℕ)
    (digest : (key message : List ℕ) → length (hmac_sha1 key message) ≡ 20) (msg : StunMessage)
    (type : ℕ) (id : List ℕ) (attrs : List Attr) (tail password : List ℕ)
    → IsWritten msg.buf msg.size type id attrs tail
    → 32 ≤ length tail
    → (mi fp : Attr) × (rest buf' : List ℕ) × (stun_msg_finish md5 hmac_sha1 msg short_term password
        ≡ some (record msg { buf = buf'; size = msg.size + 32 }))
      × IsWritten buf' (msg.size + 32) type id ((attrs ++ (mi ∷ [])) ++ (fp ∷ [])) rest
      × IsFinished hmac_sha1 type id attrs password mi fp
finish-IsWritten hmac_sha1 md5 digest msg type id attrs tail password w fits =
    let count = length (attrs_bytes attrs) in
    let (mi, rest, buf', mi_type, mi_value, mi_valid, left, first, w') =
      with_integrity hmac_sha1 md5 digest msg type id attrs tail password w fits in
    let msg' = record msg { buf = buf'; size = msg.size + 24 } in
    let counts : length (attrs_bytes (attrs ++ (mi ∷ []))) ≡ count + 24 =
      omega (arith, w.counted, w'.counted) in
    let (fp, rest', buf'', fp_type, fp_value, fp_valid, second, w'') =
      with_fingerprint hmac_sha1 md5 digest msg' type id (attrs ++ (mi ∷ [])) rest password count w'
        counts left in
    let size : msg.size + 24 + 8 ≡ msg.size + 32 = omega arith in
    let counted : header_length msg.buf ≡ count = rw w.layout (
      header_length_lem type count id (attrs_bytes attrs ++ tail)
        (omega (arith, w.whole, w.counted))) in
    (
      mi,
      fp,
      rest',
      buf'',
      rw size at (finish_by hmac_sha1 md5 msg msg' _ password count counted first second),
      rw size at w'',
      record {
        mi_type = mi_type;
        mi_value = mi_value;
        mi_valid = mi_valid;
        fp_type = fp_type;
        fp_value = fp_value;
        fp_valid = fp_valid;
      },
    )
