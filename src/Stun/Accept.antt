-- ===== src/Stun/Accept.antt =====
-- What stun_msg_finish has finished, stun_msg_is_valid accepts (src/stun.c).
use libpeer.Base.{
  ℕ, ◌+◌, ◌-◌, ◌^◌, ◌≤◌, ◌<◌, ◌≡◌, refl, ap, sym, ◌∙◌, some, List, [], ◌∷◌, ◌++◌, true, false, ltb,
  length, length-append, length-take, length-drop, take, drop, take-append-drop, append_assoc,
  append-nil, arith, All,
}
use libpeer.Base.Word.{u16}
use libpeer.Base.Memory.{store, load, store-append}
use libpeer.Stun.Message.{StunMessage, stun_header, header_length, set_header_length}
use libpeer.Stun.Fingerprint.{stun_calculate_fingerprint}
use libpeer.Stun.Write.{c_string, padded}
use libpeer.Stun.Parse.{stun_parse_msg_buf}
use libpeer.Stun.Valid.{equal_bytes, integrity_holds, stun_msg_is_valid}
use libpeer.Stun.Written.{
  Attr, attr_bytes, attrs_bytes, IsAttr, IsWritten, attrs_bytes-append, header_length_lem,
  set_header_length_lem, length-stun_header,
}
use libpeer.Stun.Append.{length-attrs_snoc}
use libpeer.Stun.Finish.{IsFinished, load_written}
use libpeer.Stun.Read.{IsReadable}
use libpeer.Stun.Parsed.{parse_finished}

equal_bytes_refl : (xs : List ℕ) → equal_bytes xs xs ≡ true
unfolding equal_bytes
equal_bytes_refl [] = refl
equal_bytes_refl (x ∷ xs) = ground (arith, equal_bytes_refl xs)

pub store_front :
    (mem bytes : List ℕ)
    → length bytes ≤ length mem
    → store mem 0 bytes ≡ some (bytes ++ drop (length bytes) mem)
store_front mem bytes h = rw (take-append-drop (length bytes) mem) at (
    store-append [] (take (length bytes) mem) (drop (length bytes) mem) bytes 0 refl
      (omega (arith, length-take (length bytes) mem)))

valid_by :
    (hmac_sha1 : List ℕ → List ℕ → List ℕ) (uninitialized msg : StunMessage)
    (buf bytes buf' covered : List ℕ) (size : ℕ) (password : List ℕ)
    → load buf 0 size ≡ some bytes
    → store uninitialized.buf 0 bytes ≡ some buf'
    → stun_parse_msg_buf (record uninitialized { buf = buf' }) ≡ some msg
    → 32 ≤ size
    → load msg.buf 0 (size - 4 - 4) ≡ some covered
    → stun_calculate_fingerprint covered ≡ msg.fingerprint
    → integrity_holds hmac_sha1 msg (size - 4 - 4) password ≡ some true
    → stun_msg_is_valid hmac_sha1 uninitialized buf size password ≡ some true
unfolding stun_msg_is_valid
valid_by hmac_sha1 uninitialized msg buf bytes buf' covered size password e1 e2 e3 long e4 e5 e6 =
    let wide : ltb size 8 ≡ false = ground arith in
    let wider : ltb size 32 ≡ false = ground arith in
    rw (e1, e2, e3, wide, e4, e5, equal_bytes_refl msg.fingerprint, wider) e6

integrity_by :
    (hmac_sha1 : List ℕ → List ℕ → List ℕ) (msg : StunMessage) (length count : ℕ)
    (password uncounted covered : List ℕ)
    → header_length msg.buf ≡ count + 8
    → count + 8 < 2 ^ 16
    → set_header_length msg.buf count ≡ uncounted
    → load uncounted 0 (length - 20 - 4) ≡ some covered
    → hmac_sha1 (c_string password) covered ≡ msg.message_integrity
    → integrity_holds hmac_sha1 msg length password ≡ some true
unfolding integrity_holds
integrity_by hmac_sha1 msg length count password uncounted covered e1 small e2 e3 e4 =
    let less : u16 (count + 8 + 2 ^ 16 - 4 - 4) ≡ count = omega arith in
    rw (e1, less, e2, e3, e4, equal_bytes_refl msg.message_integrity) refl

-- The local message of stun_msg_is_valid, whatever its bytes are.
pub record IsMessage (msg : StunMessage) : Type 0 where
  pub buf_size : length msg.buf ≡ 256
  pub code_size : length msg.message_integrity ≡ 20
  pub print_size : length msg.fingerprint ≡ 4

-- What precedes the attribute at the end.
module _ (attrs : List Attr) (a : Attr) (tail : List ℕ) where
  pub snoc_bytes :
      attrs_bytes (attrs ++ (a ∷ [])) ++ tail ≡ attrs_bytes attrs ++ (attr_bytes a ++ tail)
  snoc_bytes =
      ap (λ (xs : List ℕ). xs ++ tail) (attrs_bytes-append attrs (a ∷ []))
      ∙ append_assoc (attrs_bytes attrs) (attrs_bytes (a ∷ [])) tail
      ∙ ap (λ (xs : List ℕ). attrs_bytes attrs ++ xs)
          (unfold attrs_bytes in ap (λ (xs : List ℕ). xs ++ tail) (append-nil (attr_bytes a)))

-- The message copied over another one.
pub copy-IsWritten :
    (other buf : List ℕ) (size type : ℕ) (id : List ℕ) (attrs : List Attr) (rest : List ℕ)
    → IsWritten buf size type id attrs rest
    → length other ≡ 256
    → (store other 0 (stun_header type (length (attrs_bytes attrs)) id ++ attrs_bytes attrs)
        ≡ some (
            stun_header type (length (attrs_bytes attrs)) id
            ++ (attrs_bytes attrs ++ drop size other)))
      × IsWritten
          (stun_header type (length (attrs_bytes attrs)) id
            ++ (attrs_bytes attrs ++ drop size other))
          size
          type
          id
          attrs
          (drop size other)
copy-IsWritten other buf size type id attrs rest w h =
    let body = attrs_bytes attrs in
    let front = stun_header type (length body) id in
    let tail = drop size other in
    let long : length (front ++ body) ≡ size = omega (
      arith,
      length-append front body,
      length-stun_header type (length body) id,
      w.counted,
      w.named,
    ) in
    let layout : front ++ (body ++ tail) ≡ (front ++ body) ++ tail =
      sym (append_assoc front body tail) in
    (
      rw (long, ← layout) at (store_front other (front ++ body) (omega (arith, w.whole))),
      record {
        layout = refl;
        counted = w.counted;
        whole = omega (arith, length-drop size other, w.whole);
        named = w.named;
      },
    )

module _ (hmac_sha1 : List ℕ → List ℕ → List ℕ)
    (digest : (key message : List ℕ) → length (hmac_sha1 key message) ≡ 20)
    (uninitialized : StunMessage) (buf : List ℕ) (size type : ℕ) (id : List ℕ) (attrs : List Attr)
    (mi fp : Attr) (rest password : List ℕ)
    (w : IsWritten buf size type id ((attrs ++ (mi ∷ [])) ++ (fp ∷ [])) rest)
    (f : IsFinished hmac_sha1 type id attrs password mi fp) where
  abbrev body : List ℕ
  body = attrs_bytes ((attrs ++ (mi ∷ [])) ++ (fp ∷ []))

  abbrev count : ℕ
  count = length (attrs_bytes attrs)

  pub code_length : length mi.value ≡ 20
  code_length = rw f.mi_value (digest password _)

  pub print_length : length fp.value ≡ 4
  print_length = rw f.fp_value (unfold stun_calculate_fingerprint in refl)

  with_code : length (attrs_bytes (attrs ++ (mi ∷ []))) ≡ count + 24
  with_code = unfold padded in omega (arith, length-attrs_snoc attrs mi f.mi_valid, code_length)

  with_print : length body ≡ count + 32
  with_print =
      unfold padded in
      omega (arith, length-attrs_snoc (attrs ++ (mi ∷ [])) fp f.fp_valid, print_length, with_code)

  -- What the checks look at, in a message that holds these bytes.
  module _ (msg : StunMessage) (tail : List ℕ)
      (same : msg.buf ≡ stun_header type (length body) id ++ (body ++ tail)) where
    abbrev header : ℕ → List ℕ
    header extra = stun_header type (count + extra) id

    behind_code :
        msg.buf ≡ header 32 ++ (attrs_bytes (attrs ++ (mi ∷ [])) ++ (attr_bytes fp ++ tail))
    behind_code =
        same
        ∙ ap (λ (n : ℕ). stun_header type n id ++ (body ++ tail)) with_print
        ∙ ap (λ (xs : List ℕ). header 32 ++ xs) (snoc_bytes (attrs ++ (mi ∷ [])) fp tail)

    covered_print :
        load msg.buf 0 (size - 4 - 4) ≡ some (header 32 ++ attrs_bytes (attrs ++ (mi ∷ [])))
    covered_print =
        let less : size - 4 - 4 ≡ 20 + length (attrs_bytes (attrs ++ (mi ∷ []))) =
          omega (arith, w.counted, with_print, with_code) in
        rw (behind_code, less)
          (load_written type (count + 32) id (attrs ++ (mi ∷ [])) (attr_bytes fp ++ tail) w.named)

    integrity_valid :
        msg.message_integrity ≡ mi.value
        → c_string password ≡ password
        → integrity_holds hmac_sha1 msg (size - 4 - 4) password ≡ some true
    integrity_valid code plain =
        let ends = attr_bytes mi ++ (attr_bytes fp ++ tail) in
        let less : size - 4 - 4 - 20 - 4 ≡ 20 + count = omega (arith, w.counted, with_print) in
        let counted : header_length msg.buf ≡ count + 32 = rw behind_code (
          header_length_lem type (count + 32) id
            (attrs_bytes (attrs ++ (mi ∷ [])) ++ (attr_bytes fp ++ tail))
            (omega (arith, w.whole, w.counted, with_print))) in
        let counts : header_length msg.buf ≡ count + 24 + 8 = omega (arith, counted) in
        let less_code : set_header_length msg.buf (count + 24)
            ≡ header 24 ++ (attrs_bytes (attrs ++ (mi ∷ [])) ++ (attr_bytes fp ++ tail)) =
          rw behind_code (
            set_header_length_lem type (count + 32) id
              (attrs_bytes (attrs ++ (mi ∷ [])) ++ (attr_bytes fp ++ tail)) (count + 24)) in
        let uncounted : set_header_length msg.buf (count + 24)
            ≡ header 24 ++ (attrs_bytes attrs ++ ends) =
          less_code
          ∙ ap (λ (xs : List ℕ). header 24 ++ xs) (snoc_bytes attrs mi (attr_bytes fp ++ tail)) in
        integrity_by hmac_sha1 msg (size - 4 - 4) (count + 24) password _
          (header 24 ++ attrs_bytes attrs) counts (omega (arith, w.whole, w.counted, with_print))
          uncounted (rw less (load_written type (count + 24) id attrs ends w.named))
          (rw (plain, code) (sym f.mi_value))

  pub finished_valid :
      IsMessage uninitialized
      → type < 2 ^ 16
      → All IsAttr attrs
      → All IsReadable attrs
      → c_string password ≡ password
      → stun_msg_is_valid hmac_sha1 uninitialized buf size password ≡ some true
  finished_valid u h v r plain =
      let front = stun_header type (length body) id in
      let bytes = front ++ body in
      let tail = drop size uninitialized.buf in
      let (copied, copy) =
        copy-IsWritten uninitialized.buf buf size type id ((attrs ++ (mi ∷ [])) ++ (fp ∷ [])) rest w
          u.buf_size in
      let begun = record uninitialized { buf = front ++ (body ++ tail) } in
      let (msg, parsed, p) =
        parse_finished begun size type id attrs mi fp tail copy h v r f.mi_valid f.fp_valid
          f.mi_type f.fp_type (omega (arith, code_length, u.code_size))
          (omega (arith, print_length, u.print_size)) in
      valid_by hmac_sha1 uninitialized msg buf bytes (front ++ (body ++ tail)) _ size password
        (rw (w.layout, w.counted)
          (load_written type (length body) id ((attrs ++ (mi ∷ [])) ++ (fp ∷ [])) rest w.named))
        copied parsed (omega (arith, w.counted, with_print)) (covered_print msg tail p.same_buf)
        (sym (p.print_found ∙ f.fp_value)) (integrity_valid msg tail p.same_buf p.code_found plain)
