-- ===== src/Stun/Sealed.antt =====
-- A message that stun_msg_finish has finished, at its sender and at its receiver (src/stun.c).
use libpeer.Base.{
  ℕ, zero, suc, ◌+◌, ◌^◌, ◌≤◌, ◌<◌, ◌≡◌, refl, ap, sym, ◌∙◌, some, List, [], ◌∷◌, ◌++◌, true,
  length, length-append, take, drop, append_assoc, take-append_exact, All, arith,
}
use libpeer.Base.Memory.{store}
use libpeer.Stun.Message.{StunMessage, stun_header, stun_class, stun_method, transaction_id}
use libpeer.Stun.Write.{c_string, short_term, stun_msg_finish}
use libpeer.Stun.Parse.{stun_parse_msg_buf}
use libpeer.Stun.Valid.{stun_msg_is_valid, integrity_holds}
use libpeer.Stun.Written.{Attr, attrs_bytes, IsAttr, IsWritten, length-stun_header}
use libpeer.Stun.Finish.{IsFinished, finish-IsWritten}
use libpeer.Stun.Read.{IsReadable}
use libpeer.Stun.Parsed.{parse_finished}
use libpeer.Stun.Accept.{IsMessage, finished_valid, copy-IsWritten, code_length, print_length}
use libpeer.Stun.Build.{IsBuilt}

pub record IsSealed (hmac_sha1 : List ℕ → List ℕ → List ℕ) (msg : StunMessage) (type : ℕ)
    (id password : List ℕ) : Type 0 where
  pub attrs : List Attr
  pub mi : Attr
  pub fp : Attr
  pub rest : List ℕ
  pub written : IsWritten msg.buf msg.size type id ((attrs ++ (mi ∷ [])) ++ (fp ∷ [])) rest
  pub finished : IsFinished hmac_sha1 type id attrs password mi fp
  pub valid : All IsAttr attrs
  pub readable : All IsReadable attrs

c_string-c_string : (xs : List ℕ) → c_string (c_string xs) ≡ c_string xs
unfolding c_string
c_string-c_string [] = refl
c_string-c_string (zero ∷ xs) = refl
c_string-c_string (suc x ∷ xs) = rw (c_string-c_string xs) refl

same_password :
    (hmac_sha1 : List ℕ → List ℕ → List ℕ) (uninitialized : StunMessage) (buf : List ℕ) (size : ℕ)
    (p q : List ℕ)
    → c_string p ≡ c_string q
    → stun_msg_is_valid hmac_sha1 uninitialized buf size p
      ≡ stun_msg_is_valid hmac_sha1 uninitialized buf size q
unfolding stun_msg_is_valid integrity_holds
same_password hmac_sha1 uninitialized buf size p q e = rw e refl

module _ (hmac_sha1 : List ℕ → List ℕ → List ℕ) (msg : StunMessage) (type : ℕ)
    (id password : List ℕ) (s : IsSealed hmac_sha1 msg type id password) where
  abbrev all_attrs : List Attr
  all_attrs = (s.attrs ++ (s.mi ∷ [])) ++ (s.fp ∷ [])

  abbrev front : List ℕ
  front = stun_header type (length (attrs_bytes all_attrs)) id

  -- The bytes that are sent.
  pub sealed_bytes : take msg.size msg.buf ≡ front ++ attrs_bytes all_attrs
  sealed_bytes =
      ap (λ (buf : List ℕ). take msg.size buf)
        (s.written.layout ∙ sym (append_assoc front (attrs_bytes all_attrs) s.rest))
      ∙ take-append_exact msg.size (front ++ attrs_bytes all_attrs) s.rest (
          omega (
            arith,
            s.written.counted,
            s.written.named,
            length-append front (attrs_bytes all_attrs),
            length-stun_header type (length (attrs_bytes all_attrs)) id,
          ))

  pub sealed_id : transaction_id msg.buf ≡ id
  unfolding transaction_id stun_header
  sealed_id =
      rw s.written.layout
        (take-append_exact 12 id (attrs_bytes all_attrs ++ s.rest) (sym s.written.named))

  pub sealed_sizes : (length msg.buf ≡ 256) × (20 ≤ msg.size) × (msg.size ≤ 256)
  sealed_sizes = (
    ap (λ (buf : List ℕ). length buf) s.written.layout
        ∙ omega (
          arith,
          s.written.counted,
          s.written.whole,
          s.written.named,
          length-append front (attrs_bytes all_attrs ++ s.rest),
          length-append (attrs_bytes all_attrs) s.rest,
          length-stun_header type (length (attrs_bytes all_attrs)) id,
        ),
    omega (arith, s.written.counted),
    omega (arith, s.written.whole),
  )

-- Another message with the same bytes.
pub same-IsSealed :
    (hmac_sha1 : List ℕ → List ℕ → List ℕ) (msg msg' : StunMessage) (type : ℕ)
    (id password : List ℕ)
    → IsSealed hmac_sha1 msg type id password
    → msg'.buf ≡ msg.buf
    → msg'.size ≡ msg.size
    → IsSealed hmac_sha1 msg' type id password
same-IsSealed hmac_sha1 msg msg' type id password s same_buf same_size = record {
  attrs = s.attrs;
  mi = s.mi;
  fp = s.fp;
  rest = s.rest;
  written = rw (same_buf, same_size) s.written;
  finished = s.finished;
  valid = s.valid;
  readable = s.readable;
}

module _ (hmac_sha1 : List ℕ → List ℕ → List ℕ) (md5 : List ℕ → List ℕ)
    (digest : (key message : List ℕ) → length (hmac_sha1 key message) ≡ 20) (msg : StunMessage)
    (type : ℕ) (id password : List ℕ) where
  -- stun_msg_finish
  pub finish-IsSealed :
      (size : ℕ)
      → IsBuilt msg type id size
      → size + 32 ≤ 256
      → (msg' : StunMessage) × (stun_msg_finish md5 hmac_sha1 msg short_term password ≡ some msg')
        × IsSealed hmac_sha1 msg' type id password
  finish-IsSealed size b fits =
      let (mi, fp, rest, buf', ends, w, f) =
        finish-IsWritten hmac_sha1 md5 digest msg type id b.attrs b.tail password b.written
          (omega (arith, b.written.whole, b.sized)) in
      (
        record msg { buf = buf'; size = msg.size + 32 },
        ends,
        record {
          attrs = b.attrs;
          mi = mi;
          fp = fp;
          rest = rest;
          written = w;
          finished = f;
          valid = b.valid;
          readable = b.readable;
        },
      )

  -- stun_msg_is_valid, under the same password
  pub sealed_valid :
      (uninitialized : StunMessage) (password' : List ℕ)
      → IsSealed hmac_sha1 msg type id password
      → IsMessage uninitialized
      → type < 2 ^ 16
      → c_string password' ≡ password
      → stun_msg_is_valid hmac_sha1 uninitialized msg.buf msg.size password' ≡ some true
  sealed_valid uninitialized password' s u h same =
      let plain : c_string password ≡ password = rw (← same) (c_string-c_string password') in
      same_password hmac_sha1 uninitialized msg.buf msg.size password' password (same ∙ sym plain)
      ∙ finished_valid hmac_sha1 digest uninitialized msg.buf msg.size type id s.attrs s.mi s.fp
          s.rest password s.written s.finished u h s.valid s.readable plain

  -- What another message holds when the bytes have been copied into it.
  pub received-IsSealed :
      (other : StunMessage)
      → IsSealed hmac_sha1 msg type id password
      → length other.buf ≡ 256
      → (buf' : List ℕ) × (store other.buf 0 (take msg.size msg.buf) ≡ some buf')
        × IsSealed hmac_sha1 (record other { buf = buf'; size = msg.size }) type id password
  received-IsSealed other s h =
      let attrs' = (s.attrs ++ (s.mi ∷ [])) ++ (s.fp ∷ []) in
      let front = stun_header type (length (attrs_bytes attrs')) id in
      let (copied, copy) =
        copy-IsWritten other.buf msg.buf msg.size type id attrs' s.rest s.written h in
      (
        front ++ (attrs_bytes attrs' ++ drop msg.size other.buf),
        rw (sealed_bytes hmac_sha1 msg type id password s) copied,
        record {
          attrs = s.attrs;
          mi = s.mi;
          fp = s.fp;
          rest = drop msg.size other.buf;
          written = copy;
          finished = s.finished;
          valid = s.valid;
          readable = s.readable;
        },
      )

  -- stun_parse_msg_buf
  pub sealed_parsed :
      IsSealed hmac_sha1 msg type id password
      → IsMessage msg
      → type < 2 ^ 16
      → (msg' : StunMessage) × (stun_parse_msg_buf msg ≡ some msg')
        × (msg'.buf ≡ msg.buf)
        × (msg'.size ≡ msg.size)
        × (msg'.stunclass ≡ stun_class type)
        × (msg'.stunmethod ≡ stun_method type)
  sealed_parsed s u h =
      let code =
        code_length hmac_sha1 digest msg msg.buf msg.size type id s.attrs s.mi s.fp s.rest password
          s.written s.finished in
      let print =
        print_length hmac_sha1 digest msg msg.buf msg.size type id s.attrs s.mi s.fp s.rest password
          s.written s.finished in
      let (msg', parsed, p) =
        parse_finished msg msg.size type id s.attrs s.mi s.fp s.rest s.written h s.valid s.readable
          s.finished.mi_valid s.finished.fp_valid s.finished.mi_type s.finished.fp_type
          (omega (arith, code, u.code_size)) (omega (arith, print, u.print_size)) in
      (msg', parsed, p.same_buf, p.same_size, p.class_found, p.method_found)
