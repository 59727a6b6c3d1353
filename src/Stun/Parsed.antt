-- ===== src/Stun/Parsed.antt =====
-- What stun_parse_msg_buf finds in a message that stun_msg_finish has finished (src/stun.c).
use libpeer.Base.{
  ℕ, zero, suc, ◌+◌, ◌-◌, ◌^◌, ◌≤◌, ◌<◌, ◌≡◌, refl, ap, sym, ◌∙◌, Option, some, List, [], ◌∷◌, ◌++◌,
  length, length-append, append_assoc, append-nil, arith, All, get_or, drop, drop-append_exact,
}
use libpeer.Base.Word.{be16, read16}
use libpeer.Base.Memory.{load, load-append}
use libpeer.Stun.Message.{
  StunMessage, stun_header, header_length, header_type, stun_class, stun_method,
}
use libpeer.Stun.Write.{padded, attr_message_integrity, attr_fingerprint}
use libpeer.Stun.Parse.{parse_attr, attr_loop, stun_parse_msg_buf}
use libpeer.Stun.Written.{
  Attr, attr_bytes, attrs_bytes, IsAttr, IsWritten, length-attr_bytes, attrs_bytes-append,
  header_length_lem, header_type_lem, length-stun_header,
}
use libpeer.Stun.Read.{
  parse_integrity, parse_fingerprint, parse_readable, IsReadable, IsKept, IsKept-refl, IsKept-trans,
}

-- One round on an attribute in front of `rest`.
loop_suc :
    (fuel n : ℕ) (msg msg' : StunMessage) (mem head rest : List ℕ) (type len left : ℕ)
    → load mem 0 4 ≡ some head
    → read16 (get_or head 0 0) (get_or head 1 0) ≡ type
    → read16 (get_or head 2 0) (get_or head 3 0) ≡ len
    → parse_attr msg type len (drop 4 mem) ≡ some msg'
    → drop (padded len + 4) mem ≡ rest
    → n ≡ padded len + 4 + left
    → attr_loop (suc fuel) msg mem n ≡ attr_loop fuel msg' rest left
unfolding attr_loop
loop_suc fuel zero msg msg' mem head rest type len left e1 e2 e3 e4 e5 e6 = absurd (omega arith)
loop_suc fuel (suc n) msg msg' mem head rest type len left e1 e2 e3 e4 e5 e6 =
    let fewer : suc n - (padded len + 4) ≡ left = omega arith in rw (e1, e2, e3, e4, e5, fewer) refl

loop_step :
    (fuel left : ℕ) (msg msg' : StunMessage) (a : Attr) (rest : List ℕ)
    → IsAttr a
    → parse_attr msg a.type (length a.value) (a.value ++ (a.pad ++ rest)) ≡ some msg'
    → attr_loop (suc fuel) msg (attr_bytes a ++ rest) (length (attr_bytes a) + left)
      ≡ attr_loop fuel msg' rest left
unfolding attr_bytes
loop_step fuel left msg msg' a rest v parsed =
    let len = length a.value in
    let head = be16 a.type ++ be16 len in
    let behind : (a.value ++ a.pad) ++ rest ≡ a.value ++ (a.pad ++ rest) =
      append_assoc a.value a.pad rest in
    loop_suc fuel _ msg msg' (head ++ ((a.value ++ a.pad) ++ rest)) head rest a.type len left
      (load-append head ((a.value ++ a.pad) ++ rest) 4 refl) (omega (arith, v.type_fits))
      (omega (arith, v.small)) (rw behind parsed)
      (drop-append_exact (padded len + 4) (head ++ (a.value ++ a.pad)) rest
        (omega (arith, v.aligned, length-append a.value a.pad)))
      (omega (arith, length-attr_bytes a v))

readable_loop :
    (attrs : List Attr) (fuel left : ℕ) (msg : StunMessage) (rest : List ℕ)
    → All IsAttr attrs
    → All IsReadable attrs
    → length (attrs_bytes attrs) + left ≤ fuel
    → (fuel' : ℕ) × (msg' : StunMessage) × (attr_loop fuel msg
          (attrs_bytes attrs ++ rest)
          (length (attrs_bytes attrs) + left)
        ≡ attr_loop fuel' msg' rest left)
      × (left ≤ fuel')
      × IsKept msg msg'
unfolding attrs_bytes
readable_loop [] fuel left msg rest v r h =
    let none_there : 0 + left ≡ left = omega arith in
    (fuel, msg, rw none_there refl, omega arith, IsKept-refl msg)
readable_loop (a ∷ attrs) zero left msg rest (v, vs) (r, rs) h =
    absurd (omega (arith, length-append (attr_bytes a) (attrs_bytes attrs), length-attr_bytes a v))
readable_loop (a ∷ attrs) (suc fuel) left msg rest (v, vs) (r, rs) h =
    let behind = attrs_bytes attrs ++ rest in
    let sizes = length-append (attr_bytes a) (attrs_bytes attrs) in
    let (msg', parsed, kept) = parse_readable msg a (a.pad ++ behind) r in
    let (fuel', msg'', loops, enough, kept') =
      readable_loop attrs fuel left msg' rest vs rs (omega (arith, sizes, length-attr_bytes a v)) in
    let total : length (attr_bytes a ++ attrs_bytes attrs) + left
        ≡ length (attr_bytes a) + (length (attrs_bytes attrs) + left) =
      omega (arith, sizes) in
    (
      fuel',
      msg'',
      rw (append_assoc (attr_bytes a) (attrs_bytes attrs) rest, total)
          (loop_step fuel (length (attrs_bytes attrs) + left) msg msg' a behind v parsed ∙ loops),
      enough,
      IsKept-trans msg msg' msg'' kept kept',
    )

loop_end : (fuel : ℕ) (msg : StunMessage) (rest : List ℕ) → attr_loop fuel msg rest 0 ≡ some msg
unfolding attr_loop
loop_end zero msg rest = refl
loop_end (suc fuel) msg rest = refl

-- The two attributes at the end.
last_two :
    (fuel : ℕ) (msg : StunMessage) (mi fp : Attr) (rest : List ℕ)
    → IsAttr mi
    → IsAttr fp
    → mi.type ≡ attr_message_integrity
    → fp.type ≡ attr_fingerprint
    → length mi.value ≡ length msg.message_integrity
    → length fp.value ≡ length msg.fingerprint
    → 2 ≤ fuel
    → attr_loop fuel msg
        (attr_bytes mi ++ (attr_bytes fp ++ rest))
        (length (attr_bytes mi) + (length (attr_bytes fp) + 0))
      ≡ some (record msg { message_integrity = mi.value; fingerprint = fp.value })
last_two zero msg mi fp rest v v' t t' s s' h = absurd (omega arith)
last_two (suc zero) msg mi fp rest v v' t t' s s' h = absurd (omega arith)
last_two (suc (suc fuel)) msg mi fp rest v v' t t' s s' h =
    loop_step (suc fuel) (length (attr_bytes fp) + 0) msg _ mi (attr_bytes fp ++ rest) v
      (rw t (parse_integrity msg mi.value (mi.pad ++ (attr_bytes fp ++ rest)) s))
    ∙ loop_step fuel 0 (record msg { message_integrity = mi.value }) _ fp rest v'
        (rw t' (
          parse_fingerprint (record msg { message_integrity = mi.value }) fp.value (fp.pad ++ rest)
            s'))
    ∙ loop_end fuel _ rest

two_more :
    (attrs : List Attr) (mi fp : Attr)
    → attrs_bytes ((attrs ++ (mi ∷ [])) ++ (fp ∷ []))
      ≡ attrs_bytes attrs ++ (attr_bytes mi ++ attr_bytes fp)
two_more attrs mi fp =
    attrs_bytes-append (attrs ++ (mi ∷ [])) (fp ∷ [])
    ∙ rw (attrs_bytes-append attrs (mi ∷ [])) (
        unfold attrs_bytes in
        rw (append-nil (attr_bytes mi), append-nil (attr_bytes fp))
          (append_assoc (attrs_bytes attrs) (attr_bytes mi) (attr_bytes fp)))

-- What stun_parse_msg_buf finds in a message that is finished.
pub record IsParsed (msg : StunMessage) (type : ℕ) (mi fp : Attr) (msg' : StunMessage)
    : Type 0 where
  pub same_buf : msg'.buf ≡ msg.buf
  pub same_size : msg'.size ≡ msg.size
  pub class_found : msg'.stunclass ≡ stun_class type
  pub method_found : msg'.stunmethod ≡ stun_method type
  pub code_found : msg'.message_integrity ≡ mi.value
  pub print_found : msg'.fingerprint ≡ fp.value

parse_by :
    (msg begun : StunMessage) (count : ℕ) (mem : List ℕ) (result : Option StunMessage) (type : ℕ)
    → header_length msg.buf ≡ count
    → header_type msg.buf ≡ type
    → begun ≡ record msg { stunclass = stun_class type; stunmethod = stun_method type }
    → drop 20 msg.buf ≡ mem
    → attr_loop count begun mem count ≡ result
    → stun_parse_msg_buf msg ≡ result
unfolding stun_parse_msg_buf
parse_by msg begun count mem result type counts types begins behind loops =
    rw (counts, types, behind, ← begins) loops

pub parse_finished :
    (msg : StunMessage) (size type : ℕ) (id : List ℕ) (attrs : List Attr) (mi fp : Attr)
    (tail : List ℕ)
    → IsWritten msg.buf size type id ((attrs ++ (mi ∷ [])) ++ (fp ∷ [])) tail
    → type < 2 ^ 16
    → All IsAttr attrs
    → All IsReadable attrs
    → IsAttr mi
    → IsAttr fp
    → mi.type ≡ attr_message_integrity
    → fp.type ≡ attr_fingerprint
    → length mi.value ≡ length msg.message_integrity
    → length fp.value ≡ length msg.fingerprint
    → (msg' : StunMessage) × (stun_parse_msg_buf msg ≡ some msg') × IsParsed msg type mi fp msg'
parse_finished msg size type id attrs mi fp tail w h v r v' v'' t t' s s' =
    let body = attrs_bytes ((attrs ++ (mi ∷ [])) ++ (fp ∷ [])) in
    let count = length body in
    let counts : header_length msg.buf ≡ count =
      rw w.layout
        (header_length_lem type count id (body ++ tail) (omega (arith, w.whole, w.counted))) in
    let types : header_type msg.buf ≡ type =
      rw w.layout (header_type_lem type count id (body ++ tail) h) in
    let begun = record msg { stunclass = stun_class type; stunmethod = stun_method type } in
    let ends = attr_bytes mi ++ (attr_bytes fp ++ tail) in
    let split = two_more attrs mi fp in
    let behind : drop 20 msg.buf ≡ attrs_bytes attrs ++ ends =
      rw w.layout (
        drop-append_exact 20 (stun_header type count id) (body ++ tail)
          (omega (arith, length-stun_header type count id, w.named)))
      ∙ ap (λ (xs : List ℕ). xs ++ tail) split
      ∙ append_assoc (attrs_bytes attrs) (attr_bytes mi ++ attr_bytes fp) tail
      ∙ ap (λ (xs : List ℕ). attrs_bytes attrs ++ xs)
          (append_assoc (attr_bytes mi) (attr_bytes fp) tail) in
    let left = length (attr_bytes mi) + (length (attr_bytes fp) + 0) in
    let total : count ≡ length (attrs_bytes attrs) + left = omega (
      arith,
      ap (λ (xs : List ℕ). length xs) split,
      length-append (attrs_bytes attrs) (attr_bytes mi ++ attr_bytes fp),
      length-append (attr_bytes mi) (attr_bytes fp),
    ) in
    let (fuel', msg', loops, enough, kept) =
      readable_loop attrs count left begun ends v r (omega (arith, total)) in
    let ended =
      last_two fuel' msg' mi fp tail v' v'' t t' (s ∙ sym kept.code_size) (s' ∙ sym kept.print_size)
        (omega (arith, enough, length-attr_bytes mi v', length-attr_bytes fp v'')) in
    (
      record msg' { message_integrity = mi.value; fingerprint = fp.value },
      parse_by msg begun count (attrs_bytes attrs ++ ends) _ type counts types refl behind
          (ap (attr_loop count begun (attrs_bytes attrs ++ ends)) total ∙ loops ∙ ended),
      record {
        same_buf = kept.same_buf;
        same_size = kept.same_size;
        class_found = kept.same_class;
        method_found = kept.same_method;
        code_found = refl;
        print_found = refl;
      },
    )
