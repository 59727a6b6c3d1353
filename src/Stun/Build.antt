-- ===== src/Stun/Build.antt =====
-- Messages that stun_msg_write_attr builds up and stun_msg_is_valid will be able to read (src/stun.c).
use libpeer.Base.{
  ℕ, ◌+◌, ◌^◌, ◌≤◌, ◌<◌, ◌≡◌, ◌≢◌, ◌⊎◌, inl, inr, refl, ap, sym, Option, some, List, [], ◌∷◌, ◌++◌,
  length, length-append, length-take, length-drop, take, drop, All, All-append, get_or,
  drop-append_exact, arith,
}
use libpeer.Base.Word.{u16}
use libpeer.Base.Memory.{store, load, load-append}
use libpeer.Stun.Message.{StunMessage, stun_msg_create, default_id, set_transaction_id, stun_header}
use libpeer.Stun.Write.{
  padded, value_bytes, keep, keep_copy, append_attr, stun_msg_write_attr, attr_username, attr_realm,
  attr_nonce, attr_xor_mapped_address,
}
use libpeer.Stun.Written.{Attr, attrs_bytes, IsAttr, IsWritten, create-IsWritten}
use libpeer.Stun.Append.{append_attr-IsWritten, padded_bounds, room}
use libpeer.Stun.Read.{IsReadable, IsSkipped}

-- A message of `size` bytes with attributes that can be read, and the arrays its strings are kept in.
pub record IsBuilt (msg : StunMessage) (type : ℕ) (id : List ℕ) (size : ℕ) : Type 0 where
  pub attrs : List Attr
  pub tail : List ℕ
  pub written : IsWritten msg.buf msg.size type id attrs tail
  pub sized : msg.size ≡ size
  pub valid : All IsAttr attrs
  pub readable : All IsReadable attrs
  pub name_size : length msg.username ≡ 128

-- stun_msg_create
pub create-IsBuilt :
    (msg : StunMessage) (type : ℕ)
    → length msg.buf ≡ 256
    → length msg.username ≡ 128
    → IsBuilt (stun_msg_create msg type) type default_id 20
unfolding stun_msg_create
create-IsBuilt msg type h k = record {
  attrs = [];
  tail = drop 20 msg.buf;
  written = unfold stun_msg_create in create-IsWritten msg type h;
  sized = refl;
  valid = tt;
  readable = tt;
  name_size = k;
}

write_by :
    (msg msg' msg'' : StunMessage) (type len : ℕ) (value : Option (List ℕ)) (bytes : List ℕ)
    → value_bytes value len ≡ some bytes
    → append_attr msg type len bytes ≡ some msg'
    → keep_copy msg' type (u16 (padded len)) value ≡ some msg''
    → stun_msg_write_attr msg type len value ≡ some msg''
unfolding stun_msg_write_attr
write_by msg msg' msg'' type len value bytes e1 e2 e3 = rw (e1, e2) e3

-- Every attribute but a user name, a realm or a nonce.
abbrev pub IsUnkept : ℕ → Type 0
IsUnkept type = (type ≢ attr_username) × (type ≢ attr_realm) × (type ≢ attr_nonce)

keep_nothing :
    (msg : StunMessage) (type len : ℕ) (value : Option (List ℕ))
    → IsUnkept type
    → keep_copy msg type len value ≡ some msg
unfolding keep_copy
keep_nothing msg type len value h = ground arith

-- The message with one more attribute, after the copies of its strings.
abbrev pub Grows : StunMessage → ℕ → List ℕ → ℕ → ℕ → ℕ → Option (List ℕ) → Type 0
Grows msg type id size ty len value =
    (msg' : StunMessage) × (stun_msg_write_attr msg ty len value ≡ some msg')
    × IsBuilt msg' type id (size + (padded len + 4))

-- `msg` when `used` bytes have been appended, and the user name it keeps.
abbrev grown : StunMessage → ℕ → List ℕ → List ℕ → StunMessage
grown msg used buf username = record msg { buf = buf; size = msg.size + used; username = username }

-- What an attribute adds, its copy apart.
module _ (msg : StunMessage) (type : ℕ) (id : List ℕ) (size ty : ℕ) (bytes : List ℕ)
    (b : IsBuilt msg type id size) (ty_fits : ty < 2 ^ 16)
    (fits : size + (padded (length bytes) + 4) ≤ 256)
    (reads : (a : Attr) → a.type ≡ ty → a.value ≡ bytes → IsReadable a) where
  grow_by :
      (buf' : List ℕ) × (append_attr msg ty (length bytes) bytes
        ≡ some (grown msg (room bytes) buf' msg.username))
      × ((username : List ℕ)
          → length username ≡ 128
          → IsBuilt
              (grown msg (room bytes) buf' username)
              type
              id
              (size + (padded (length bytes) + 4)))
  grow_by =
      let (a, rest, buf', same_type, same_value, v, w, appended) =
        append_attr-IsWritten msg type id b.attrs b.tail b.written ty bytes ty_fits
          (omega (arith, b.written.whole, b.sized)) in
      (
        buf',
        appended,
        λ username named. record {
          attrs = b.attrs ++ (a ∷ []);
          tail = rest;
          written = w;
          sized = omega (arith, b.sized);
          valid = All-append IsAttr b.attrs (a ∷ []) b.valid (v, tt);
          readable =
              All-append IsReadable b.attrs (a ∷ []) b.readable (reads a same_type same_value, tt);
          name_size = named;
        },
      )

  grow_unkept :
      (value : Option (List ℕ))
      → IsUnkept ty
      → value_bytes value (length bytes) ≡ some bytes
      → Grows msg type id size ty (length bytes) value
  grow_unkept value h e =
      let (buf', appended, built) = grow_by in
      (
        grown msg (room bytes) buf' msg.username,
        write_by msg (grown msg (room bytes) buf' msg.username)
            (grown msg (room bytes) buf' msg.username) ty (length bytes) value bytes e appended
            (keep_nothing (grown msg (room bytes) buf' msg.username) ty _ value h),
        built msg.username b.name_size,
      )

store_fits :
    (mem bytes : List ℕ)
    → length bytes ≤ length mem
    → (mem' : List ℕ) × (store mem 0 bytes ≡ some mem') × (length mem' ≡ length mem)
unfolding store
store_fits mem bytes h = (
  bytes ++ drop (length bytes) mem,
  ground arith,
  omega (arith, length-append bytes (drop (length bytes) mem), length-drop (length bytes) mem),
)

keep_name :
    (msg : StunMessage) (len : ℕ) (mem bytes username : List ℕ)
    → load mem 0 len ≡ some bytes
    → store msg.username 0 bytes ≡ some username
    → keep_copy msg attr_username len (some mem) ≡ some (record msg { username = username })
unfolding keep_copy keep
keep_name msg len mem bytes username e1 e2 = rw (e1, e2) refl

load_fits : (mem : List ℕ) (n : ℕ) → n ≤ length mem → load mem 0 n ≡ some (take n mem)
unfolding load
load_fits mem n h = ground arith

-- A user name that fits its copy, whatever stands behind it in memory.
pub build_username :
    (msg : StunMessage) (type : ℕ) (id : List ℕ) (size : ℕ) (name rest : List ℕ)
    → IsBuilt msg type id size
    → padded (length name) ≤ 128
    → 3 ≤ length rest
    → size + (padded (length name) + 4) ≤ 256
    → Grows msg type id size attr_username (length name) (some (name ++ rest))
unfolding value_bytes
build_username msg type id size name rest b short more fits =
    let len = padded (length name) in
    let mem = name ++ rest in
    let (buf', appended, built) =
      grow_by msg type id size attr_username name b (omega arith) fits (λ a same_type same_value.
        inr (
          inl (
            same_type,
            omega (arith, ap (λ (xs : List ℕ). length xs) same_value, padded_bounds (length name)),
          ))) in
    let (username, copied, sized) = store_fits msg.username (take len mem) (
      omega (
        arith,
        length-take len mem,
        length-append name rest,
        padded_bounds (length name),
        b.name_size,
      )) in
    let small : u16 len ≡ len = omega arith in
    let before = grown msg (room name) buf' msg.username in
    (
      grown msg (room name) buf' username,
      write_by msg before (grown msg (room name) buf' username) attr_username (length name)
          (some mem) name (load-append name rest (length name) refl) appended
          (rw small (
            keep_name before len mem (take len mem) username
              (load_fits mem len
                (omega (arith, length-append name rest, padded_bounds (length name))))
              copied)),
      built username (omega (arith, sized, b.name_size)),
    )

-- An attribute of which the message keeps nothing, and that can be read.
pub build_skipped :
    (msg : StunMessage) (type : ℕ) (id : List ℕ) (size ty len : ℕ) (value : Option (List ℕ))
    (bytes : List ℕ)
    → IsBuilt msg type id size
    → ty < 2 ^ 16
    → IsSkipped ty
    → value_bytes value len ≡ some bytes
    → length bytes ≡ len
    → size + (padded len + 4) ≤ 256
    → Grows msg type id size ty len value
build_skipped msg type id size ty len value bytes b ty_fits skipped e same fits =
    let (_, name, _, realm, nonce, _, _, _) = skipped in
    rw (← same) (
      grow_unkept msg type id size ty bytes b ty_fits (rw same fits)
        (λ a same_type same_value. inl (rw same_type skipped)) value (name, realm, nonce)
        (rw same e))

-- An address, IPv4 or IPv6.
pub build_address :
    (msg : StunMessage) (type : ℕ) (id : List ℕ) (size len : ℕ) (value : Option (List ℕ))
    (bytes : List ℕ)
    → IsBuilt msg type id size
    → value_bytes value len ≡ some bytes
    → length bytes ≡ len
    → 8 ≤ length bytes
    → (get_or bytes 1 0 ≢ 2) ⊎ (20 ≤ length bytes)
    → size + (padded len + 4) ≤ 256
    → Grows msg type id size attr_xor_mapped_address len value
build_address msg type id size len value bytes b e same long family fits = rw (← same) (
    grow_unkept msg type id size attr_xor_mapped_address bytes b (omega arith) (rw same fits)
      (λ a same_type same_value.
        inr (inr (inr (inr (same_type, rw same_value long, rw same_value family)))))
      value (omega arith, omega arith, omega arith) (rw same e))

-- Another transaction.
pub set_id-IsWritten :
    (buf : List ℕ) (size type : ℕ) (id id' : List ℕ) (attrs : List Attr) (tail : List ℕ)
    → IsWritten buf size type id attrs tail
    → length id' ≡ 12
    → IsWritten (set_transaction_id buf id') size type id' attrs tail
unfolding set_transaction_id stun_header
set_id-IsWritten buf size type id id' attrs tail w named = record {
  layout = rw w.layout (
      ap (λ (xs : List ℕ). stun_header type (length (attrs_bytes attrs)) id' ++ xs)
        (drop-append_exact 12 id (attrs_bytes attrs ++ tail) (sym w.named)));
  counted = w.counted;
  whole = w.whole;
  named = named;
}
