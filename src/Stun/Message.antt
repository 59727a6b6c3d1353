-- ===== src/Stun/Message.antt =====
-- struct StunHeader, struct StunMessage and stun_msg_create (src/stun.h, src/stun.c).
use libpeer.Base.{ℕ, ◌==◌, if◌then◌else◌, List, ◌++◌, get_or, take, drop, bit_and}
use libpeer.Base.Word.{be16, be32, read16}
use libpeer.Address.{Address}

abbrev pub magic_cookie : ℕ
magic_cookie = 0x2112a442

-- StunClass
abbrev pub class_request : ℕ
class_request = 0x0000

abbrev pub class_indication : ℕ
class_indication = 0x0010

abbrev pub class_response : ℕ
class_response = 0x0100

abbrev pub class_error : ℕ
class_error = 0x0110

-- StunMethod
abbrev pub method_binding : ℕ
method_binding = 0x0001

abbrev pub method_allocate : ℕ
method_allocate = 0x0003

-- STUN_ATTR_BUF_SIZE
abbrev pub attr_buf_size : ℕ
attr_buf_size = 256

-- struct StunMessage: `fingerprint` and the character arrays as the bytes in memory, `buf` all of its
-- 256 bytes.
pub record StunMessage : Type 0 where
  pub stunclass : ℕ
  pub stunmethod : ℕ
  pub fingerprint : List ℕ
  pub message_integrity : List ℕ
  pub username : List ℕ
  pub realm : List ℕ
  pub nonce : List ℕ
  pub mapped_addr : Address
  pub relayed_addr : Address
  pub buf : List ℕ
  pub size : ℕ

-- The bytes of struct StunHeader.
unfoldable pub stun_header : ℕ → ℕ → List ℕ → List ℕ
stun_header type length transaction_id =
    be16 type ++ (be16 length ++ (be32 magic_cookie ++ transaction_id))

-- The fields of a header in memory.
unfoldable pub header_type : List ℕ → ℕ
header_type buf = read16 (get_or buf 0 0) (get_or buf 1 0)

unfoldable pub header_length : List ℕ → ℕ
header_length buf = read16 (get_or buf 2 0) (get_or buf 3 0)

unfoldable pub transaction_id : List ℕ → List ℕ
transaction_id buf = take 12 (drop 8 buf)

unfoldable pub set_header_length : List ℕ → ℕ → List ℕ
set_header_length buf length = take 2 buf ++ (be16 length ++ drop 4 buf)

unfoldable pub set_transaction_id : List ℕ → List ℕ → List ℕ
set_transaction_id buf id = take 8 buf ++ (id ++ drop 20 buf)

-- htonl of CRC32_TABLE[1], CRC32_TABLE[2] and CRC32_TABLE[3]
abbrev pub default_id : List ℕ
default_id = be32 0x77073096 ++ (be32 0xee0e612c ++ be32 0x990951ba)

-- stun_msg_create
unfoldable pub stun_msg_create : StunMessage → ℕ → StunMessage
stun_msg_create msg type = record msg {
  buf = stun_header type 0 default_id ++ drop 20 msg.buf;
  size = 20;
}

-- The class and the method of a message type, as stun_parse_msg_buf reads them.
unfoldable pub stun_class : ℕ → ℕ
stun_class type =
    if bit_and type class_error == class_error
    then class_error
    else if bit_and type class_indication == class_indication
    then class_indication
    else if bit_and type class_response == class_response
    then class_response
    else class_request

unfoldable pub stun_method : ℕ → ℕ
stun_method type =
    let method = bit_and type 0x0fff in
    if bit_and method method_allocate == method_allocate
    then method_allocate
    else if bit_and method method_binding == method_binding
    then method_binding
    else method
