-- ===== src/Stun/Parse.antt =====
-- stun_parse_msg_buf and stun_probe (src/stun.c).
use libpeer.Base.{
  ℕ, zero, suc, ◌+◌, ◌-◌, ◌==◌, if◌then◌else◌, ltb, Bool, not, ◌||◌, Option, none, some, List, ◌++◌,
  get_or, drop, replicate,
}
use libpeer.Base.Word.{be32, read16, read32}
use libpeer.Base.Memory.{store, load, refill, ◌>>=◌}
use libpeer.Stun.Message.{
  StunMessage, magic_cookie, header_type, header_length, transaction_id, stun_class, stun_method,
}
use libpeer.Stun.Mapped.{stun_get_mapped_address}
use libpeer.Stun.Write.{
  attr_mapped_address, attr_username, attr_message_integrity, attr_realm, attr_nonce,
  attr_xor_relayed_address, attr_xor_mapped_address, attr_fingerprint, padded,
}

-- The mask of the XOR attributes.
unfoldable pub xor_mask : List ℕ → List ℕ
xor_mask buf = be32 magic_cookie ++ transaction_id buf

-- The `switch` on the type of an attribute, `value` being the memory from its value on.
unfoldable pub parse_attr : StunMessage → ℕ → ℕ → List ℕ → Option StunMessage
parse_attr msg type len value =
    if type == attr_mapped_address
    then (do
      addr ← stun_get_mapped_address value (replicate 16 0) msg.mapped_addr
      some (record msg { mapped_addr = addr }))
    else if type == attr_username
    then (do
      bytes ← load value 0 len
      field ← refill 128 bytes
      some (record msg { username = field }))
    else if type == attr_message_integrity
    then (do
      bytes ← load value 0 len
      field ← store msg.message_integrity 0 bytes
      some (record msg { message_integrity = field }))
    else if type == attr_realm
    then (do bytes ← load value 0 len; field ← refill 64 bytes; some (record msg { realm = field }))
    else if type == attr_nonce
    then (do bytes ← load value 0 len; field ← refill 64 bytes; some (record msg { nonce = field }))
    else if type == attr_xor_relayed_address
    then (do
      addr ← stun_get_mapped_address value (xor_mask msg.buf) msg.relayed_addr
      some (record msg { relayed_addr = addr }))
    else if type == attr_xor_mapped_address
    then (do
      addr ← stun_get_mapped_address value (xor_mask msg.buf) msg.mapped_addr
      some (record msg { mapped_addr = addr }))
    else if type == attr_fingerprint
    then (do
      bytes ← load value 0 len
      field ← store msg.fingerprint 0 bytes
      some (record msg { fingerprint = field }))
    else some msg

-- The loop: `rest` is the memory from `pos` on, and `left` is length - pos. Each round takes four bytes or
-- more, so `left` rounds are enough; `none` is an access outside of `buf`.
unfoldable pub attr_loop : ℕ → StunMessage → List ℕ → ℕ → Option StunMessage
attr_loop fuel msg rest zero = some msg
attr_loop zero msg rest (suc left) = none
attr_loop (suc fuel) msg rest (suc left) = do
  head ← load rest 0 4
  let len = read16 (get_or head 2 0) (get_or head 3 0)
  msg' ← parse_attr msg (read16 (get_or head 0 0) (get_or head 1 0)) len (drop 4 rest)
  attr_loop fuel msg' (drop (padded len + 4) rest) (suc left - (padded len + 4))

-- stun_parse_msg_buf
unfoldable pub stun_parse_msg_buf : StunMessage → Option StunMessage
stun_parse_msg_buf msg =
    let length = header_length msg.buf in
    let type = header_type msg.buf in
    attr_loop length (record msg { stunclass = stun_class type; stunmethod = stun_method type })
      (drop 20 msg.buf) length

-- stun_probe: whether it returns 0.
unfoldable pub stun_probe : List ℕ → ℕ → Bool
stun_probe buf size = not (
    ltb size 20
    || not (
        read32 (get_or buf 4 0) (get_or buf 5 0) (get_or buf 6 0) (get_or buf 7 0) == magic_cookie))
