-- ===== src/Stun/Write.antt =====
-- stun_msg_write_attr and stun_msg_finish (src/stun.c).
use libpeer.Base.{
  ℕ, zero, suc, ◌+◌, ◌*◌, ◌/◌, ◌==◌, if◌then◌else◌, Option, none, some, List, [], ◌∷◌, ◌++◌, length,
  take,
}
use libpeer.Base.Word.{be16, u16}
use libpeer.Base.Memory.{store, load, ◌>>=◌}
use libpeer.Stun.Message.{StunMessage, header_length, set_header_length}
use libpeer.Stun.Fingerprint.{stun_calculate_fingerprint}

-- The members of StunAttrType that the code looks at.
abbrev pub attr_mapped_address : ℕ
attr_mapped_address = 0x0001

abbrev pub attr_username : ℕ
attr_username = 0x0006

abbrev pub attr_message_integrity : ℕ
attr_message_integrity = 0x0008

abbrev pub attr_realm : ℕ
attr_realm = 0x0014

abbrev pub attr_nonce : ℕ
attr_nonce = 0x0015

abbrev pub attr_xor_relayed_address : ℕ
attr_xor_relayed_address = 0x0016

abbrev pub attr_xor_mapped_address : ℕ
attr_xor_mapped_address = 0x0020

abbrev pub attr_fingerprint : ℕ
attr_fingerprint = 0x8028

-- 4 * ((length + 3) / 4)
unfoldable pub padded : ℕ → ℕ
padded length = 4 * ((length + 3) / 4)

-- `value` is the memory from the pointer on, `none` for a null pointer, of which nothing is copied into
-- the attribute; `length` bytes of it are the value.
unfoldable pub value_bytes : Option (List ℕ) → ℕ → Option (List ℕ)
value_bytes none length = some []
value_bytes (some value) length = load value 0 length

-- The copy that the message keeps of a realm, a nonce or a user name: the padded length is copied.
unfoldable pub keep : Option (List ℕ) → ℕ → List ℕ → Option (List ℕ)
keep none length field = none
keep (some value) length field = do bytes ← load value 0 length; store field 0 bytes

unfoldable pub keep_copy : StunMessage → ℕ → ℕ → Option (List ℕ) → Option StunMessage
keep_copy msg type length value =
    if type == attr_realm
    then (do realm' ← keep value length msg.realm; some (record msg { realm = realm' }))
    else if type == attr_nonce
    then (do nonce' ← keep value length msg.nonce; some (record msg { nonce = nonce' }))
    else if type == attr_username
    then (do username' ← keep value length msg.username; some (record msg { username = username' }))
    else some msg

-- The bytes of an attribute go behind the message, the length in the header counts its padding.
unfoldable pub append_attr : StunMessage → ℕ → ℕ → List ℕ → Option StunMessage
append_attr msg type length bytes = do
  buf' ← store msg.buf msg.size (be16 type ++ (be16 length ++ bytes))
  some (record msg {
    buf = set_header_length buf' (u16 (header_length buf' + 4 + u16 (padded length)));
    size = msg.size + u16 (padded length) + 4;
  })

-- stun_msg_write_attr; its value is always 0.
unfoldable pub stun_msg_write_attr : StunMessage → ℕ → ℕ → Option (List ℕ) → Option StunMessage
stun_msg_write_attr msg type length value = do
  bytes ← value_bytes value length
  msg' ← append_attr msg type length bytes
  keep_copy msg' type (u16 (padded length)) value

-- An array of characters as a C string: the bytes in front of the first zero.
unfoldable pub c_string : List ℕ → List ℕ
c_string [] = []
c_string (zero ∷ bytes) = []
c_string (suc b ∷ bytes) = suc b ∷ c_string bytes

pub data StunCredential : Type 0 where
  short_term long_term : StunCredential

-- utils_get_md5 and utils_get_hmac_sha1 call mbedtls: a digest of 16 bytes, and a code of 20 bytes of a
-- message under a key.
module _ (md5 : List ℕ → List ℕ) (hmac_sha1 : List ℕ → List ℕ → List ℕ) where
  -- The key of the code. The string of a long-term credential is cut off at 255 characters.
  unfoldable pub integrity_key : StunMessage → StunCredential → List ℕ → List ℕ
  integrity_key msg short_term password = password
  integrity_key msg long_term password =
      md5 (
        take 255 (c_string msg.username ++ (58 ∷ (c_string msg.realm ++ (58 ∷ c_string password)))))

  -- MESSAGE-INTEGRITY: the header counts it already when the code is taken of what stands before it.
  unfoldable pub append_integrity : StunMessage → List ℕ → ℕ → Option StunMessage
  append_integrity msg key header_length = do
    let counted = set_header_length msg.buf (u16 (header_length + 24))
    code ← load counted 0 msg.size
    buf' ← store counted msg.size (be16 attr_message_integrity ++ (be16 20 ++ hmac_sha1 key code))
    some (record msg { buf = buf'; size = msg.size + 4 + 20 })

  -- FINGERPRINT, over all that stands before it.
  unfoldable pub append_fingerprint : StunMessage → ℕ → Option StunMessage
  append_fingerprint msg header_length = do
    let counted = set_header_length msg.buf (u16 (header_length + 24 + 8))
    covered ← load counted 0 msg.size
    buf' ←
        store counted msg.size
          (be16 attr_fingerprint ++ (be16 4 ++ stun_calculate_fingerprint covered))
    some (record msg { buf = buf'; size = msg.size + 4 + 4 })

  -- stun_msg_finish; its value is always 0.
  unfoldable pub stun_msg_finish : StunMessage → StunCredential → List ℕ → Option StunMessage
  stun_msg_finish msg credential password = do
    let length = header_length msg.buf
    msg' ← append_integrity msg (integrity_key msg credential password) length
    append_fingerprint msg' length
