-- ===== src/Stun/Valid.antt =====
-- stun_msg_is_valid (src/stun.c).
use libpeer.Base.{
  ℕ, ◌+◌, ◌-◌, ◌^◌, ◌==◌, if◌then◌else◌, ltb, Bool, true, false, ◌&&◌, Option, none, some, List, [],
  ◌∷◌, length,
}
use libpeer.Base.Word.{u16}
use libpeer.Base.Memory.{store, load, ◌>>=◌}
use libpeer.Stun.Message.{StunMessage, header_length, set_header_length}
use libpeer.Stun.Fingerprint.{stun_calculate_fingerprint}
use libpeer.Stun.Write.{c_string}
use libpeer.Stun.Parse.{stun_parse_msg_buf}

-- memcmp
unfoldable pub equal_bytes : List ℕ → List ℕ → Bool
equal_bytes [] [] = true
equal_bytes (x ∷ xs) (y ∷ ys) = x == y && equal_bytes xs ys
equal_bytes _ _ = false

module _ (hmac_sha1 : List ℕ → List ℕ → List ℕ) where
  -- The check of MESSAGE-INTEGRITY: the header no longer counts FINGERPRINT.
  unfoldable pub integrity_holds : StunMessage → ℕ → List ℕ → Option Bool
  integrity_holds msg length password = do
    let uncounted = set_header_length msg.buf (u16 (header_length msg.buf + 2 ^ 16 - 4 - 4))
    covered ← load uncounted 0 (length - 20 - 4)
    some (equal_bytes (hmac_sha1 (c_string password) covered) msg.message_integrity)

  -- stun_msg_is_valid: whether it returns 0. `uninitialized` is what its local message holds. A size below
  -- 32 wraps around to a length that no buffer has.
  unfoldable pub stun_msg_is_valid : StunMessage → List ℕ → ℕ → List ℕ → Option Bool
  stun_msg_is_valid uninitialized buf size password = do
    bytes ← load buf 0 size
    buf' ← store uninitialized.buf 0 bytes
    msg ← stun_parse_msg_buf (record uninitialized { buf = buf' })
    if ltb size 8 then none else (do
      covered ← load msg.buf 0 (size - 4 - 4)
      if equal_bytes (stun_calculate_fingerprint covered) msg.fingerprint
          then (if ltb size 32 then none else integrity_holds msg (size - 4 - 4) password)
          else some false)
