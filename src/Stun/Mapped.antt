-- ===== src/Stun/Mapped.antt =====
-- stun_set_mapped_address and stun_get_mapped_address (src/stun.c).
use libpeer.Base.{
  ℕ, ◌==◌, if◌then◌else◌, Option, some, List, [], ◌∷◌, ◌++◌, get_or, take, drop, bit_xor,
}
use libpeer.Base.Word.{be16, read16}
use libpeer.Base.Memory.{store, load, ◌>>=◌}
use libpeer.Address.{af_inet, af_inet6, Address, addr_set_family, addr_set_port}

-- StunFamily
abbrev pub family_ipv4 : ℕ
family_ipv4 = 0x01

abbrev pub family_ipv6 : ℕ
family_ipv6 = 0x02

-- The words of two arrays are combined byte by byte, whatever the order of bytes in a word.
unfoldable pub xor_bytes : List ℕ → List ℕ → List ℕ
xor_bytes [] ys = []
xor_bytes (x ∷ xs) [] = []
xor_bytes (x ∷ xs) (y ∷ ys) = bit_xor x y ∷ xor_bytes xs ys

-- stun_set_mapped_address: the memory `value` when it is done, and the size returned.
unfoldable pub stun_set_mapped_address : List ℕ → List ℕ → Address → Option (List ℕ × ℕ)
stun_set_mapped_address value mask addr =
    let port = xor_bytes (be16 addr.port) (take 2 mask) in
    elim addr.family [
      | af_inet6 ↦ do
        filled ← store value 1 (family_ipv6 ∷ (port ++ xor_bytes addr.sin6_addr (take 16 mask)))
        some (filled, 20)
      | af_inet ↦ do
        filled ← store value 1 (family_ipv4 ∷ (port ++ xor_bytes addr.sin_addr (take 4 mask)))
        some (filled, 8)
    ]

-- stun_get_mapped_address on the memory `value`.
unfoldable pub stun_get_mapped_address : List ℕ → List ℕ → Address → Option Address
stun_get_mapped_address value mask addr = do
  head ← load value 0 4
  let port = xor_bytes (take 2 (drop 2 head)) (take 2 mask)
  let number = read16 (get_or port 0 0) (get_or port 1 0)
  if get_or head 1 0 == family_ipv6
      then (do
        bytes ← load value 4 16
        some (
            addr_set_port
              (record (addr_set_family addr af_inet6) {
                sin6_addr = xor_bytes bytes (take 16 mask);
              })
              number))
      else (do
        bytes ← load value 4 4
        some (
            addr_set_port
              (record (addr_set_family addr af_inet) { sin_addr = xor_bytes bytes (take 4 mask) })
              number))
