-- ===== src/Stun/MappedWrite.antt =====
-- What stun_set_mapped_address writes (src/stun.c).
use libpeer.Base.{
  ℕ, ◌+◌, ◌≤◌, ◌≡◌, ◌⊎◌, inl, inr, refl, some, List, [], ◌∷◌, ◌++◌, length, length-append,
  length-take, take, drop, min, arith,
}
use libpeer.Base.Word.{be16}
use libpeer.Base.Memory.{store}
use libpeer.Address.{Family, af_inet, af_inet6, Address}
use libpeer.Stun.Mapped.{xor_bytes, stun_set_mapped_address, family_ipv4, family_ipv6}

pub length-xor_bytes : (xs ys : List ℕ) → length (xor_bytes xs ys) ≡ min (length xs) (length ys)
unfolding xor_bytes
length-xor_bytes [] ys = omega arith
length-xor_bytes (x ∷ xs) [] = omega arith
length-xor_bytes (x ∷ xs) (y ∷ ys) = omega (arith, length-xor_bytes xs ys)

-- What is written fits an array of 20 bytes or more, and begins with the byte that was there.
store_behind :
    (x : ℕ) (rest bytes : List ℕ) (n : ℕ)
    → length bytes ≡ n
    → n ≤ length rest
    → store (x ∷ rest) 1 bytes ≡ some (x ∷ (bytes ++ drop n rest))
unfolding store
store_behind x rest bytes n e h = ground arith

-- The port and the address behind the family.
unfoldable pub mapped_bytes : List ℕ → ℕ → List ℕ → List ℕ
mapped_bytes mask port addr =
    xor_bytes (be16 port) (take 2 mask) ++ xor_bytes addr (take (length addr) mask)

pub length-mapped_bytes :
    (mask : List ℕ) (port : ℕ) (addr : List ℕ)
    → length addr ≤ length mask
    → 2 ≤ length mask
    → length (mapped_bytes mask port addr) ≡ 2 + length addr
unfolding mapped_bytes
length-mapped_bytes mask port addr h two = omega (
  arith,
  length-append (xor_bytes (be16 port) (take 2 mask)) (xor_bytes addr (take (length addr) mask)),
  length-xor_bytes (be16 port) (take 2 mask),
  length-xor_bytes addr (take (length addr) mask),
  length-take 2 mask,
  length-take (length addr) mask,
)

set_ipv4_by :
    (mem mask filled : List ℕ) (addr : Address)
    → addr.family ≡ af_inet
    → length addr.sin_addr ≡ 4
    → store mem 1 (family_ipv4 ∷ mapped_bytes mask addr.port addr.sin_addr) ≡ some filled
    → stun_set_mapped_address mem mask addr ≡ some (filled, 8)
unfolding stun_set_mapped_address mapped_bytes
set_ipv4_by mem mask filled addr e four stored = rw (e, ← four, stored) refl

set_ipv6_by :
    (mem mask filled : List ℕ) (addr : Address)
    → addr.family ≡ af_inet6
    → length addr.sin6_addr ≡ 16
    → store mem 1 (family_ipv6 ∷ mapped_bytes mask addr.port addr.sin6_addr) ≡ some filled
    → stun_set_mapped_address mem mask addr ≡ some (filled, 20)
unfolding stun_set_mapped_address mapped_bytes
set_ipv6_by mem mask filled addr e sixteen stored = rw (e, ← sixteen, stored) refl

module _ (x : ℕ) (rest mask : List ℕ) (addr : Address) where
  pub set_ipv4_lem :
      addr.family ≡ af_inet
      → length addr.sin_addr ≡ 4
      → 16 ≤ length mask
      → 19 ≤ length rest
      → stun_set_mapped_address (x ∷ rest) mask addr
        ≡ some (x ∷ (family_ipv4 ∷ (mapped_bytes mask addr.port addr.sin_addr ++ drop 7 rest)), 8)
  set_ipv4_lem e four wide room = set_ipv4_by (x ∷ rest) mask _ addr e four (
      store_behind x rest (family_ipv4 ∷ mapped_bytes mask addr.port addr.sin_addr) 7
        (omega
          (arith, length-mapped_bytes mask addr.port addr.sin_addr (omega arith) (omega arith)))
        (omega arith))

  pub set_ipv6_lem :
      addr.family ≡ af_inet6
      → length addr.sin6_addr ≡ 16
      → 16 ≤ length mask
      → 19 ≤ length rest
      → stun_set_mapped_address (x ∷ rest) mask addr
        ≡ some
            (x ∷ (family_ipv6 ∷ (mapped_bytes mask addr.port addr.sin6_addr ++ drop 19 rest)), 20)
  set_ipv6_lem e sixteen wide room = set_ipv6_by (x ∷ rest) mask _ addr e sixteen (
      store_behind x rest (family_ipv6 ∷ mapped_bytes mask addr.port addr.sin6_addr) 19
        (omega
          (arith, length-mapped_bytes mask addr.port addr.sin6_addr (omega arith) (omega arith)))
        (omega arith))

-- A socket address as it lies in memory, of either family.
pub record IsAddress (addr : Address) : Type 0 where
  pub four : length addr.sin_addr ≡ 4
  pub sixteen : length addr.sin6_addr ≡ 16

pub Family-cases : (f : Family) → (f ≡ af_inet) ⊎ (f ≡ af_inet6)
Family-cases af_inet = inl refl
Family-cases af_inet6 = inr refl

-- The sizes of the address in an attribute.
pub set_mapped_lem :
    (x : ℕ) (rest mask : List ℕ) (addr : Address)
    → 19 ≤ length rest
    → 16 ≤ length mask
    → IsAddress addr
    → (family : ℕ) × (bytes rest' : List ℕ) × (size : ℕ) × (stun_set_mapped_address
          (x ∷ rest)
          mask
          addr
        ≡ some (x ∷ (family ∷ (bytes ++ rest')), size))
      × (length bytes + 2 ≡ size)
      × (((family ≡ family_ipv4) × (size ≡ 8)) ⊎ (size ≡ 20))
set_mapped_lem x rest mask addr room wide a = elim (Family-cases addr.family) [
  | inl e ↦ (
    family_ipv4,
    mapped_bytes mask addr.port addr.sin_addr,
    drop 7 rest,
    8,
    set_ipv4_lem x rest mask addr e a.four wide room,
    omega (
      arith,
      length-mapped_bytes mask addr.port addr.sin_addr (omega (arith, a.four)) (omega arith),
      a.four,
    ),
    inl (refl, refl),
  )
  | inr e ↦ (
    family_ipv6,
    mapped_bytes mask addr.port addr.sin6_addr,
    drop 19 rest,
    20,
    set_ipv6_lem x rest mask addr e a.sixteen wide room,
    omega (
      arith,
      length-mapped_bytes mask addr.port addr.sin6_addr (omega (arith, a.sixteen)) (omega arith),
      a.sixteen,
    ),
    inr refl,
  )
]
