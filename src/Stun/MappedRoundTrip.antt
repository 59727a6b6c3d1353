-- ===== src/Stun/MappedRoundTrip.antt =====
-- stun_get_mapped_address finds the address that stun_set_mapped_address has written (src/stun.c).
use libpeer.Base.{
  ℕ, ◌/◌, ◌%◌, ◌^◌, ◌≤◌, ◌<◌, ◌≡◌, inl, inr, refl, sym, some, List, [], ◌∷◌, ◌++◌, length,
  length-append, length-take, take, drop, take-append_exact, arith, All, All-take, bit_xor,
}
use libpeer.Base.Word.{read16, IsByte, read16-be16}
use libpeer.Base.Xor.{bit_xor_twice}
use libpeer.Base.Memory.{load}
use libpeer.Address.{af_inet, af_inet6, Address, addr_set_family, addr_set_port}
use libpeer.Stun.Mapped.{
  xor_bytes, stun_set_mapped_address, stun_get_mapped_address, family_ipv4, family_ipv6,
}
use libpeer.Stun.MappedWrite.{
  mapped_bytes, set_ipv4_lem, set_ipv6_lem, IsAddress, Family-cases, length-xor_bytes,
}

xor_bytes_twice :
    (xs ys : List ℕ)
    → All IsByte xs
    → All IsByte ys
    → length xs ≤ length ys
    → xor_bytes (xor_bytes xs ys) ys ≡ xs
unfolding xor_bytes
xor_bytes_twice [] ys b c h = refl
xor_bytes_twice (x ∷ xs) [] b c h = absurd (omega arith)
xor_bytes_twice (x ∷ xs) (y ∷ ys) (b, bs) (c, cs) h =
    rw (bit_xor_twice 8 x y b c, xor_bytes_twice xs ys bs cs (omega arith)) refl

module _ (m0 m1 : ℕ) (ms : List ℕ) (other : Address) where
  abbrev mask : List ℕ
  mask = m0 ∷ m1 ∷ ms

  get_ipv4_by :
      (x p0 p1 : ℕ) (value bytes : List ℕ)
      → load value 0 4 ≡ some (x ∷ family_ipv4 ∷ p0 ∷ p1 ∷ [])
      → load value 4 4 ≡ some bytes
      → stun_get_mapped_address value mask other
        ≡ some (
            addr_set_port
              (record (addr_set_family other af_inet) { sin_addr = xor_bytes bytes (take 4 mask) })
              (read16 (bit_xor p0 m0) (bit_xor p1 m1)))
  unfolding stun_get_mapped_address xor_bytes
  get_ipv4_by x p0 p1 value bytes e1 e2 = rw (e1, e2) refl

  get_ipv6_by :
      (x p0 p1 : ℕ) (value bytes : List ℕ)
      → load value 0 4 ≡ some (x ∷ family_ipv6 ∷ p0 ∷ p1 ∷ [])
      → load value 4 16 ≡ some bytes
      → stun_get_mapped_address value mask other
        ≡ some (
            addr_set_port
              (record (addr_set_family other af_inet6) {
                sin6_addr = xor_bytes bytes (take 16 mask);
              })
              (read16 (bit_xor p0 m0) (bit_xor p1 m1)))
  unfolding stun_get_mapped_address xor_bytes
  get_ipv6_by x p0 p1 value bytes e1 e2 = rw (e1, e2) refl

load_four :
    (a b c d : ℕ) (xs ys : List ℕ) (n : ℕ)
    → length xs ≡ n
    → (load (a ∷ b ∷ c ∷ d ∷ (xs ++ ys)) 0 4 ≡ some (a ∷ b ∷ c ∷ d ∷ []))
      × (load (a ∷ b ∷ c ∷ d ∷ (xs ++ ys)) 4 n ≡ some xs)
unfolding load
load_four a b c d xs ys n e =
    let front : take n (xs ++ ys) ≡ xs = take-append_exact n xs ys (sym e) in
    (ground arith, ground (arith, front, length-append xs ys))

-- The bytes of the address of a family.
unfoldable pub ip : Address → List ℕ
ip addr = elim addr.family [ af_inet ↦ addr.sin_addr | af_inet6 ↦ addr.sin6_addr ]

-- What an address is read back as.
abbrev pub Restores : List ℕ → List ℕ → Address → Address → Type 0
Restores value mask addr other =
    (filled : List ℕ) × (size : ℕ) × (addr' : Address) × (stun_set_mapped_address value mask addr
      ≡ some (filled, size))
    × (stun_get_mapped_address filled mask other ≡ some addr')
    × (addr'.family ≡ addr.family)
    × (addr'.port ≡ addr.port)
    × (ip addr' ≡ ip addr)

module _ (x : ℕ) (rest : List ℕ) (m0 m1 : ℕ) (ms : List ℕ) (addr other : Address)
    (room : 19 ≤ length rest) (wide : 14 ≤ length ms) (masked : All IsByte (m0 ∷ m1 ∷ ms))
    (a : IsAddress addr) (small : addr.port < 2 ^ 16) where
  abbrev cover : List ℕ
  cover = m0 ∷ m1 ∷ ms

  abbrev p0 : ℕ
  p0 = bit_xor (addr.port / 2 ^ 8 % 2 ^ 8) m0

  abbrev p1 : ℕ
  p1 = bit_xor (addr.port % 2 ^ 8) m1

  abbrev hidden : List ℕ → List ℕ
  hidden bytes = xor_bytes bytes (take (length bytes) cover)

  mapped_cons :
      (bytes tail : List ℕ)
      → mapped_bytes cover addr.port bytes ++ tail ≡ p0 ∷ p1 ∷ (hidden bytes ++ tail)
  unfolding mapped_bytes xor_bytes
  mapped_cons bytes tail = refl

  port_back : read16 (bit_xor p0 m0) (bit_xor p1 m1) ≡ addr.port
  port_back =
      let (b0, bs) = masked in
      let (b1, _) = bs in
      rw
        (
          bit_xor_twice 8 (addr.port / 2 ^ 8 % 2 ^ 8) m0 (omega arith) b0,
          bit_xor_twice 8 (addr.port % 2 ^ 8) m1 (omega arith) b1,
        )
        (read16-be16 addr.port small)

  hidden_back :
      (bytes : List ℕ) (n : ℕ)
      → All IsByte bytes
      → length bytes ≡ n
      → n ≤ 16
      → (xor_bytes (hidden bytes) (take n cover) ≡ bytes) × (length (hidden bytes) ≡ n)
  hidden_back bytes n b e h = rw (← e) (
    xor_bytes_twice bytes (take (length bytes) cover) b
        (All-take IsByte (length bytes) cover masked)
        (omega (arith, length-take (length bytes) cover)),
    omega (
      arith,
      length-take (length bytes) cover,
      length-xor_bytes bytes (take (length bytes) cover),
    ),
  )

  mapped_ipv4 :
      addr.family ≡ af_inet → All IsByte addr.sin_addr → Restores (x ∷ rest) cover addr other
  unfolding addr_set_port addr_set_family ip
  mapped_ipv4 e b =
      let (back, long) = hidden_back addr.sin_addr 4 b a.four (omega arith) in
      let (head, body) =
        load_four x family_ipv4 p0 p1 (hidden addr.sin_addr) (drop 7 rest) 4 long in
      (
        x ∷ (family_ipv4 ∷ (p0 ∷ p1 ∷ (hidden addr.sin_addr ++ drop 7 rest))),
        8,
        _,
        rw (← mapped_cons addr.sin_addr (drop 7 rest))
            (set_ipv4_lem x rest cover addr e a.four (omega arith) room),
        get_ipv4_by m0 m1 ms other x p0 p1 _ (hidden addr.sin_addr) head body,
        sym e,
        port_back,
        rw e back,
      )

  mapped_ipv6 :
      addr.family ≡ af_inet6 → All IsByte addr.sin6_addr → Restores (x ∷ rest) cover addr other
  unfolding addr_set_port addr_set_family ip
  mapped_ipv6 e b =
      let (back, long) = hidden_back addr.sin6_addr 16 b a.sixteen (omega arith) in
      let (head, body) =
        load_four x family_ipv6 p0 p1 (hidden addr.sin6_addr) (drop 19 rest) 16 long in
      (
        x ∷ (family_ipv6 ∷ (p0 ∷ p1 ∷ (hidden addr.sin6_addr ++ drop 19 rest))),
        20,
        _,
        rw (← mapped_cons addr.sin6_addr (drop 19 rest))
            (set_ipv6_lem x rest cover addr e a.sixteen (omega arith) room),
        get_ipv6_by m0 m1 ms other x p0 p1 _ (hidden addr.sin6_addr) head body,
        sym e,
        port_back,
        rw e back,
      )

-- With a mask of 16 bytes or more and an array of 20 bytes or more, an address that is written is read
-- back with its family, its port and its bytes, whatever the array held and the address that is read over.
pub stun_get_mapped_address-stun_set_mapped_address :
    (value mask : List ℕ) (addr other : Address)
    → 20 ≤ length value
    → 16 ≤ length mask
    → All IsByte mask
    → IsAddress addr
    → addr.port < 2 ^ 16
    → All IsByte addr.sin_addr
    → All IsByte addr.sin6_addr
    → Restores value mask addr other
stun_get_mapped_address-stun_set_mapped_address [] mask addr other room wide masked a small b b' =
    absurd (omega arith)
stun_get_mapped_address-stun_set_mapped_address (x ∷ rest) [] addr other room wide masked a small b
      b' =
    absurd (omega arith)
stun_get_mapped_address-stun_set_mapped_address (x ∷ rest) (m0 ∷ []) addr other room wide masked a
      small b b' =
    absurd (omega arith)
stun_get_mapped_address-stun_set_mapped_address (x ∷ rest) (m0 ∷ m1 ∷ ms) addr other room wide
      masked a small b b' =
    elim (Family-cases addr.family) [
      | inl e ↦
          mapped_ipv4 x rest m0 m1 ms addr other (omega arith) (omega arith) masked a small e b
      | inr e ↦
          mapped_ipv6 x rest m0 m1 ms addr other (omega arith) (omega arith) masked a small e b'
    ]
