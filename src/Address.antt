-- ===== src/Address.antt =====
-- src/address.h and src/address.c: struct Address and its setters.
use libpeer.Base.{ℕ, List}
use libpeer.Base.Word.{be16}

pub data Family : Type 0 where
  af_inet af_inet6 : Family

-- The `s_addr` and the `sin6_addr` of the two socket addresses, and their ports, as they lie in memory.
pub record Address : Type 0 where
  pub family : Family
  pub sin_addr : List ℕ
  pub sin_port : List ℕ
  pub sin6_addr : List ℕ
  pub sin6_port : List ℕ
  pub port : ℕ

-- addr_set_family
unfoldable pub addr_set_family : Address → Family → Address
addr_set_family addr family = record addr { family = family }

-- addr_set_port
unfoldable pub addr_set_port : Address → ℕ → Address
addr_set_port addr port = elim addr.family [
  | af_inet6 ↦ record addr { port = port; sin6_port = be16 port }
  | af_inet ↦ record addr { port = port; sin_port = be16 port }
]
