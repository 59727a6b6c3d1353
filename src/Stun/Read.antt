-- ===== src/Stun/Read.antt =====
-- What stun_parse_msg_buf does with attributes that fit where it copies them (src/stun.c).
use libpeer.Base.{
  ℕ, ◌+◌, ◌-◌, ◌≤◌, ◌≡◌, ◌≢◌, ◌⊎◌, inl, inr, refl, ◌∙◌, some, List, [], ◌∷◌, ◌++◌, length,
  length-append, append-nil, arith, get_or, take, drop, replicate, ℕ_discrete, Option-cases,
}
use libpeer.Base.Memory.{store, load, refill, store-append, load-append}
use libpeer.Address.{Address}
use libpeer.Stun.Message.{StunMessage}
use libpeer.Stun.Mapped.{stun_get_mapped_address}
use libpeer.Stun.Write.{
  attr_mapped_address, attr_username, attr_message_integrity, attr_realm, attr_nonce,
  attr_xor_relayed_address, attr_xor_mapped_address, attr_fingerprint,
}
use libpeer.Stun.Parse.{parse_attr, xor_mask}
use libpeer.Stun.Written.{Attr}

-- The types that are not copied anywhere.
abbrev pub IsSkipped : ℕ → Type 0
IsSkipped type =
    (type ≢ attr_mapped_address)
    × (type ≢ attr_username)
    × (type ≢ attr_message_integrity)
    × (type ≢ attr_realm)
    × (type ≢ attr_nonce)
    × (type ≢ attr_xor_relayed_address)
    × (type ≢ attr_xor_mapped_address)
    × (type ≢ attr_fingerprint)

-- A value that fits where it is copied: it is not copied, a string, or an IPv4 or IPv6 address.
abbrev pub IsReadable : Attr → Type 0
IsReadable a =
    IsSkipped a.type
    ⊎ (((a.type ≡ attr_username) × (length a.value ≤ 128))
        ⊎ (((a.type ≡ attr_realm) × (length a.value ≤ 64))
            ⊎ (((a.type ≡ attr_nonce) × (length a.value ≤ 64))
                ⊎ ((a.type ≡ attr_xor_mapped_address)
                    × (8 ≤ length a.value)
                    × ((get_or a.value 1 0 ≢ 2) ⊎ (20 ≤ length a.value))))))

-- What parsing an attribute leaves as it was.
pub record IsKept (msg msg' : StunMessage) : Type 0 where
  pub same_buf : msg'.buf ≡ msg.buf
  pub same_size : msg'.size ≡ msg.size
  pub same_class : msg'.stunclass ≡ msg.stunclass
  pub same_method : msg'.stunmethod ≡ msg.stunmethod
  pub code_size : length msg'.message_integrity ≡ length msg.message_integrity
  pub print_size : length msg'.fingerprint ≡ length msg.fingerprint

keeps :
    {msg msg' : StunMessage}
    → msg'.buf ≡ msg.buf
    → msg'.size ≡ msg.size
    → msg'.stunclass ≡ msg.stunclass
    → msg'.stunmethod ≡ msg.stunmethod
    → length msg'.message_integrity ≡ length msg.message_integrity
    → length msg'.fingerprint ≡ length msg.fingerprint
    → IsKept msg msg'
keeps a s b c d e = record {
  same_buf = a;
  same_size = s;
  same_class = b;
  same_method = c;
  code_size = d;
  print_size = e;
}

pub IsKept-refl : (msg : StunMessage) → IsKept msg msg
IsKept-refl msg = record {
  same_buf = refl;
  same_size = refl;
  same_class = refl;
  same_method = refl;
  code_size = refl;
  print_size = refl;
}

pub IsKept-trans : (a b c : StunMessage) → IsKept a b → IsKept b c → IsKept a c
IsKept-trans a b c h k = record {
  same_buf = k.same_buf ∙ h.same_buf;
  same_size = k.same_size ∙ h.same_size;
  same_class = k.same_class ∙ h.same_class;
  same_method = k.same_method ∙ h.same_method;
  code_size = k.code_size ∙ h.code_size;
  print_size = k.print_size ∙ h.print_size;
}

load_front :
    (xs ys : List ℕ) (n : ℕ) → n ≤ length xs → (zs : List ℕ) × (load (xs ++ ys) 0 n ≡ some zs)
unfolding load
load_front xs ys n h =
    let long : n ≤ length (xs ++ ys) = omega (arith, length-append xs ys) in
    (take n (xs ++ ys), ground (arith, long))

load_at :
    (xs ys : List ℕ) (at n : ℕ)
    → at + n ≤ length xs
    → (zs : List ℕ) × (load (xs ++ ys) at n ≡ some zs)
unfolding load
load_at xs ys at n h =
    let long : at + n ≤ length (xs ++ ys) = omega (arith, length-append xs ys) in
    (take n (drop at (xs ++ ys)), ground (arith, long))

refill_fits : (cap : ℕ) (xs : List ℕ) → length xs ≤ cap → (ys : List ℕ) × (refill cap xs ≡ some ys)
unfolding refill
refill_fits cap xs h = (xs ++ replicate (cap - length xs) 0, ground arith)

module _ (msg : StunMessage) (value rest : List ℕ) where
  abbrev Parses : ℕ → ℕ → Type 0
  Parses type len =
      (msg' : StunMessage) × (parse_attr msg type len (value ++ rest) ≡ some msg') × IsKept msg msg'

  parse_skipped :
      (type len : ℕ) → IsSkipped type → parse_attr msg type len (value ++ rest) ≡ some msg
  unfolding parse_attr
  parse_skipped type len h = ground arith

  parse_username : length value ≤ 128 → Parses attr_username (length value)
  unfolding parse_attr
  parse_username h =
      let (field, e) = refill_fits 128 value h in
      (
        record msg { username = field },
        rw (load-append value rest (length value) refl, e) refl,
        keeps refl refl refl refl refl refl,
      )

  parse_realm : length value ≤ 64 → Parses attr_realm (length value)
  unfolding parse_attr
  parse_realm h =
      let (field, e) = refill_fits 64 value h in
      (
        record msg { realm = field },
        rw (load-append value rest (length value) refl, e) refl,
        keeps refl refl refl refl refl refl,
      )

  parse_nonce : length value ≤ 64 → Parses attr_nonce (length value)
  unfolding parse_attr
  parse_nonce h =
      let (field, e) = refill_fits 64 value h in
      (
        record msg { nonce = field },
        rw (load-append value rest (length value) refl, e) refl,
        keeps refl refl refl refl refl refl,
      )

store_whole : (old new : List ℕ) → length new ≡ length old → store old 0 new ≡ some new
store_whole old new same =
    rw (append-nil old, append-nil new) at (store-append [] old [] new 0 refl same)

-- An address of either family.
address_read :
    (value rest mask : List ℕ) (addr : Address)
    → 8 ≤ length value
    → (get_or value 1 0 ≢ 2) ⊎ (20 ≤ length value)
    → (addr' : Address) × (stun_get_mapped_address (value ++ rest) mask addr ≡ some addr')
unfolding stun_get_mapped_address
address_read [] rest mask addr h k = absurd (omega arith)
address_read (a ∷ []) rest mask addr h k = absurd (omega arith)
address_read (a ∷ b ∷ value) rest mask addr h k =
    let (head, e) = load_front (a ∷ b ∷ value) rest 4 (omega arith) in
    let same : get_or head 1 0 ≡ b = unfold load in ground (arith, e) in
    elim (Option-cases (stun_get_mapped_address (a ∷ b ∷ (value ++ rest)) mask addr)) [
      | inr found ↦ found
      | inl stuck ↦ elim (ℕ_discrete b 2) [
        | yes six ↦
            let (bytes, f) = load_at (a ∷ b ∷ value) rest 4 16 (ground arith) in
            absurd (ground (arith, e, same, six, f, stuck))
        | no four ↦
            let (bytes, f) = load_at (a ∷ b ∷ value) rest 4 4 (omega arith) in
            absurd (ground (arith, e, same, four, f, stuck))
      ]
    ]

module _ (msg : StunMessage) (value rest : List ℕ) where
  parse_address :
      8 ≤ length value
      → (get_or value 1 0 ≢ 2) ⊎ (20 ≤ length value)
      → Parses msg value rest attr_xor_mapped_address (length value)
  unfolding parse_attr
  parse_address h k =
      let (addr, e) = address_read value rest (xor_mask msg.buf) msg.mapped_addr h k in
      (record msg { mapped_addr = addr }, rw e refl, keeps refl refl refl refl refl refl)

  -- The code and the fingerprint are copied whole.
  pub parse_integrity :
      length value ≡ length msg.message_integrity
      → parse_attr msg attr_message_integrity (length value) (value ++ rest)
        ≡ some (record msg { message_integrity = value })
  unfolding parse_attr
  parse_integrity same =
      rw (load-append value rest (length value) refl, store_whole msg.message_integrity value same)
        refl

  pub parse_fingerprint :
      length value ≡ length msg.fingerprint
      → parse_attr msg attr_fingerprint (length value) (value ++ rest)
        ≡ some (record msg { fingerprint = value })
  unfolding parse_attr
  parse_fingerprint same =
      rw (load-append value rest (length value) refl, store_whole msg.fingerprint value same) refl

pub parse_readable :
    (msg : StunMessage) (a : Attr) (rest : List ℕ)
    → IsReadable a
    → Parses msg a.value rest a.type (length a.value)
parse_readable msg a rest (inl skipped) =
    (msg, parse_skipped msg a.value rest a.type (length a.value) skipped, IsKept-refl msg)
parse_readable msg a rest (inr (inl (e, fits))) = rw e (parse_username msg a.value rest fits)
parse_readable msg a rest (inr (inr (inl (e, fits)))) = rw e (parse_realm msg a.value rest fits)
parse_readable msg a rest (inr (inr (inr (inl (e, fits))))) =
    rw e (parse_nonce msg a.value rest fits)
parse_readable msg a rest (inr (inr (inr (inr (e, h, k))))) =
    rw e (parse_address msg a.value rest h k)
