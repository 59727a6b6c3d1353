-- ===== src/Base/Memory.antt =====
-- Memory as the list of its bytes. `none` is an access outside the object, which C leaves undefined.
use Prim.Native.Nat.{ℕ, ◌+◌, ◌-◌, ◌≤◌}
use mathlib.Core.Path.{◌≡◌, refl}
use mathlib.Core.Option.{Option, none, some}
use mathlib.Core.List.{List, ◌++◌}
use native.Mathlib.Omega.{arith}
use mathlib.Core.Bool.{false}
use libpeer.Base.Tests.{ltb, if◌then◌else◌}
use libpeer.Base.Lists.{
  length, length-append, length-take, length-drop, take, drop, replicate, take-append_exact,
  drop-append_exact,
}
use mathlib.Core.List.{append_assoc}

-- memcpy into `mem` at the offset `at`
unfoldable pub store : List ℕ → ℕ → List ℕ → Option (List ℕ)
store mem at bytes =
    if ltb (length mem) (at + length bytes)
    then none
    else some (take at mem ++ (bytes ++ drop (at + length bytes) mem))

-- the `n` bytes of `mem` from the offset `at` on
unfoldable pub load : List ℕ → ℕ → ℕ → Option (List ℕ)
load mem at n = if ltb (length mem) (at + n) then none else some (take n (drop at mem))

-- A field is cleared and then written from its start.
unfoldable pub refill : ℕ → List ℕ → Option (List ℕ)
refill cap bytes =
    if ltb cap (length bytes) then none else some (bytes ++ replicate (cap - length bytes) 0)

-- Bind on what may be undefined.
infixl 5 ◌>>=◌
abbrev pub ◌>>=◌ {ℓ κ} : {A : Type ℓ} {B : Type κ} → Option A → (A → Option B) → Option B
none >>= f = none
(some a) >>= f = f a

-- Writing over the middle of three parts, and reading the first of two.
pub store-append :
    (xs ys zs bytes : List ℕ) (at : ℕ)
    → at ≡ length xs
    → length bytes ≡ length ys
    → store (xs ++ (ys ++ zs)) at bytes ≡ some (xs ++ (bytes ++ zs))
unfolding store
store-append xs ys zs bytes at e same =
    let front : take at (xs ++ (ys ++ zs)) ≡ xs = take-append_exact at xs (ys ++ zs) e in
    let back : drop (at + length bytes) (xs ++ (ys ++ zs)) ≡ zs =
      rw (← append_assoc xs ys zs) (
        drop-append_exact (at + length bytes) (xs ++ ys) zs (omega (arith, length-append xs ys))) in
    ground (arith, front, back, length-append xs (ys ++ zs), length-append ys zs)

pub load-append : (xs ys : List ℕ) (n : ℕ) → n ≡ length xs → load (xs ++ ys) 0 n ≡ some xs
unfolding load
load-append xs ys n e =
    let front : take n (xs ++ ys) ≡ xs = take-append_exact n xs ys e in
    ground (arith, front, length-append xs ys)

pub load-middle :
    (xs ys zs : List ℕ) (at n : ℕ)
    → at ≡ length xs
    → n ≡ length ys
    → load (xs ++ (ys ++ zs)) at n ≡ some ys
unfolding load
load-middle xs ys zs at n e same =
    let behind : drop at (xs ++ (ys ++ zs)) ≡ ys ++ zs = drop-append_exact at xs (ys ++ zs) e in
    let front : take n (ys ++ zs) ≡ ys = take-append_exact n ys zs same in
    ground (arith, behind, front, length-append xs (ys ++ zs), length-append ys zs)

-- A write that fits leaves the size.
pub store_fits :
    (mem bytes : List ℕ) (at : ℕ)
    → at + length bytes ≤ length mem
    → (mem' : List ℕ) × (store mem at bytes ≡ some mem') × (length mem' ≡ length mem)
unfolding store
store_fits mem bytes at h =
    let mem' = take at mem ++ (bytes ++ drop (at + length bytes) mem) in
    let fits : ltb (length mem) (at + length bytes) ≡ false = ground arith in
    (
      mem',
      rw fits refl,
      omega (
        arith,
        length-append (take at mem) (bytes ++ drop (at + length bytes) mem),
        length-append bytes (drop (at + length bytes) mem),
        length-take at mem,
        length-drop (at + length bytes) mem,
      ),
    )
