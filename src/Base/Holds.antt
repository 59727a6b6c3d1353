-- ===== src/Base/Holds.antt =====
-- A property of the value that an optional result may have, along the ways it is computed.
use mathlib.Core.Path.{◌≡◌}
use mathlib.Core.Bool.{Bool, true, false}
use mathlib.Core.Option.{Option, none, some}
use libpeer.Base.Tests.{if◌then◌else◌}
use libpeer.Base.Memory.{◌>>=◌}

unfoldable pub Holds {ℓ κ} : {A : Type ℓ} → (A → Type κ) → Option A → Type κ
Holds P none = Unit
Holds P (some a) = P a

module _ {ℓ κ} {A : Type ℓ} (P : A → Type κ) where
  pub Holds-none : Holds P none
  unfolding Holds
  Holds-none = tt

  pub Holds-some : (a : A) → P a → Holds P (some a)
  unfolding Holds
  Holds-some a p = p

  pub from_Holds : (o : Option A) (a : A) → o ≡ some a → Holds P o → P a
  unfolding Holds
  from_Holds o a e h = rw e at h

  pub if-Holds : (b : Bool) (x y : Option A) → Holds P x → Holds P y → Holds P (if b then x else y)
  if-Holds true x y hx hy = hx
  if-Holds false x y hx hy = hy

  pub bind-Holds {ι} :
      {B : Type ι} (o : Option B) (f : B → Option A) → ((b : B) → Holds P (f b)) → Holds P (o >>= f)
  bind-Holds none f h = Holds-none
  bind-Holds (some b) f h = h b

  -- What is known of the first result is known in the second.
  pub then-Holds {ι μ} :
      {B : Type ι} (Q : B → Type μ) (o : Option B) (f : B → Option A)
      → Holds Q o
      → ((b : B) → Q b → Holds P (f b))
      → Holds P (o >>= f)
  unfolding Holds
  then-Holds Q none f q h = tt
  then-Holds Q (some b) f q h = h b q
