-- ===== src/Base/Exec.antt =====
-- Methods that change the store and may raise. What was written before a raise stays written, so
-- the state comes back beside the error too.
use Prim.Native.Nat.{ℕ}
use Prim.Native.String.{String}
use mathlib.Core.Bool.{Bool}
use mathlib.Core.Path.{◌≡◌, refl}
use mathlib.Core.Option.{Option, none, some}
use astra_agent.Base.Tests.{◌==◌, if◌then◌else◌}

-- The exceptions that leave a method: the two of the lifecycle, pydantic's ValidationError,
-- the KeyError or IndexError of a lookup that finds nothing, another ValueError, and the
-- ModelProviderError of a model provider.
pub data Failure : Type 0 where
  not_found conflict : String → Failure
  validation lookup_error value_error provider_error : Failure

pub data Result {ℓ} (A : Type ℓ) : Type ℓ where
  ok : A → Result A
  err : Failure → Result A

pub err≢ok {ℓ} : {A : Type ℓ} {e : Failure} {a : A} → err e ≡ ok a → ⊥
err≢ok h = cc

abbrev pub Exec : Type 0 → Type 0 → Type 0
Exec S A = S → Result A × S

module _ {S A : Type 0} where
  pub pure : A → Exec S A
  pure a s = (ok a, s)

  pub raise : Failure → Exec S A
  raise e s = (err e, s)

  pub gets : (S → A) → Exec S A
  gets f s = (ok (f s), s)

  -- `if value is None: raise …`
  pub require : Option A → Failure → Exec S A
  require none e s = (err e, s)
  require (some a) e s = (ok a, s)

  -- `if value is None or value.tenant_id != tenant_id: raise …`
  pub require_owned : (A → ℕ) → Option A → ℕ → Failure → Exec S A
  require_owned owner none tenant_id e s = (err e, s)
  require_owned owner (some a) tenant_id e s =
      if owner a == tenant_id then (ok a, s) else (err e, s)

module _ {S : Type 0} where
  pub modify : (S → S) → Exec S (Unit {0})
  modify f s = (ok tt, f s)

  -- `if not test: raise …`
  pub guard : Bool → Failure → Exec S (Unit {0})
  guard test e s = if test then (ok tt, s) else (err e, s)

module _ {S A B : Type 0} where
  abbrev pub continue : Result A → (A → Exec S B) → Exec S B
  continue (ok a) f s = f a s
  continue (err e) f s = (err e, s)

  infixl 10 ◌>>=◌ ◌>>◌
  -- Opening this opens the steps above too.
  unfoldable pub ◌>>=◌ : Exec S A → (A → Exec S B) → Exec S B
  unfolding pure raise gets require require_owned modify guard
  ◌>>=◌ m f s = let (r, s') = m s in continue r f s'

  abbrev pub ◌>>◌ : Exec S A → Exec S B → Exec S B
  m >> n = m >>= λ _. n

  -- A bind that returned: its first step returned, and then the rest.
  pub bind-ok :
      (m : Exec S A) (f : A → Exec S B) (s : S) {b : B}
      → ((m >>= f) s).0 ≡ ok b
      → (a : A) × ((m s).0 ≡ ok a) × ((m >>= f) s ≡ f a (m s).1)
  unfolding ◌>>=◌
  bind-ok m f s h = let (r, s') = m s in returned r s' h
    where
      returned :
          (r : Result A) (s' : S) {b : B}
          → (continue r f s').0 ≡ ok b
          → (a : A) × (r ≡ ok a) × (continue r f s' ≡ f a s')
      returned (ok a) s' h = (a, refl, refl)
      returned (err e) s' h = absurd (err≢ok h)

  -- A last step that only changes the value.
  module _ (m : Exec S A) (f : A → B) (s : S) where
    pub bind_pure-state : ((m >>= λ a. pure (f a)) s).1 ≡ (m s).1
    unfolding ◌>>=◌
    bind_pure-state = let (r, s') = m s in same r s'
      where
        same : (r : Result A) (s' : S) → (continue r (λ a. pure (f a)) s').1 ≡ s'
        same (ok a) s' = refl
        same (err e) s' = refl

    pub bind_pure-ok : {b : B} → ((m >>= λ a. pure (f a)) s).0 ≡ ok b → (a : A) × ((m s).0 ≡ ok a)
    bind_pure-ok h = let (a, e, rest) = bind-ok m (λ a. pure (f a)) s h in (a, e)
