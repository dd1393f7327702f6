-- ===== src/Base/Effect.antt =====
-- Asynchronous methods that change the state of an object. A method ends in a value, in an early
-- `return { ok: false, reason }`, or in a throw; what was written before stays written.
pub mod Keeps
use mathlib.Core.Path.{◌≡◌, refl}
use mathlib.Core.Logic.{◌⊎◌, inl, inr}
use mathlib.Core.Bool.{Bool}
use Prim.Native.String.{String}
use trustid.Base.Tests.{if◌then◌else◌}

pub data Outcome {ℓ} (E : Type ℓ) (A : Type ℓ) : Type ℓ where
  ok : A → Outcome E A
  failed : E → Outcome E A
  thrown : String → Outcome E A

abbrev pub Effect {ℓ} : Type ℓ → Type ℓ → Type ℓ → Type ℓ
Effect S E A = S → Outcome E A × S

module _ {ℓ} {S E A : Type ℓ} where
  unfoldable pub pure : A → Effect S E A
  pure a s = (ok a, s)

  -- `return { ok: false, reason }`
  unfoldable pub fail : E → Effect S E A
  fail e s = (failed e, s)

  -- `throw new Error(message)`
  unfoldable pub throw : String → Effect S E A
  throw message s = (thrown message, s)

  unfoldable pub gets : (S → A) → Effect S E A
  gets f s = (ok (f s), s)

  -- An operation that always returns.
  unfoldable pub run : (S → A × S) → Effect S E A
  run f s = let (a, s') = f s in (ok a, s')

module _ {ℓ} {S E A B : Type ℓ} where
  abbrev pub continue : Outcome E A → (A → Effect S E B) → Effect S E B
  continue (ok a) f s = f a s
  continue (failed e) f s = (failed e, s)
  continue (thrown m) f s = (thrown m, s)

  infixl 10 ◌>>=◌ ◌>>◌
  -- Opening this opens the actions above too.
  unfoldable pub ◌>>=◌ : Effect S E A → (A → Effect S E B) → Effect S E B
  unfolding pure fail throw gets run
  ◌>>=◌ m f s = let (r, s') = m s in continue r f s'

  abbrev pub ◌>>◌ : Effect S E A → Effect S E B → Effect S E B
  m >> n = m >>= λ _. n

-- `if (b) return …`: the action is one that never ends in a value.
abbrev pub reject_if : {S E : Type 0} → Bool → Effect S E (Unit {0}) → Effect S E (Unit {0})
reject_if b m = if b then m else pure tt

-- To split on how a call ends and keep the equation.
pub Outcome-cases :
    {E A : Type 0} (o : Outcome E A)
    → ((a : A) × (o ≡ ok a)) ⊎ (((e : E) × (o ≡ failed e)) ⊎ ((m : String) × (o ≡ thrown m)))
Outcome-cases (ok a) = inl (a, refl)
Outcome-cases (failed e) = inr (inl (e, refl))
Outcome-cases (thrown m) = inr (inr (m, refl))
