-- ===== src/Base/Effect/Keeps.antt =====
-- What a method keeps, however it ends: one rule for each way to build a method.
use Prim.Native.String.{String}
use mathlib.Core.Path.{◌≡◌, refl}
use mathlib.Core.Bool.{Bool, true, false}
use trustid.Base.Tests.{if◌then◌else◌}
use trustid.Base.Effect.{
  Outcome, ok, failed, thrown, Effect, pure, fail, throw, gets, continue, ◌>>=◌,
}

pub record Keeps {S E A : Type 0} (P : S → Type 0) (m : Effect S E A) : Type 0 where
  pub at : (s : S) → P s → P (m s).1

module _ {S E A : Type 0} {P : S → Type 0} where
  -- A test picks one of two methods.
  pub Keeps-if :
      (test : Bool) (then_do else_do : Effect S E A)
      → (test ≡ true → Keeps P then_do)
      → (test ≡ false → Keeps P else_do)
      → Keeps P (if test then then_do else else_do)
  Keeps-if true _ _ when_true _ = when_true refl
  Keeps-if false _ _ _ when_false = when_false refl

  -- The ends of a method write nothing.
  pub Keeps-throw : (message : String) → Keeps {E = E} {A = A} P (throw message)
  unfolding throw
  Keeps-throw message = record { at = λ state kept. kept }

  pub Keeps-fail : (reason : E) → Keeps {A = A} P (fail reason)
  unfolding fail
  Keeps-fail reason = record { at = λ state kept. kept }

  pub Keeps-pure : (value : A) → Keeps {E = E} P (pure value)
  unfolding pure
  Keeps-pure value = record { at = λ state kept. kept }

  pub Keeps-gets : (read : S → A) → Keeps {E = E} P (gets read)
  unfolding gets
  Keeps-gets read = record { at = λ state kept. kept }

module _ {S E A B : Type 0} {P : S → Type 0} where
  Keeps-continue :
      (r : Outcome E A) (f : A → Effect S E B) (s : S)
      → ((a : A) → Keeps P (f a))
      → P s
      → P (continue r f s).1
  Keeps-continue (ok a) f s kf h = (kf a).at s h
  Keeps-continue (failed e) f s kf h = h
  Keeps-continue (thrown m) f s kf h = h

  pub Keeps-bind :
      (m : Effect S E A) (f : A → Effect S E B)
      → Keeps P m
      → ((a : A) → Keeps P (f a))
      → Keeps P (m >>= f)
  unfolding ◌>>=◌
  Keeps-bind m f km kf = record { at = λ s h. Keeps-continue (m s).0 f (m s).1 kf (km.at s h) }

-- From `P` to a weaker `Q`: what the method establishes, or leaves at an early end.
pub record Leads {S E A : Type 0} (P Q : S → Type 0) (m : Effect S E A) : Type 0 where
  pub to : (s : S) → P s → Q (m s).1

module _ {S E A B : Type 0} {P Q : S → Type 0} where
  Leads-continue :
      (r : Outcome E A) (f : A → Effect S E B) (s : S)
      → ((s : S) → P s → Q s)
      → ((a : A) → Leads P Q (f a))
      → P s
      → Q (continue r f s).1
  Leads-continue (ok a) f s w lf h = (lf a).to s h
  Leads-continue (failed e) f s w lf h = w s h
  Leads-continue (thrown m) f s w lf h = w s h

  -- First a method that keeps `P`.
  pub Leads-bind :
      (m : Effect S E A) (f : A → Effect S E B)
      → ((s : S) → P s → Q s)
      → Keeps P m
      → ((a : A) → Leads P Q (f a))
      → Leads P Q (m >>= f)
  unfolding ◌>>=◌
  Leads-bind m f w km lf = record { to = λ s h. Leads-continue (m s).0 f (m s).1 w lf (km.at s h) }

  -- First the method that establishes `Q`.
  pub Leads-then :
      (m : Effect S E A) (f : A → Effect S E B)
      → Leads P Q m
      → ((a : A) → Keeps Q (f a))
      → Leads P Q (m >>= f)
  unfolding ◌>>=◌
  Leads-then m f lm kf = record { to = λ s h. Keeps-continue (m s).0 f (m s).1 kf (lm.to s h) }

pub Keeps-both :
    {S E A : Type 0} {P Q : S → Type 0} (m : Effect S E A)
    → Keeps P m
    → Keeps Q m
    → Keeps (λ s. P s × Q s) m
Keeps-both m p q = record { at = λ s h. (p.at s h.0, q.at s h.1) }

pub ruleset keeps_rules = (Keeps-bind, Keeps-if, Keeps-gets, Keeps-throw, Keeps-fail, Keeps-pure)
