-- ===== src/Prelude/Fatal.antt =====
-- `log::fatal` throws `FatalError`: a routine that may call it returns a `Result`. The reason is a
-- value of the component's own error type, in place of the message.
use mathlib.Core.Bool.{Bool, true, false}
use mathlib.Core.Path.{◌≡◌, refl}
use mathlib.Core.Logic.{◌⊎◌, inl, inr}

pub data Result (E : Type 0) (A : Type 0) : Type 0 where
  ok : A → Result E A
  fatal : E → Result E A

infixl 5 ◌>>=◌ ◌>>◌
abbrev pub ◌>>=◌ : {E A B : Type 0} → Result E A → (A → Result E B) → Result E B
ok a >>= f = f a
fatal e >>= f = fatal e

abbrev pub ◌>>◌ : {E B : Type 0} → Result E (Unit {0}) → Result E B → Result E B
m >> k = m >>= λ _. k

-- `if (!test) log::fatal(e)`
abbrev pub require : {E : Type 0} → Bool → E → Result E (Unit {0})
require true e = ok tt
require false e = fatal e

-- Why a run of a routine with loops on fuel has no value.
pub data Failure (E : Type 0) : Type 0 where
  out_of_fuel : Failure E
  raised : E → Failure E

abbrev pub attempt : {E A : Type 0} → Result E A → Result (Failure E) A
attempt (ok a) = ok a
attempt (fatal e) = fatal (raised e)

-- The run ends: with a value that has the property, or by an error that is one of those given.
pub data Ends {E A : Type 0} (Errors : E → Type 0) (P : A → Type 0) : Result E A → Type 0 where
  returns : {a : A} → P a → Ends Errors P (ok a)
  fails : {e : E} → Errors e → Ends Errors P (fatal e)

-- The failure is an error that was raised, and one of those given; it is not for want of fuel.
pub data IsRaised {E : Type 0} (Errors : E → Type 0) : Failure E → Type 0 where
  as_raised : {e : E} → Errors e → IsRaised Errors (raised e)

pub Result-cases :
    {E A : Type 0} (m : Result E A) → ((a : A) × (m ≡ ok a)) ⊎ ((e : E) × (m ≡ fatal e))
Result-cases (ok a) = inl (a, refl)
Result-cases (fatal e) = inr (e, refl)

module _ {E : Type 0} {Errors : E → Type 0} {A : Type 0} {P : A → Type 0} where
  pub bind-Ends :
      {B : Type 0} {Q : B → Type 0} {m : Result E A} (k : A → Result E B)
      → Ends Errors P m
      → ((a : A) → P a → Ends Errors Q (k a))
      → Ends Errors Q (m >>= k)
  bind-Ends k (Ends.returns h) g = g _ h
  bind-Ends k (Ends.fails h) g = Ends.fails h

  pub map-Ends :
      {Q : A → Type 0} {m : Result E A} → Ends Errors P m → ((a : A) → P a → Q a) → Ends Errors Q m
  map-Ends (Ends.returns h) g = Ends.returns (g _ h)
  map-Ends (Ends.fails h) g = Ends.fails h

  pub attempt-Ends : {m : Result E A} → Ends Errors P m → Ends (IsRaised Errors) P (attempt m)
  attempt-Ends (Ends.returns h) = Ends.returns h
  attempt-Ends (Ends.fails h) = Ends.fails (IsRaised.as_raised h)

  pub Ends-cases :
      {m : Result E A}
      → Ends Errors P m
      → ((a : A) × (m ≡ ok a) × P a) ⊎ ((e : E) × (m ≡ fatal e) × Errors e)
  Ends-cases (Ends.returns h) = inl (_, refl, h)
  Ends-cases (Ends.fails h) = inr (_, refl, h)
