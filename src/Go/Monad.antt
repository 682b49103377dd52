-- ===== src/Go/Monad.antt =====
-- Go calls: a value, an error that is not nil, or a panic; and actions on a state.
use dqlited.Base.{◌≡◌, ◌≢◌, refl, ◌⊎◌, inl, inr, arith}

-- What a call of this program ends in. A panic ends the calls above it too.
pub data Outcome (A E : Type 0) : Type 0 where
  ok : A → Outcome A E
  fail : E → Outcome A E
  panic : Outcome A E

-- What foreign code answers: a value and a nil error, or an error.
pub data Reply (A E : Type 0) : Type 0 where
  value : A → Reply A E
  error : E → Reply A E

pub ok-injective : {A E : Type 0} {a b : A} → ◌≡◌ {A = Outcome A E} (ok a) (ok b) → a ≡ b
ok-injective e = ground arith

abbrev pub from_reply : {A E : Type 0} → Reply A E → Outcome A E
from_reply (value a) = ok a
from_reply (error e) = fail e

abbrev pub Act : Type 0 → Type 0 → Type 0 → Type 0
Act S E A = S → Outcome A E × S

module _ {S E A : Type 0} where
  abbrev pub pure : A → Act S E A
  pure a s = (ok a, s)

  abbrev pub throw : E → Act S E A
  throw e s = (fail e, s)

  abbrev pub crash : Act S E A
  crash s = (panic, s)

-- `if err != nil { return …, f(err) }`
abbrev pub map_fail : {A E : Type 0} → (E → E) → Outcome A E → Outcome A E
map_fail f (ok a) = ok a
map_fail f (fail e) = fail (f e)
map_fail f panic = panic

abbrev pub wrapping : {S E A : Type 0} → (E → E) → Act S E A → Act S E A
wrapping f m s = let (o, s') = m s in (map_fail f o, s')

module _ {S E A B : Type 0} where
  abbrev pub continue : Outcome A E → (A → Act S E B) → Act S E B
  continue (ok a) f s = f a s
  continue (fail e) f s = (fail e, s)
  continue panic f s = (panic, s)

  infixl 10 ◌>>=◌ ◌>>◌
  abbrev pub ◌>>=◌ : Act S E A → (A → Act S E B) → Act S E B
  ◌>>=◌ m f s = let (o, s') = m s in continue o f s'

  abbrev pub ◌>>◌ : Act S E A → Act S E B → Act S E B
  m >> n = m >>= λ _. n

-- To split on what a foreign call answers, and keep the equation.
pub Reply-cases :
    {A E W : Type 0} (p : Reply A E × W)
    → ((a : A) × (w : W) × (p ≡ (value a, w))) ⊎ ((e : E) × (w : W) × (p ≡ (error e, w)))
Reply-cases (value a, w) = inl (a, w, refl)
Reply-cases (error e, w) = inr (e, w, refl)

-- A step and what follows it: neither panics, or not both succeed.
module _ {S E A B : Type 0} (f : A → Act S E B) where
  pub continue-ne-panic :
      (o : Outcome A E) (s : S)
      → o ≢ panic
      → ((a : A) → o ≡ ok a → (f a s).0 ≢ panic)
      → (continue o f s).0 ≢ panic
  continue-ne-panic (ok a) s h k = k a refl
  continue-ne-panic (fail e) s h k = λ p. cc
  continue-ne-panic panic s h k = λ p. h refl

  pub continue-ne-ok :
      (o : Outcome A E) (s : S) (b : B)
      → ((a : A) → o ≡ ok a → (f a s).0 ≢ ok b)
      → (continue o f s).0 ≢ ok b
  continue-ne-ok (ok a) s b k = k a refl
  continue-ne-ok (fail e) s b k = λ p. cc
  continue-ne-ok panic s b k = λ p. cc
