-- ===== src/Common/Methods.antt =====
-- Methods that change a state and may raise: what was written before a raise stays written, so the
-- state comes back beside the error too.
use mathlib.Core.Bool.{Bool, true, false}
use mathlib.Core.Option.{Option, none, some}

pub data Result {ℓ} (E A : Type ℓ) : Type ℓ where
  ok : A → Result E A
  err : E → Result E A

abbrev pub Exec {ℓ} : Type ℓ → Type ℓ → Type ℓ → Type ℓ
Exec S E A = S → Result E A × S

module _ {ℓ} {S E A : Type ℓ} where
  -- a query
  unfoldable pub gets : (S → A) → Exec S E A
  gets query state = (ok (query state), state)

  unfoldable pub raise : E → Exec S E A
  raise error state = (err error, state)

  unfoldable pub pure : A → Exec S E A
  pure value state = (ok value, state)

  -- a computation that reads and writes nothing
  unfoldable pub lift : Result E A → Exec S E A
  lift outcome state = (outcome, state)

  -- `if row is None: raise`
  unfoldable pub or_raise : Option A → E → Exec S E A
  or_raise none e s = (err e, s)
  or_raise (some a) _ s = (ok a, s)

-- `if not test: raise`
unfoldable pub require : {S E : Type 0} → Bool → E → Exec S E Unit
require true e s = (ok tt, s)
require false e s = (err e, s)

-- `if test: raise`
unfoldable pub refuse : {S E : Type 0} → Bool → E → Exec S E Unit
refuse true e s = (err e, s)
refuse false e s = (ok tt, s)

module _ {ℓ} {S E A B : Type ℓ} where
  abbrev pub continue : Result E A → (A → Exec S E B) → Exec S E B
  continue (err error) next state = (err error, state)
  continue (ok value) next state = next value state

  infixl 5 ◌>>=◌ ◌>>◌
  -- to open this opens the statements above too
  unfoldable pub ◌>>=◌ : Exec S E A → (A → Exec S E B) → Exec S E B
  unfolding pure raise lift gets or_raise require refuse
  ◌>>=◌ method next state = let (outcome, after) = method state in continue outcome next after

  abbrev pub ◌>>◌ : Exec S E A → Exec S E B → Exec S E B
  first >> second = first >>= λ _. second

abbrev pub is_ok {ℓ} : {E A : Type ℓ} → Result E A → Bool
is_ok (ok _) = true
is_ok (err _) = false
