-- ===== src/Common/Sequence.antt =====
-- What a sequence of steps comes to when it returns: each step has returned, and the rest goes on from there.
use mathlib.Core.Path.{◌≡◌, refl, ap, subst}
use mathlib.Core.Bool.{Bool, true, false}
use mathlib.Core.Option.{Option, none, some}
use vera_mmu.Common.Methods.{
  Exec, Result, ok, err, or_raise, require, refuse, continue, ◌>>=◌, ◌>>◌,
}

module _ {S E A B : Type 0} (m : Exec S E A) (k : A → Exec S E B) (s : S) where
  -- a step that returns is followed by the rest
  pub then_ok : (a : A) → (m s).0 ≡ ok a → (m >>= k) s ≡ k a (m s).1
  unfolding ◌>>=◌
  then_ok a h = ap (λ r. continue r k (m s).1) h

  -- a sequence that returns has a first step that returns
  pub first_ok : (b : B) → ((m >>= k) s).0 ≡ ok b → (a : A) × ((m s).0 ≡ ok a)
  unfolding ◌>>=◌
  first_ok b h = go (m s).0 h
    where
      go : (r : Result E A) → (continue r k (m s).1).0 ≡ ok b → (a : A) × (r ≡ ok a)
      go (ok a) e = (a, refl)
      go (err x) e = cc

module _ {S E B : Type 0} where
  pub require_ok :
      (b : Bool) (x : E) (k : Exec S E B) (s : S) (r : B)
      → ((require b x >> k) s).0 ≡ ok r
      → (b ≡ true) × ((require b x >> k) s ≡ k s)
  unfolding ◌>>=◌
  require_ok true x k s r h = (refl, refl)
  require_ok false x k s r h = cc

  pub refuse_ok :
      (b : Bool) (x : E) (k : Exec S E B) (s : S) (r : B)
      → ((refuse b x >> k) s).0 ≡ ok r
      → (b ≡ false) × ((refuse b x >> k) s ≡ k s)
  unfolding ◌>>=◌
  refuse_ok false x k s r h = (refl, refl)
  refuse_ok true x k s r h = cc

  pub or_raise_ok :
      {A : Type 0} (o : Option A) (x : E) (k : A → Exec S E B) (s : S) (r : B)
      → ((or_raise o x >>= k) s).0 ≡ ok r
      → (a : A) × (o ≡ some a) × ((or_raise o x >>= k) s ≡ k a s)
  unfolding ◌>>=◌
  or_raise_ok (some a) x k s r h = (a, refl, refl)
  or_raise_ok none x k s r h = cc

  -- the same from the front: a test that holds, and a step that writes nothing
  pub by_require :
      (b : Bool) (x : E) (k : Exec S E B) (s : S) (z : Result E B × S)
      → b ≡ true
      → k s ≡ z
      → (require b x >> k) s ≡ z
  unfolding ◌>>=◌
  by_require b x k s z h rest = rw h rest

  pub by_step :
      {A : Type 0} (m : Exec S E A) (k : A → Exec S E B) (s : S) (a : A) (z : Result E B × S)
      → m s ≡ (ok a, s)
      → k a s ≡ z
      → (m >>= k) s ≡ z
  unfolding ◌>>=◌
  by_step m k s a z h rest = rw h rest

-- the result of a sequence, of what it comes to
pub goes_on : {S E B : Type 0} {x y : Result E B × S} {b : B} → x ≡ y → x.0 ≡ ok b → y.0 ≡ ok b
goes_on {b = b} same h = subst (λ z. z.0 ≡ ok b) same h
