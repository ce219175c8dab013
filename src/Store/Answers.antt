-- ===== src/Store/Answers.antt =====
-- What a method has done to the tables when it returns, from what its block has done.
use vera_mmu.Common.{
  Bool, true, false, ◌≡◌, refl, subst, sym, ◌∙◌, Result, ok, err, Option, none, some, ◌>>=◌, ◌>>◌,
  require, refuse, or_raise,
}
use vera_mmu.Store.{
  Store, Tables, Method, Rows, Raised, raised, integrity_error, store_error, atomic, atomic_row,
  read_back,
}
use vera_mmu.Store.Transaction.{settle}
use vera_mmu.Store.Keeps.{recover, result-atomic, settle-atomic}
use vera_mmu.Store.Returns.{Returns}

-- if the call returns, its result satisfies `Q` with the tables that it leaves
pub record Answers {ℓ} {E A : Type 0} (Q : A → Tables → Type ℓ) (r : Result (Raised E) A × Store)
    : Type ℓ where
  pub at : (a : A) → r.0 ≡ ok a → Q a r.1.tables

pub recover-eq-ok :
    {E A : Type 0} (e : E) (r : Result (Raised E) A) (a : A) → recover e r ≡ ok a → r ≡ ok a
recover-eq-ok e (ok b) a h = h
recover-eq-ok e (err integrity_error) a h = cc
recover-eq-ok e (err (raised x)) a h = cc
recover-eq-ok e (err store_error) a h = cc

settle-ok : {E A : Type 0} (t u : Tables) (r : Result E A) (a : A) → r ≡ ok a → settle t r u ≡ u
settle-ok t u (ok b) a h = refl
settle-ok t u (err x) a h = cc

module _ {ℓ} {E A : Type 0} {Q : A → Tables → Type ℓ} where
  pub Answers-err : (x : Raised E) (s : Store) → Answers {E = E} Q (err x, s)
  Answers-err x s = record { at = λ b e. cc }

  pub Answers-require :
      (b : Bool) (x : Raised E) (k : Method E A) (s : Store)
      → (b ≡ true → Answers Q (k s))
      → Answers Q ((require b x >> k) s)
  unfolding ◌>>=◌
  Answers-require true x k s h = h refl
  Answers-require false x k s h = Answers-err x s

  pub Answers-refuse :
      (b : Bool) (x : Raised E) (k : Method E A) (s : Store)
      → (b ≡ false → Answers Q (k s))
      → Answers Q ((refuse b x >> k) s)
  unfolding ◌>>=◌
  Answers-refuse false x k s h = h refl
  Answers-refuse true x k s h = Answers-err x s

  pub Answers-or_raise :
      {B : Type 0} (o : Option B) (x : Raised E) (f : B → Method E A) (s : Store)
      → ((b : B) → o ≡ some b → Answers Q (f b s))
      → Answers Q ((or_raise o x >>= f) s)
  unfolding ◌>>=◌
  Answers-or_raise none x f s h = Answers-err x s
  Answers-or_raise (some b) x f s h = h b refl

  pub Answers-atomic :
      (e : E) (m : Rows E A) (s : Store) → Returns Q (m s.tables) → Answers Q (atomic e m s)
  Answers-atomic e m s h = record {
    at = λ a returned.
        let done = recover-eq-ok e (m s.tables).0 a (sym (result-atomic e m s) ∙ returned) in
        subst (Q a)
          (sym (settle-atomic e m s ∙ settle-ok s.tables (m s.tables).1 (m s.tables).0 a done))
          (h.at a done);
  }

read_back-Answers {ℓ} :
    {E A : Type 0} {Q : A → Tables → Type ℓ} (u : E) (r : Result (Raised E) (Option A) × Store)
    → Answers (λ o t. (a : A) → o ≡ some a → Q a t) r
    → Answers Q (read_back u r)
read_back-Answers u (ok none, s) h = Answers-err _ s
read_back-Answers {Q = Q} u (ok (some a), s) h = record {
  at = λ b e. subst (λ c. Q c s.tables) (cc) (h.at (some a) refl a refl);
}
read_back-Answers u (err x, s) h = Answers-err x s

pub Answers-atomic_row {ℓ} :
    {E A : Type 0} {Q : A → Tables → Type ℓ} (e u : E) (m : Rows E (Option A)) (s : Store)
    → Returns (λ o t. (a : A) → o ≡ some a → Q a t) (m s.tables)
    → Answers Q (atomic_row e u m s)
unfolding atomic_row
Answers-atomic_row e u m s h = read_back-Answers u (atomic e m s) (Answers-atomic e m s h)
