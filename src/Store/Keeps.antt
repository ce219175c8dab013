-- ===== src/Store/Keeps.antt =====
-- What a method keeps of the tables, one rule for each way to build a method.
use vera_mmu.Common.{
  lift, pure, gets, continue, Bool, true, false, ◌≡◌, refl, subst, sym, ap, ◌∙◌, Result, ok, err,
  Option, none, some, ◌>>=◌, ◌>>◌, require, refuse, or_raise, arith,
}
use vera_mmu.Store.{
  Store, Tables, Method, Rows, Raised, integrity_error, raised, store_error, transaction, execute,
  begin, finish, release, rollback, auto_sync_after_commit, atomic, query, read_back, atomic_row,
}
use vera_mmu.Store.Transaction.{settle}

-- whatever the block does to the tables, what a commit of it leaves satisfies `P` again
pub record Commits {ℓ} {E A : Type 0} (P : Tables → Type ℓ) (m : Rows E A) : Type ℓ where
  pub at : (t : Tables) → P t → P (settle t (m t).0 (m t).1)

pub record Keeps {ℓ} {E A : Type 0} (P : Tables → Type ℓ) (m : Method E A) : Type ℓ where
  pub at : (s : Store) → P s.tables → P (m s).1.tables

pub settle-atomic :
    {E A : Type 0} (e : E) (m : Rows E A) (s : Store)
    → (atomic e m s).1.tables ≡ settle s.tables (m s.tables).0 (m s.tables).1
unfolding atomic transaction finish begin release rollback auto_sync_after_commit
settle-atomic e m s = ground arith

-- what the caller of `atomic` is told
abbrev pub recover : {E A : Type 0} → E → Result (Raised E) A → Result (Raised E) A
recover e (ok a) = ok a
recover e (err integrity_error) = err (raised e)
recover e (err (raised x)) = err (raised x)
recover e (err store_error) = err store_error

pub result-atomic :
    {E A : Type 0} (e : E) (m : Rows E A) (s : Store) → (atomic e m s).0 ≡ recover e (m s.tables).0
unfolding atomic transaction finish begin release rollback auto_sync_after_commit
result-atomic e m s = ground arith

read_back-store :
    {E A : Type 0} (u : E) (r : Result (Raised E) (Option A) × Store) → (read_back u r).1 ≡ r.1
read_back-store u (ok none, s) = refl
read_back-store u (ok (some a), s) = refl
read_back-store u (err x, s) = refl

pub settle-atomic_row :
    {E A : Type 0} (e u : E) (m : Rows E (Option A)) (s : Store)
    → (atomic_row e u m s).1.tables ≡ settle s.tables (m s.tables).0 (m s.tables).1
unfolding atomic_row
settle-atomic_row e u m s =
    ap (λ (x : Store). x.tables) (read_back-store u (atomic e m s)) ∙ settle-atomic e m s

-- what the caller of `atomic_row` is told
abbrev pub recover_row : {E A : Type 0} → E → E → Result (Raised E) (Option A) → Result (Raised E) A
recover_row e u (ok none) = err (raised u)
recover_row e u (ok (some a)) = ok a
recover_row e u (err integrity_error) = err (raised e)
recover_row e u (err (raised x)) = err (raised x)
recover_row e u (err store_error) = err store_error

-- a block that breaks a constraint leaves the store as it was, and raises the service's error
pub atomic_row-refused :
    {E A : Type 0} (e u : E) (m : Rows E (Option A)) (s : Store)
    → (m s.tables).0 ≡ err integrity_error
    → atomic_row e u m s ≡ (err (raised e), s)
unfolding atomic_row atomic transaction finish begin release rollback auto_sync_after_commit
atomic_row-refused e u m s h = ground arith

pub atomic-ok :
    {E A : Type 0} (e : E) (m : Rows E A) (s : Store) (a : A) (u : Tables)
    → m s.tables ≡ (ok a, u)
    → ((atomic e m s).0 ≡ ok a) × ((atomic e m s).1.tables ≡ u)
unfolding atomic transaction finish begin release rollback auto_sync_after_commit
atomic-ok e m s a u h = ground arith

pub atomic-project_id :
    {E A : Type 0} (e : E) (m : Rows E A) (s : Store) → (atomic e m s).1.project_id ≡ s.project_id
unfolding atomic transaction finish begin release rollback auto_sync_after_commit
atomic-project_id e m s = ground arith

pub settle-transaction :
    {E A : Type 0} (m : Rows E A) (s : Store)
    → (transaction (execute m) s).1.tables ≡ settle s.tables (m s.tables).0 (m s.tables).1
unfolding transaction finish begin release rollback auto_sync_after_commit
settle-transaction m s = ground arith

module _ {ℓ} {E A : Type 0} {P : Tables → Type ℓ} where
  -- a transaction whose errors pass as they are
  pub Keeps-transaction : (m : Rows E A) → Commits P m → Keeps P (transaction (execute m))
  Keeps-transaction m c = record {
    at = λ s h. subst P (sym (settle-transaction m s)) (c.at s.tables h);
  }

  pub Keeps-atomic : (e : E) (m : Rows E A) → Commits P m → Keeps P (atomic e m)
  Keeps-atomic e m c = record { at = λ s h. subst P (sym (settle-atomic e m s)) (c.at s.tables h) }

  pub Keeps-atomic_row :
      (e u : E) (m : Rows E (Option A)) → Commits P m → Keeps P (atomic_row e u m)
  Keeps-atomic_row e u m c = record {
    at = λ s h. subst P (sym (settle-atomic_row e u m s)) (c.at s.tables h);
  }

  pub Keeps-pure : (a : A) → Keeps P (pure {S = Store} {E = Raised E} a)
  unfolding pure
  Keeps-pure a = record { at = λ s h. h }

  pub Keeps-gets :
      {B : Type 0} (f : Store → B) (k : B → Method E A)
      → ((b : B) → Keeps P (k b))
      → Keeps P (gets f >>= k)
  unfolding ◌>>=◌
  Keeps-gets f k h = record { at = λ s p. (h (f s)).at s p }

  pub Keeps-bind :
      {B : Type 0} (m : Method E B) (f : B → Method E A)
      → Keeps P m
      → ((b : B) → Keeps P (f b))
      → Keeps P (m >>= f)
  unfolding ◌>>=◌
  Keeps-bind {B = B} m f k h = record { at = λ s p. go (m s).0 (m s).1 (k.at s p) }
    where
      go : (r : Result (Raised E) B) (u : Store) → P u.tables → P (continue r f u).1.tables
      go (ok b) u p = (h b).at u p
      go (err x) u p = p

  pub Keeps-query : (f : Tables → Result (Raised E) A) → Keeps P (query f)
  Keeps-query f = record { at = λ s h. h }

  pub Keeps-require :
      (b : Bool) (x : Raised E) (m : Method E A) → Keeps P m → Keeps P (require b x >> m)
  unfolding ◌>>=◌
  Keeps-require true x m k = k
  Keeps-require false x m k = record { at = λ s h. h }

  pub Keeps-refuse :
      (b : Bool) (x : Raised E) (m : Method E A) → Keeps P m → Keeps P (refuse b x >> m)
  unfolding ◌>>=◌
  Keeps-refuse false x m k = k
  Keeps-refuse true x m k = record { at = λ s h. h }

  -- the same, where what follows needs the test
  pub Keeps-unless :
      (b : Bool) (x : Raised E) (m : Method E A)
      → (b ≡ false → Keeps P m)
      → Keeps P (refuse b x >> m)
  unfolding ◌>>=◌
  Keeps-unless false x m k = k refl
  Keeps-unless true x m k = record { at = λ s h. h }

  pub Keeps-or_raise :
      {B : Type 0} (o : Option B) (x : Raised E) (f : B → Method E A)
      → ((b : B) → Keeps P (f b))
      → Keeps P (or_raise o x >>= f)
  unfolding ◌>>=◌
  Keeps-or_raise none x f k = record { at = λ s h. h }
  Keeps-or_raise (some b) x f k = k b

-- a read, or a choice, alone
pub Keeps-read {ℓ} :
    {E A : Type 0} {P : Tables → Type ℓ} (f : Store → A) → Keeps P (gets {E = Raised E} f)
unfolding gets
Keeps-read f = record { at = λ s h. h }

pub Keeps-lift {ℓ} :
    {E A : Type 0} {P : Tables → Type ℓ} (r : Result (Raised E) A) → Keeps P (lift {S = Store} r)
unfolding lift
Keeps-lift r = record { at = λ s h. h }

pub Keeps-choice {ℓ} :
    {E A : Type 0} {P : Tables → Type ℓ} (o : Option A) (x : Raised E)
    → Keeps P (or_raise {S = Store} o x)
unfolding or_raise
Keeps-choice none x = record { at = λ s h. h }
Keeps-choice (some a) x = record { at = λ s h. h }

-- a method that ends with a test
pub Keeps-require_last {ℓ} :
    {E : Type 0} {P : Tables → Type ℓ} (b : Bool) (x : Raised E) → Keeps P (require {S = Store} b x)
unfolding require
Keeps-require_last true x = record { at = λ s h. h }
Keeps-require_last false x = record { at = λ s h. h }

pub Keeps-refuse_last {ℓ} :
    {E : Type 0} {P : Tables → Type ℓ} (b : Bool) (x : Raised E) → Keeps P (refuse {S = Store} b x)
unfolding refuse
Keeps-refuse_last true x = record { at = λ s h. h }
Keeps-refuse_last false x = record { at = λ s h. h }

pub ruleset keeps_rules =
    (Keeps-atomic, Keeps-atomic_row, Keeps-query, Keeps-require, Keeps-refuse, Keeps-or_raise)
