-- ===== src/Store/Returns.antt =====
-- What a block of statements has done when it returns: one rule for each statement, so that the
-- proof about a block reads as the block does. A block that raises is rolled back.
use vera_mmu.Common.{
  lift, String, List, Bool, true, false, ◌≡◌, refl, subst, Result, ok, err, Option, none, some,
  ◌>>=◌, ◌>>◌, require, refuse, or_raise, gets, continue, if◌then◌else◌, Bool-cases, inl, inr,
}
use vera_mmu.Store.{Tables, Rows, Raised, integrity_error, store_error, append_audit, insert}
use vera_mmu.Store.Rows.{Value, AuditEvent}
use vera_mmu.Store.Transaction.{settle}

-- if the outcome is a result, it satisfies `Q` with the tables
pub record Returns {ℓ} {E A : Type 0} (Q : A → Tables → Type ℓ) (r : Result (Raised E) A × Tables)
    : Type ℓ where
  pub at : (a : A) → r.0 ≡ ok a → Q a r.1

-- what a commit of the block leaves
pub settle-Returns {ℓ κ} :
    {E A : Type 0} {Q : A → Tables → Type ℓ} (P : Tables → Type κ) (t : Tables)
    (r : Result (Raised E) A × Tables)
    → Returns Q r
    → P t
    → ((a : A) (u : Tables) → Q a u → P u)
    → P (settle t r.0 r.1)
settle-Returns P t (ok a, u) q h f = f a u (q.at a refl)
settle-Returns P t (err e, u) q h f = h

pub Returns-map {ℓ κ} :
    {E A : Type 0} {Q : A → Tables → Type ℓ} {R : A → Tables → Type κ}
    {r : Result (Raised E) A × Tables}
    → Returns Q r
    → ((a : A) (u : Tables) → Q a u → R a u)
    → Returns R r
Returns-map {r = r} q f = record { at = λ a e. f a r.1 (q.at a e) }

-- what holds whatever the block does
pub Returns-always {ℓ} :
    {E A : Type 0} {Q : A → Tables → Type ℓ} (r : Result (Raised E) A × Tables)
    → ((a : A) (u : Tables) → Q a u)
    → Returns Q r
Returns-always r f = record { at = λ a e. f a r.1 }

module _ {ℓ} {E A : Type 0} {Q : A → Tables → Type ℓ} where
  pub Returns-ok : (a : A) (t : Tables) → Q a t → Returns {E = E} Q (ok a, t)
  Returns-ok a t q = record { at = λ b e. subst (λ c. Q c t) (cc) q }

  pub Returns-err : (x : Raised E) (t : Tables) → Returns {E = E} Q (err x, t)
  Returns-err x t = record { at = λ b e. cc }

  pub Returns-gets :
      {B : Type 0} (f : Tables → B) (k : B → Rows E A) (t : Tables)
      → Returns Q (k (f t) t)
      → Returns Q ((gets f >>= k) t)
  unfolding ◌>>=◌
  Returns-gets f k t h = h

  pub Returns-require :
      (b : Bool) (x : Raised E) (k : Rows E A) (t : Tables)
      → (b ≡ true → Returns Q (k t))
      → Returns Q ((require b x >> k) t)
  unfolding ◌>>=◌
  Returns-require true x k t h = h refl
  Returns-require false x k t h = Returns-err x t

  pub Returns-refuse :
      (b : Bool) (x : Raised E) (k : Rows E A) (t : Tables)
      → (b ≡ false → Returns Q (k t))
      → Returns Q ((refuse b x >> k) t)
  unfolding ◌>>=◌
  Returns-refuse false x k t h = h refl
  Returns-refuse true x k t h = Returns-err x t

  pub Returns-or_raise :
      {B : Type 0} (o : Option B) (x : Raised E) (f : B → Rows E A) (t : Tables)
      → ((b : B) → o ≡ some b → Returns Q (f b t))
      → Returns Q ((or_raise o x >>= f) t)
  unfolding ◌>>=◌
  Returns-or_raise none x f t h = Returns-err x t
  Returns-or_raise (some b) x f t h = h b refl

  pub Returns-lift :
      {B : Type 0} (r : Result (Raised E) B) (f : B → Rows E A) (t : Tables)
      → ((b : B) → r ≡ ok b → Returns Q (f b t))
      → Returns Q ((lift r >>= f) t)
  unfolding ◌>>=◌
  Returns-lift (err x) f t h = Returns-err x t
  Returns-lift (ok b) f t h = h b refl

  -- a block that ends by reading its row back
  pub Returns-read :
      (o : Option A) (x : Raised E) (t : Tables)
      → ((a : A) → o ≡ some a → Q a t)
      → Returns {E = E} Q (or_raise o x t)
  unfolding or_raise
  Returns-read none x t h = Returns-err x t
  Returns-read (some a) x t h = Returns-ok a t (h a refl)

  Returns-insert_if :
      (b : Bool) (u : Tables) (k : Rows E A) (t : Tables)
      → (b ≡ true → Returns Q (k u))
      → Returns Q (((λ v. if b then (ok tt, u) else (err integrity_error, v)) >> k) t)
  unfolding ◌>>=◌
  Returns-insert_if true u k t h = h refl
  Returns-insert_if false u k t h = Returns-err _ t

  pub Returns-insert :
      (valid : Tables → Bool) (write : Tables → Tables) (k : Rows E A) (t : Tables)
      → (valid t ≡ true → Returns Q (k (write t)))
      → Returns Q ((insert valid write >> k) t)
  unfolding ◌>>=◌ insert
  Returns-insert valid write k t h = Returns-insert_if (valid t) (write t) k t h

  Returns-write :
      (b : Bool) (x : Raised E) (u : Tables) (k : Rows E A) (t : Tables)
      → Returns Q (k u)
      → Returns Q (((λ v. if b then (err x, v) else (ok tt, u)) >> k) t)
  unfolding ◌>>=◌
  Returns-write true x u k t h = Returns-err x t
  Returns-write false x u k t h = h

  pub Returns-audit :
      (now action : String) (payload : List (String × Value)) (k : Rows E A) (t : Tables)
      → ((audit : List AuditEvent) → Returns Q (k (record t { audit = audit })))
      → Returns Q ((append_audit now action payload >> k) t)
  unfolding append_audit ◌>>=◌
  Returns-audit now action payload k t h = Returns-write _ store_error _ k t (h _)

pub Returns-bind {ℓ κ} :
    {E A B : Type 0} {R : B → Tables → Type κ} {Q : A → Tables → Type ℓ} (m : Rows E B)
    (f : B → Rows E A) (t : Tables)
    → Returns R (m t)
    → ((b : B) (u : Tables) → R b u → Returns Q (f b u))
    → Returns Q ((m >>= f) t)
unfolding ◌>>=◌
Returns-bind {E = E} {A = A} {B = B} {R = R} {Q = Q} m f t r h = go (m t).0 (m t).1 r
  where
    go : (x : Result (Raised E) B) (u : Tables) → Returns R (x, u) → Returns Q (continue x f u)
    go (ok b) u q = h b u (q.at b refl)
    go (err e) u q = Returns-err e u

-- a block that ends with a write that may be refused
Returns-write_last {ℓ} :
    {E : Type 0} {Q : Unit → Tables → Type ℓ} (b : Bool) (x : Raised E) (u t : Tables)
    → Q tt u
    → Returns {E = E} Q (if b then (err x, t) else (ok tt, u))
Returns-write_last true x u t q = Returns-err x t
Returns-write_last false x u t q = Returns-ok tt u q

-- a block that ends with the audit record
pub Returns-audit_last {ℓ} :
    {E : Type 0} {Q : Unit → Tables → Type ℓ} (now action : String)
    (payload : List (String × Value)) (t : Tables)
    → ((audit : List AuditEvent) → Q tt (record t { audit = audit }))
    → Returns {E = E} Q (append_audit now action payload t)
unfolding append_audit
Returns-audit_last now action payload t h = Returns-write_last _ store_error _ t (h _)

-- blocks that end with a test, and with a write
pub Returns-require_last {ℓ} :
    {E : Type 0} {Q : Unit → Tables → Type ℓ} (b : Bool) (x : Raised E) (t : Tables)
    → (b ≡ true → Q tt t)
    → Returns {E = E} Q (require b x t)
unfolding require
Returns-require_last true x t q = Returns-ok tt t (q refl)
Returns-require_last false x t q = Returns-err x t

pub Returns-insert_last {ℓ} :
    {E : Type 0} {Q : Unit → Tables → Type ℓ} (valid : Tables → Bool) (write : Tables → Tables)
    (t : Tables)
    → (valid t ≡ true → Q tt (write t))
    → Returns {E = E} Q (insert valid write t)
unfolding insert
Returns-insert_last {E = E} {Q = Q} valid write t q = elim (Bool-cases (valid t)) [
  | inl fits ↦ rw fits (Returns-ok tt (write t) (q fits))
  | inr broken ↦ rw broken (Returns-err integrity_error t)
]
