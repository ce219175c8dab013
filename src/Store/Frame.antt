-- ===== src/Store/Frame.antt =====
-- What a block of statements leaves alone: `f` reads the part of the tables that it does not touch. One
-- rule for each statement, which `search` applies.
use vera_mmu.Common.{
  Exec, ap, String, List, not, ◌||◌, leb, Bool, true, false, ◌≡◌, refl, ◌∙◌, Result, ok, err,
  Option, none, some, ◌>>=◌, require, refuse, or_raise, gets, pure, raise, lift, continue,
  Bool-cases, inl, inr,
}
use vera_mmu.Common.Text.{is_empty, len}
use vera_mmu.Store.{
  Store, Tables, Rows, Method, Raised, append_audit, insert, transaction, execute, atomic,
  atomic_row,
}
use vera_mmu.Store.Rows.{Value, AuditEvent}
use vera_mmu.Store.Transaction.{settle}
use vera_mmu.Store.Keeps.{settle-atomic, settle-atomic_row, settle-transaction}
use vera_mmu.Store.Returns.{Returns}

pub record Leaves {S X E A : Type 0} (f : S → X) (m : Exec S E A) : Type 0 where
  pub at : (s : S) → f (m s).1 ≡ f s

-- a view of the tables that does not show the audit
abbrev pub HidesAudit : (Tables → Tables) → Type 0
HidesAudit f = (t : Tables) (audit : List AuditEvent) → f (record t { audit = audit }) ≡ f t

-- the same view, of a store
unfoldable pub on_tables : (Tables → Tables) → Store → Tables
on_tables f s = f s.tables

module _ {S X E A : Type 0} {f : S → X} where
  pub Leaves-bind :
      {B : Type 0} (m : Exec S E B) (k : B → Exec S E A)
      → Leaves f m
      → ((b : B) → Leaves f (k b))
      → Leaves f (m >>= k)
  unfolding ◌>>=◌
  Leaves-bind {B = B} m k h g = record { at = λ s. go (m s).0 (m s).1 ∙ h.at s }
    where
      go : (r : Result E B) (u : S) → f (continue r k u).1 ≡ f u
      go (ok b) u = (g b).at u
      go (err x) u = refl

  pub Leaves-gets : (g : S → A) → Leaves {E = E} f (gets g)
  unfolding gets
  Leaves-gets g = record { at = λ s. refl }

  pub Leaves-pure : (a : A) → Leaves {E = E} f (pure a)
  unfolding pure
  Leaves-pure a = record { at = λ s. refl }

  pub Leaves-raise : (x : E) → Leaves {A = A} f (raise x)
  unfolding raise
  Leaves-raise x = record { at = λ s. refl }

  pub Leaves-lift : (r : Result E A) → Leaves {E = E} f (lift r)
  unfolding lift
  Leaves-lift r = record { at = λ s. refl }

  pub Leaves-or_raise : (o : Option A) (x : E) → Leaves {E = E} f (or_raise o x)
  unfolding or_raise
  Leaves-or_raise none x = record { at = λ s. refl }
  Leaves-or_raise (some a) x = record { at = λ s. refl }

module _ {S X E : Type 0} {f : S → X} where
  pub Leaves-require : (b : Bool) (x : E) → Leaves {E = E} f (require b x)
  unfolding require
  Leaves-require true x = record { at = λ s. refl }
  Leaves-require false x = record { at = λ s. refl }

  pub Leaves-refuse : (b : Bool) (x : E) → Leaves {E = E} f (refuse b x)
  unfolding refuse
  Leaves-refuse true x = record { at = λ s. refl }
  Leaves-refuse false x = record { at = λ s. refl }

module _ {E : Type 0} {f : Tables → Tables} where
  pub Leaves-insert :
      (valid : Tables → Bool) (write : Tables → Tables)
      → ((t : Tables) → f (write t) ≡ f t)
      → Leaves f (insert {E = E} valid write)
  unfolding insert
  Leaves-insert valid write h = record {
    at =
        λ t. elim (Bool-cases (valid t)) [ inl fits ↦ rw fits (h t) | inr broken ↦ rw broken refl ];
  }

  pub Leaves-audit :
      (now action : String) (payload : List (String × Value))
      → HidesAudit f
      → Leaves f (append_audit {E = E} now action payload)
  unfolding append_audit
  Leaves-audit now action payload h = record {
    at = λ t. elim (Bool-cases (is_empty action || not (leb (len action) 128))) [
      | inl long ↦ rw long refl
      | inr fits ↦ rw fits (h t _)
    ];
  }

settle-Leaves :
    {E A : Type 0} (f : Tables → Tables) (t u : Tables) (r : Result (Raised E) A)
    → f u ≡ f t
    → f (settle t r u) ≡ f t
settle-Leaves f t u (ok a) same = same
settle-Leaves f t u (err x) same = refl

module _ {E A : Type 0} {f : Tables → Tables} where
  pub Leaves-atomic : (e : E) (m : Rows E A) → Leaves f m → Leaves (on_tables f) (atomic e m)
  unfolding on_tables
  Leaves-atomic e m h = record {
    at =
        λ s. ap f (settle-atomic e m s) ∙ settle-Leaves f s.tables _ (m s.tables).0 (h.at s.tables);
  }

  pub Leaves-atomic_row :
      (e u : E) (m : Rows E (Option A)) → Leaves f m → Leaves (on_tables f) (atomic_row e u m)
  unfolding on_tables
  Leaves-atomic_row e u m h = record {
    at = λ s.
        ap f (settle-atomic_row e u m s)
        ∙ settle-Leaves f s.tables _ (m s.tables).0 (h.at s.tables);
  }

  pub Leaves-transaction :
      (m : Rows E A) → Leaves f m → Leaves (on_tables f) (transaction (execute m))
  unfolding on_tables
  Leaves-transaction m h = record {
    at = λ s.
        ap f (settle-transaction m s) ∙ settle-Leaves f s.tables _ (m s.tables).0 (h.at s.tables);
  }

-- what holds of the tables that a block leaves, from the part that it does not touch
pub Returns-Leaves {ℓ} :
    {E A : Type 0} (P : Tables → Type ℓ) (f : Tables → Tables) (m : Rows E A) (t : Tables)
    → Leaves f m
    → ((u : Tables) → f u ≡ f t → P u)
    → Returns (λ _ u. P u) (m t)
Returns-Leaves P f m t h p = record { at = λ a e. p (m t).1 (h.at t) }

-- the same of the tables of the store
pub Leaves-tables :
    {E A : Type 0} (f : Tables → Tables) (m : Method E A)
    → Leaves (on_tables f) m
    → (s : Store) → f (m s).1.tables ≡ f s.tables
unfolding on_tables
Leaves-tables f m h s = h.at s

pub ruleset leaves_rules = (
  Leaves-bind, Leaves-gets, Leaves-pure, Leaves-raise, Leaves-lift, Leaves-or_raise, Leaves-require,
  Leaves-refuse, Leaves-insert, Leaves-audit, Leaves-atomic, Leaves-atomic_row, Leaves-transaction,
)
