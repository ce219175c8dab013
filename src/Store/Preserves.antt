-- ===== src/Store/Preserves.antt =====
-- What a block of statements keeps of the tables, whether it returns or raises. One rule for each statement,
-- which `search` applies.
use vera_mmu.Common.{
  ◌≡◌, String, List, not, ◌||◌, leb, Bool, true, false, subst, sym, Result, ok, err, Option, none,
  some, ◌>>=◌, require, refuse, or_raise, gets, pure, raise, lift, continue, Bool-cases, inl, inr,
}
use vera_mmu.Common.Text.{is_empty, len}
use vera_mmu.Store.{Tables, Rows, Raised, append_audit, insert}
use vera_mmu.Store.Rows.{Value, AuditEvent}
use vera_mmu.Store.Frame.{Leaves}
use vera_mmu.Store.Transaction.{settle}
use vera_mmu.Store.Keeps.{
  Commits, Keeps-atomic, Keeps-atomic_row, Keeps-transaction, Keeps-query, Keeps-bind, Keeps-pure,
  Keeps-read, Keeps-choice, Keeps-lift, Keeps-require_last, Keeps-refuse_last,
}

pub record Preserves {E A : Type 0} (P : Tables → Type 0) (m : Rows E A) : Type 0 where
  pub at : (t : Tables) → P t → P (m t).1

-- a property of the tables that does not read the audit
abbrev pub ReadsNoAudit : (Tables → Type 0) → Type 0
ReadsNoAudit P = (t : Tables) (audit : List AuditEvent) → P t → P (record t { audit = audit })

module _ {E A : Type 0} {P : Tables → Type 0} where
  pub Preserves-bind :
      {B : Type 0} (m : Rows E B) (k : B → Rows E A)
      → Preserves P m
      → ((b : B) → Preserves P (k b))
      → Preserves P (m >>= k)
  unfolding ◌>>=◌
  Preserves-bind {B = B} m k h g = record { at = λ t p. go (m t).0 (m t).1 (h.at t p) }
    where
      go : (r : Result (Raised E) B) (u : Tables) → P u → P (continue r k u).1
      go (ok b) u p = (g b).at u p
      go (err x) u p = p

  pub Preserves-gets : (g : Tables → A) → Preserves {E = E} P (gets g)
  unfolding gets
  Preserves-gets g = record { at = λ t p. p }

  pub Preserves-pure : (a : A) → Preserves {E = E} P (pure a)
  unfolding pure
  Preserves-pure a = record { at = λ t p. p }

  pub Preserves-raise : (x : Raised E) → Preserves {A = A} P (raise x)
  unfolding raise
  Preserves-raise x = record { at = λ t p. p }

  pub Preserves-lift : (r : Result (Raised E) A) → Preserves P (lift r)
  unfolding lift
  Preserves-lift r = record { at = λ t p. p }

  pub Preserves-or_raise : (o : Option A) (x : Raised E) → Preserves P (or_raise o x)
  unfolding or_raise
  Preserves-or_raise none x = record { at = λ t p. p }
  Preserves-or_raise (some a) x = record { at = λ t p. p }

  -- what a commit of the block leaves: its tables, or those before it
  pub Preserves-Commits : (m : Rows E A) → Preserves P m → Commits P m
  Preserves-Commits m h = record { at = λ t p. go t (m t).0 (m t).1 p (h.at t p) }
    where
      go : (t : Tables) (r : Result (Raised E) A) (u : Tables) → P t → P u → P (settle t r u)
      go t (ok a) u p q = q
      go t (err x) u p q = p

module _ {E : Type 0} {P : Tables → Type 0} where
  pub Preserves-require : (b : Bool) (x : Raised E) → Preserves P (require b x)
  unfolding require
  Preserves-require true x = record { at = λ t p. p }
  Preserves-require false x = record { at = λ t p. p }

  pub Preserves-refuse : (b : Bool) (x : Raised E) → Preserves P (refuse b x)
  unfolding refuse
  Preserves-refuse true x = record { at = λ t p. p }
  Preserves-refuse false x = record { at = λ t p. p }

  pub Preserves-insert :
      (valid : Tables → Bool) (write : Tables → Tables)
      → ((t : Tables) → P t → P (write t))
      → Preserves P (insert {E = E} valid write)
  unfolding insert
  Preserves-insert valid write h = record {
    at = λ t p. elim (Bool-cases (valid t)) [
      | inl fits ↦ rw fits (h t p)
      | inr broken ↦ rw broken p
    ];
  }

  -- the same, where what is written is known to fit the constraints of its table
  pub Preserves-insert_valid :
      (valid : Tables → Bool) (write : Tables → Tables)
      → ((t : Tables) → valid t ≡ true → P t → P (write t))
      → Preserves P (insert {E = E} valid write)
  unfolding insert
  Preserves-insert_valid valid write h = record {
    at = λ t p. elim (Bool-cases (valid t)) [
      | inl fits ↦ rw fits (h t fits p)
      | inr broken ↦ rw broken p
    ];
  }

  pub Preserves-audit :
      (now action : String) (payload : List (String × Value))
      → ReadsNoAudit P
      → Preserves P (append_audit {E = E} now action payload)
  unfolding append_audit
  Preserves-audit now action payload h = record {
    at = λ t p. elim (Bool-cases (is_empty action || not (leb (len action) 128))) [
      | inl long ↦ rw long p
      | inr fits ↦ rw fits (h t _ p)
    ];
  }

-- a block that writes nothing keeps everything
pub Leaves-Preserves :
    {E A : Type 0} {P : Tables → Type 0} (m : Rows E A) → Leaves (λ t. t) m → Preserves P m
Leaves-Preserves {P = P} m h = record { at = λ t p. subst P (sym (h.at t)) p }

pub ruleset preserves_rules = (
  Preserves-bind, Preserves-gets, Preserves-pure, Preserves-raise, Preserves-lift,
  Preserves-or_raise, Preserves-require, Preserves-refuse, Preserves-insert, Preserves-audit,
  Preserves-Commits, Keeps-atomic, Keeps-atomic_row, Keeps-transaction, Keeps-query, Keeps-bind,
  Keeps-pure, Keeps-read, Keeps-choice, Keeps-lift, Keeps-require_last, Keeps-refuse_last,
)
