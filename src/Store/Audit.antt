-- ===== src/Store/Audit.antt =====
-- `MemoryStore.audit_events` of src/vera_mmu/store.py: the audit as it is read. The table numbers its rows
-- from 1 and loses none, so the identifier of a row is its place.
use vera_mmu.Common.{
  ℕ, suc, ◌+◌, String, List, [], ◌∷◌, ◌++◌, ◌≡◌, refl, ap, arith, length, ok, Bool-cases, inl, inr,
  ◌∙◌, leb, not, ◌||◌,
}
use vera_mmu.Common.Text.{is_empty, len}
use vera_mmu.Store.{Tables, append_audit}
use vera_mmu.Store.Rows.{AuditEvent, Value}

pub record AuditEntry : Type 0 where
  pub id : ℕ
  pub event : AuditEvent

unfoldable pub numbered : ℕ → List AuditEvent → List AuditEntry
numbered n [] = []
numbered n (e ∷ es) = record { id = n; event = e } ∷ numbered (n + 1) es

unfoldable pub audit_events : Tables → List AuditEntry
unfolding numbered
audit_events t = numbered 1 t.audit

add_zero : (n : ℕ) → n + 0 ≡ n
add_zero n = omega arith

add-suc : (n k : ℕ) → n + 1 + k ≡ n + suc k
add-suc n k = omega arith

numbered-append :
    (n : ℕ) (es : List AuditEvent) (e : AuditEvent)
    → numbered n (es ++ e ∷ []) ≡ numbered n es ++ record { id = n + length es; event = e } ∷ []
unfolding numbered
numbered-append n [] e = rw (add_zero n) refl
numbered-append n (f ∷ es) e =
    ap (λ es'. record { id = n; event = f } ∷ es')
      (numbered-append (n + 1) es e
        ∙ ap (λ k. numbered (n + 1) es ++ record { id = k; event = e } ∷ [])
            (add-suc n (length es)))

-- A record that the audit accepts is read last, with the next identifier, and every earlier record is
-- read as it was.
pub append_audit-audit_events :
    {E : Type 0} (now action : String) (payload : List (String × Value)) (t : Tables)
    → (append_audit {E = E} now action payload t).0 ≡ ok tt
    → audit_events (append_audit {E = E} now action payload t).1
      ≡ audit_events t
        ++ record {
          id = 1 + length t.audit;
          event = record { occurred_at = now; action = action; payload = payload };
        }
          ∷ []
unfolding audit_events append_audit
append_audit-audit_events now action payload t accepted =
    elim (Bool-cases (is_empty action || not (leb (len action) 128))) [
      | inl refused ↦ ground (arith, accepted, refused)
      | inr fits ↦ rw fits (numbered-append 1 t.audit _)
    ]
