-- ===== src/Gates/Grows.antt =====
-- What the operations of src/vera_mmu/gates.py that declare gates and requirements do to the rows of
-- the store: more gates and requirements, and the policies as they were.
use mathlib.Core.List.{append-nil, append_assoc}
use vera_mmu.Common.{
  suc, ◌≤◌, ◌≡◌, refl, ◌∙◌, ap, sym, String, Bool, List, [], ◌∷◌, ◌++◌, ◌==◌, text_Eq, length,
  length-append, map, where_rows, where_rows-append, arith, pure,
}
use vera_mmu.Store.{Tables}
use vera_mmu.Store.Rows.{Gate, GateRequirement, AuditEvent}
use vera_mmu.Store.Returns.{
  Returns, Returns-ok, Returns-map, Returns-bind, Returns-gets, Returns-require, Returns-refuse,
  Returns-or_raise, Returns-insert, Returns-audit, Returns-audit_last,
}
use vera_mmu.Gates.{requirements}
use vera_mmu.Gates.Declare.{
  declare_rows, declare_with_requirements_rows, add_requirement_rows, insert_requirements,
  audit_requirements,
}

-- more gates and requirements, and the policies as they were
pub record Grows (t u : Tables) : Type 0 where
  new_gates : List Gate
  new_requirements : List GateRequirement
  gates_grow : u.gates ≡ t.gates ++ new_gates
  requirements_grow : u.gate_requirements ≡ t.gate_requirements ++ new_requirements
  pub policies_stay : u.gate_policies ≡ t.gate_policies

length-map {ℓ κ} :
    {A : Type ℓ} {B : Type κ} (f : A → B) (xs : List A) → length (map f xs) ≡ length xs
length-map f [] = refl
length-map f (x ∷ xs) = ap suc (length-map f xs)

length-where_rows-append {ℓ} :
    {A : Type ℓ} (p : A → Bool) (xs ys : List A)
    → length (where_rows p xs) ≤ length (where_rows p (xs ++ ys))
length-where_rows-append p xs ys =
    rw (where_rows-append p xs ys)
      (omega (arith, length-append (where_rows p xs) (where_rows p ys)))

pub length-requirements-le :
    (t u : Tables) (g : String) → Grows t u → length (requirements t g) ≤ length (requirements u g)
unfolding requirements
length-requirements-le t u g grown =
    let gs = grown.new_gates in
    let rs = grown.new_requirements in
    let p = λ (x : Gate). x.id == g in
    let q = λ (x : GateRequirement). x.gate_id == g in
    rw (grown.gates_grow, grown.requirements_grow)
      (omega (
        arith,
        length-append (map (λ (x : Gate). x.evidence_id) (where_rows p t.gates))
            (map (λ (x : GateRequirement). x.evidence_id) (where_rows q t.gate_requirements)),
        length-append (map (λ (x : Gate). x.evidence_id) (where_rows p (t.gates ++ gs))) (
            map (λ (x : GateRequirement). x.evidence_id)
              (where_rows q (t.gate_requirements ++ rs))),
        length-map (λ (x : Gate). x.evidence_id) (where_rows p t.gates),
        length-map (λ (x : GateRequirement). x.evidence_id) (where_rows q t.gate_requirements),
        length-map (λ (x : Gate). x.evidence_id) (where_rows p (t.gates ++ gs)),
        length-map (λ (x : GateRequirement). x.evidence_id)
            (where_rows q (t.gate_requirements ++ rs)),
        length-where_rows-append p t.gates gs,
        length-where_rows-append q t.gate_requirements rs,
      ))

Grows-refl : (t : Tables) (audit : List AuditEvent) → Grows t (record t { audit = audit })
Grows-refl t audit = record {
  new_gates = [];
  new_requirements = [];
  gates_grow = sym (append-nil t.gates);
  requirements_grow = sym (append-nil t.gate_requirements);
  policies_stay = refl;
}

Grows-trans : {t u v : Tables} → Grows t u → Grows u v → Grows t v
Grows-trans {t} {u} {v} g h = record {
  new_gates = g.new_gates ++ h.new_gates;
  new_requirements = g.new_requirements ++ h.new_requirements;
  gates_grow =
      h.gates_grow
      ∙ ap (λ l. l ++ h.new_gates) g.gates_grow
      ∙ append_assoc t.gates g.new_gates h.new_gates;
  requirements_grow =
      h.requirements_grow
      ∙ ap (λ l. l ++ h.new_requirements) g.requirements_grow
      ∙ append_assoc t.gate_requirements g.new_requirements h.new_requirements;
  policies_stay = h.policies_stay ∙ g.policies_stay;
}

Grows-gate :
    (t : Tables) (g : Gate) (audit : List AuditEvent)
    → Grows t (record t { gates = t.gates ++ g ∷ []; audit = audit })
Grows-gate t g audit = record {
  new_gates = g ∷ [];
  new_requirements = [];
  gates_grow = refl;
  requirements_grow = sym (append-nil t.gate_requirements);
  policies_stay = refl;
}

Grows-requirement :
    (t : Tables) (r : GateRequirement) (audit : List AuditEvent)
    → Grows t (record t { gate_requirements = t.gate_requirements ++ r ∷ []; audit = audit })
Grows-requirement t r audit = record {
  new_gates = [];
  new_requirements = r ∷ [];
  gates_grow = sym (append-nil t.gates);
  requirements_grow = refl;
  policies_stay = refl;
}

insert_requirements-Grows :
    {E : Type 0} (g actor now : String) (vs : List String) (t : Tables)
    → Returns {E = E} (λ _ u. Grows t u) (insert_requirements g actor now vs t)
unfolding insert_requirements pure
insert_requirements-Grows g actor now [] t = Returns-ok tt t (Grows-refl t t.audit)
insert_requirements-Grows g actor now (v ∷ vs) t = Returns-insert _ _ _ _ λ valid.
    Returns-map (insert_requirements-Grows g actor now vs _)
      (λ _ u grown. Grows-trans (Grows-requirement t _ t.audit) grown)

audit_requirements-Grows :
    {E : Type 0} (g actor now : String) (vs : List String) (t : Tables)
    → Returns {E = E} (λ _ u. Grows t u) (audit_requirements g actor now vs t)
unfolding audit_requirements pure
audit_requirements-Grows g actor now [] t = Returns-ok tt t (Grows-refl t t.audit)
audit_requirements-Grows g actor now (v ∷ vs) t = Returns-audit _ _ _ _ _ λ audit.
    Returns-map (audit_requirements-Grows g actor now vs _)
      (λ _ u grown. Grows-trans (Grows-refl t audit) grown)

pub declare_rows-Grows :
    (id item evidence actor now : String) (t : Tables)
    → Returns (λ _ u. Grows t u) (declare_rows id item evidence actor now t)
unfolding declare_rows
declare_rows-Grows id item evidence actor now t = Returns-gets _ _ _ (
    Returns-require _ _ _ _ λ known.
      Returns-insert _ _ _ _ λ valid. Returns-audit_last _ _ _ _ λ audit. Grows-gate t _ audit)

pub declare_with_requirements_rows-Grows :
    (id item evidence : String) (required : List String) (actor now : String) (t : Tables)
    → Returns
        (λ _ u. Grows t u)
        (declare_with_requirements_rows id item evidence required actor now t)
unfolding declare_with_requirements_rows
declare_with_requirements_rows-Grows id item evidence required actor now t = Returns-gets _ _ _ (
    Returns-require _ _ _ _ λ known. Returns-gets _ _ _ (
      Returns-require _ _ _ _ λ recorded. Returns-insert _ _ _ _ λ valid.
        Returns-bind _ _ _ (insert_requirements-Grows id actor now required _) λ _ u grown.
          Returns-audit _ _ _ _ _ λ audit.
            Returns-map (audit_requirements-Grows id actor now required _) (λ _ v last.
              Grows-trans (Grows-gate t _ t.audit)
                (Grows-trans grown (Grows-trans (Grows-refl u audit) last)))))

pub add_requirement_rows-Grows :
    (g evidence actor now : String) (t : Tables)
    → Returns (λ _ u. Grows t u) (add_requirement_rows g evidence actor now t)
unfolding add_requirement_rows
add_requirement_rows-Grows g evidence actor now t = Returns-gets _ _ _ (
    Returns-or_raise _ _ _ _ λ gate found. Returns-gets _ _ _ (
      Returns-require _ _ _ _ λ recorded. Returns-gets _ _ _ (
        Returns-refuse _ _ _ _ λ free. Returns-refuse _ _ _ _ λ other.
          Returns-insert _ _ _ _
            λ valid. Returns-audit_last _ _ _ _ λ audit. Grows-requirement t _ audit)))
