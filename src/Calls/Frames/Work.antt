-- ===== src/Calls/Frames/Work.antt =====
-- What the writes to work items, gates and policies of src/vera_mmu leave alone.
use vera_mmu.Common.{
  ◌≡◌, refl, ap, ℕ, String, Bool, true, false, Option, List, [], ◌∷◌, Result, ok, err,
}
use vera_mmu.Store.{Tables, Rows}
use vera_mmu.Store.Rows.{Policy, Value}
use vera_mmu.Store.Frame.{
  Leaves, leaves_rules, on_tables, Leaves-bind, Leaves-pure, Leaves-require, Leaves-raise,
  Leaves-insert, Leaves-audit,
}
use vera_mmu.Readiness.{Readiness, ReadinessError}
use vera_mmu.Lifecycle.{
  transition, transition_rows, insert_event, when, demand_ready, LifecycleError,
}
use vera_mmu.Chain.Platform.{Platform}
use vera_mmu.WorkGraph.{add_dependency, add_dependency_rows, insert_dependency}
use vera_mmu.Gates.Declare.{
  declare, declare_rows, declare_with_requirements, declare_with_requirements_rows, insert_gate,
  insert_requirement, insert_requirements, audit_requirements, add_requirement,
  add_requirement_rows, declare_policy, declare_policy_rows, insert_policy, or_raised,
}
use vera_mmu.Policies.{
  PolicyTable, declare_in, declare_in_rows, insert_row, declare_start_policy,
  declare_completion_policy, declare_admission_policy, declare_proof_policy, start_table,
  completion_table, admission_table, proof_table, start_table-put, completion_table-put,
  admission_table-put, proof_table-put,
}
use vera_mmu.Supersession.{supersede, supersede_rows, insert_link, read_link, require_knowledge_id}
use vera_mmu.WorkItems.{create, create_rows, insert_item, read_item, require_item_id, NewItem}
use vera_mmu.Calls.Views.{
  hide_items, hide_history, hide_graph, hide_gates, hide_policies, hide_lines,
  hide_items-HidesAudit, hide_history-HidesAudit, hide_graph-HidesAudit, hide_gates-HidesAudit,
  hide_policies-HidesAudit, hide_lines-HidesAudit,
}

when-Leaves :
    {E : Type 0} (b : Bool) (m : Rows E Unit)
    → Leaves hide_history m
    → Leaves hide_history (when b m)
unfolding when
when-Leaves true m h = h
when-Leaves false m h = Leaves-pure tt

demand_ready-Leaves :
    (e : LifecycleError) (r : Result ReadinessError Readiness)
    → Leaves hide_history (demand_ready e r)
unfolding demand_ready
demand_ready-Leaves e (ok r) = Leaves-require _ _
demand_ready-Leaves e (err x) = Leaves-raise _

pub transition-Leaves :
    (id item event_text reason actor now : String)
    → Leaves (on_tables hide_history) (transition id item event_text reason actor now)
unfolding transition transition_rows insert_event hide_history
transition-Leaves id item event_text reason actor now =
    search (leaves_rules, when-Leaves, demand_ready-Leaves, hide_history-HidesAudit) depth 60

pub add_dependency-Leaves :
    (d p actor now : String) → Leaves (on_tables hide_graph) (add_dependency d p actor now)
unfolding add_dependency add_dependency_rows insert_dependency hide_graph
add_dependency-Leaves d p actor now = search (leaves_rules, hide_graph-HidesAudit) depth 60

pub create-Leaves :
    (p : Platform) (new : NewItem) (actor now : String)
    → Leaves (on_tables hide_items) (create p new actor now)
unfolding create create_rows insert_item read_item require_item_id hide_items
create-Leaves p new actor now = search (leaves_rules, hide_items-HidesAudit) depth 60

pub supersede-Leaves :
    (a b actor now : String) → Leaves (on_tables hide_lines) (supersede a b actor now)
unfolding supersede supersede_rows insert_link read_link require_knowledge_id hide_lines
supersede-Leaves a b actor now = search (leaves_rules, hide_lines-HidesAudit) depth 60

-- the gates
pub declare-Leaves :
    (id item evidence actor now : String)
    → Leaves (on_tables hide_gates) (declare id item evidence actor now)
unfolding declare declare_rows insert_gate hide_gates
declare-Leaves id item evidence actor now = search (leaves_rules, hide_gates-HidesAudit) depth 60

insert_requirements-Leaves :
    {E : Type 0} (g actor now : String) (vs : List String)
    → Leaves hide_gates (insert_requirements {E = E} g actor now vs)
unfolding insert_requirements insert_requirement hide_gates
insert_requirements-Leaves g actor now [] = Leaves-pure tt
insert_requirements-Leaves g actor now (v ∷ vs) =
    Leaves-bind _ _ (Leaves-insert _ _ λ t. refl) λ u. insert_requirements-Leaves g actor now vs

audit_requirements-Leaves :
    {E : Type 0} (g actor now : String) (vs : List String)
    → Leaves hide_gates (audit_requirements {E = E} g actor now vs)
unfolding audit_requirements
audit_requirements-Leaves g actor now [] = Leaves-pure tt
audit_requirements-Leaves g actor now (v ∷ vs) =
    Leaves-bind _ _ (Leaves-audit _ _ _ hide_gates-HidesAudit)
      λ u. audit_requirements-Leaves g actor now vs

pub declare_with_requirements-Leaves :
    (id item evidence : String) (required : List String) (actor now : String)
    → Leaves (on_tables hide_gates) (declare_with_requirements id item evidence required actor now)
unfolding declare_with_requirements declare_with_requirements_rows insert_gate hide_gates
declare_with_requirements-Leaves id item evidence required actor now =
    search
      (leaves_rules, insert_requirements-Leaves, audit_requirements-Leaves, hide_gates-HidesAudit)
      depth 60

pub add_requirement-Leaves :
    (g evidence actor now : String)
    → Leaves (on_tables hide_gates) (add_requirement g evidence actor now)
unfolding add_requirement add_requirement_rows insert_requirement hide_gates
add_requirement-Leaves g evidence actor now = search (leaves_rules, hide_gates-HidesAudit) depth 60

or_raised-Leaves : {E A : Type 0} (f : Tables → Tables) (r : Result E A) → Leaves f (or_raised r)
unfolding or_raised
or_raised-Leaves f (ok a) = record { at = λ t. refl }
or_raised-Leaves f (err e) = record { at = λ t. refl }

pub declare_policy-Leaves :
    (g mode : String) (minimum : Option ℕ) (actor now : String)
    → Leaves (on_tables hide_gates) (declare_policy g mode minimum actor now)
unfolding declare_policy declare_policy_rows insert_policy hide_gates
declare_policy-Leaves g mode minimum actor now =
    search (leaves_rules, or_raised-Leaves, hide_gates-HidesAudit) depth 60

-- the policies that are declared once
declare_in-Leaves :
    {M : Type 0} (table : PolicyTable M) (payload : List (String × Value)) (known : Option M)
    (actor now : String)
    → ((t : Tables) (p : Policy M) → hide_policies (table.put p t) ≡ hide_policies t)
    → Leaves (on_tables hide_policies) (declare_in table payload known actor now)
unfolding declare_in declare_in_rows insert_row
declare_in-Leaves table payload known actor now h =
    search (leaves_rules, hide_policies-HidesAudit, h) depth 60

pub declare_start_policy-Leaves :
    (mode actor now : String)
    → Leaves (on_tables hide_policies) (declare_start_policy mode actor now)
unfolding declare_start_policy hide_policies
declare_start_policy-Leaves mode actor now =
    declare_in-Leaves start_table _ _ actor now (λ t p. ap hide_policies (start_table-put t p))

pub declare_completion_policy-Leaves :
    (mode actor now : String)
    → Leaves (on_tables hide_policies) (declare_completion_policy mode actor now)
unfolding declare_completion_policy hide_policies
declare_completion_policy-Leaves mode actor now =
    declare_in-Leaves completion_table _ _ actor now
      (λ t p. ap hide_policies (completion_table-put t p))

pub declare_admission_policy-Leaves :
    (mode actor now : String)
    → Leaves (on_tables hide_policies) (declare_admission_policy mode actor now)
unfolding declare_admission_policy hide_policies
declare_admission_policy-Leaves mode actor now =
    declare_in-Leaves admission_table _ _ actor now
      (λ t p. ap hide_policies (admission_table-put t p))

pub declare_proof_policy-Leaves :
    (algorithm : String) (hmac : Bool) (actor now : String)
    → Leaves (on_tables hide_policies) (declare_proof_policy algorithm hmac actor now)
unfolding declare_proof_policy hide_policies
declare_proof_policy-Leaves algorithm hmac actor now =
    declare_in-Leaves proof_table _ _ actor now (λ t p. ap hide_policies (proof_table-put t p))
