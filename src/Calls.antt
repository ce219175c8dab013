-- ===== src/Calls.antt =====
-- The writes of all services of src/vera_mmu, as calls on one store, and the stores that a project reaches
-- by any sequence of them, accepted or refused.
pub mod Views
pub mod Frames
pub mod Founded
pub mod Sound
pub mod Invariant
use vera_mmu.Common.{ℕ, String, Bool, Option, List}
use vera_mmu.Store.{Store}
use vera_mmu.Store.Rows.{Value}
use vera_mmu.Chain.Platform.{Platform, Members}
use vera_mmu.WorkGraph.{add_dependency}
use vera_mmu.Gates.Declare.{declare, declare_with_requirements, add_requirement, declare_policy}
use vera_mmu.Lifecycle.{transition}
use vera_mmu.Policies.{
  declare_start_policy, declare_completion_policy, declare_admission_policy, declare_proof_policy,
}
use vera_mmu.Chain.Record.{record_evidence}
use vera_mmu.Chain.Decide.{decide}
use vera_mmu.Chain.Promote.{promote}
use vera_mmu.Validators.Register.{register}
use vera_mmu.Validators.Validate.{validate}
use vera_mmu.Supersession.{supersede}
use vera_mmu.WorkItems.{create, NewItem}
use vera_mmu.Capabilities.{create_capability, NewCapability}
use vera_mmu.Capabilities.Contracts.{declare_contract}
use vera_mmu.Capabilities.Policies.{declare_capability_policy}
use vera_mmu.Entities.{EntityCreateInput, register_type, create_entity}
use vera_mmu.Entities.Batch.{create_batch, register_batch}
use vera_mmu.Relations.{register_relation_type}
use vera_mmu.Relations.Create.{create_relation}
use vera_mmu.Executions.{run_noop, record_observed_process, Observation}
use vera_mmu.Executions.Evidence.{run_evidence_hash, run_evidence_fields}

-- One call with its arguments. The actor and the time of the call are arguments of `perform`.
pub data Call : Type 0 where
  create_item : NewItem → Call
  add_edge : String → String → Call
  declare_gate : String → String → String → Call
  declare_gate_with : String → String → String → List String → Call
  require_evidence : String → String → Call
  declare_gate_policy : String → String → Option ℕ → Call
  move_item : String → String → String → String → Call
  start_policy completion_policy admission_policy : String → Call
  proof_policy : String → Bool → Call
  record_proof : String → String → String → String → Members → Call
  decide_on : String → String → String → String → Option String → Call
  promote_with : Option String → String → String → String → String → Call
  register_validator : String → String → Option (List String) → Call
  validate_with : String → String → String → Call
  supersede_by : String → String → Call
  declare_capability : NewCapability → Call
  contract_capability : String → String → String → ℕ → Members → Bool → Call
  rule_capability : String → String → String → Call
  noop_run : String → String → Members → Call
  observed_run : String → String → Members → Observation → Call
  hash_run fields_run : String → String → Members → String → Call
  entity_type : String → String → String → Option Members → Call
  new_entity : String → EntityCreateInput → Call
  entity_batch : String → List EntityCreateInput → Call
  typed_batch : String → String → List EntityCreateInput → String → Option Members → Call
  relation_type : String → String → String → Option (List String) → Option (List String) → Call
  new_relation : String → String → String → String → Call

-- the store that a call leaves
unfoldable pub perform : Platform → Call → String → String → Store → Store
perform p (create_item new) actor now s = (create p new actor now s).1
perform p (add_edge d r) actor now s = (add_dependency d r actor now s).1
perform p (declare_gate g w e) actor now s = (declare g w e actor now s).1
perform p (declare_gate_with g w e es) actor now s =
    (declare_with_requirements g w e es actor now s).1
perform p (require_evidence g e) actor now s = (add_requirement g e actor now s).1
perform p (declare_gate_policy g m k) actor now s = (declare_policy g m k actor now s).1
perform p (move_item id w e r) actor now s = (transition id w e r actor now s).1
perform p (start_policy m) actor now s = (declare_start_policy m actor now s).1
perform p (completion_policy m) actor now s = (declare_completion_policy m actor now s).1
perform p (admission_policy m) actor now s = (declare_admission_policy m actor now s).1
perform p (proof_policy a h) actor now s = (declare_proof_policy a h actor now s).1
perform p (record_proof id x t v c) actor now s = (record_evidence p id x t v c actor now s).1
perform p (decide_on id e d r v) actor now s = (decide id e d r v actor now s).1
perform p (promote_with secret id k e a) actor now s = (promote p secret id k e a actor now s).1
perform p (register_validator id k ks) actor now s = (register p id k ks actor now s).1
perform p (validate_with id v e) actor now s = (validate p id v e actor now s).1
perform p (supersede_by a b) actor now s = (supersede a b actor now s).1
perform p (declare_capability new) actor now s = (create_capability p new actor now s).1
perform p (contract_capability id r n t c y) actor now s =
    (declare_contract p id r n t c y actor now s).1
perform p (rule_capability id d r) actor now s = (declare_capability_policy id d r actor now s).1
perform p (noop_run id c ms) actor now s = (run_noop p id c ms actor now s).1
perform p (observed_run id c ms o) actor now s = (record_observed_process p id c ms o actor now s).1
perform p (hash_run id c ms v) actor now s = (run_evidence_hash p id c ms v actor now s).1
perform p (fields_run id c ms v) actor now s = (run_evidence_fields p id c ms v actor now s).1
perform p (entity_type x l d ms) actor now s = (register_type p x l d ms actor now s).1
perform p (new_entity x new) actor now s = (create_entity p x new actor now s).1
perform p (entity_batch x news) actor now s = (create_batch p x news actor now s).1
perform p (typed_batch x l news d ms) actor now s = (register_batch p x l news d ms actor now s).1
perform p (relation_type x l d a b) actor now s = (register_relation_type p x l d a b actor now s).1
perform p (new_relation id x a b) actor now s = (create_relation p id x a b actor now s).1

-- the stores reached from `s` by calls
pub data Reached (p : Platform) (s : Store) : Store → Type 0 where
  here : Reached p s s
  after :
      {u : Store} (c : Call) (actor now : String)
      → Reached p s u
      → Reached p s (perform p c actor now u)
