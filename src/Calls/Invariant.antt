-- ===== src/Calls/Invariant.antt =====
-- Each call of the services of src/vera_mmu keeps the store sound, and so does every sequence of them.
use vera_mmu.Common.{
  ◌≡◌, String, Option, none, some, is_some, true, refl, All, All-map, All-find, ◌==◌, text_Eq, find,
}
use vera_mmu.Store.{Store, Tables}
use vera_mmu.Store.Rows.{Evidence, Execution, KnowledgeProof, is_pass}
use vera_mmu.Store.Frame.{Leaves-tables}
use vera_mmu.Chain.Platform.{Platform}
use vera_mmu.Executions.Evidence.{run_evidence_hash, run_evidence_fields}
use vera_mmu.Calls.{
  Call, create_item, add_edge, declare_gate, declare_gate_with, require_evidence,
  declare_gate_policy, move_item, start_policy, completion_policy, admission_policy, proof_policy,
  record_proof, decide_on, promote_with, register_validator, validate_with, supersede_by,
  declare_capability, contract_capability, rule_capability, noop_run, observed_run, hash_run,
  fields_run, entity_type, new_entity, entity_batch, typed_batch, relation_type, new_relation,
  perform, Reached, here, after,
}
use vera_mmu.Relations.Typed.{
  register_type-IsTyped, create_entity-IsTyped, create_batch-IsTyped, register_batch-IsTyped,
  register_relation_type-IsTyped, create_relation-IsTyped,
}
use vera_mmu.Calls.Views.{
  hide_registry, hide_items, hide_history, hide_graph, hide_gates, hide_policies, hide_chain,
  hide_lines, hide_checks, hide_runs,
}
use vera_mmu.Calls.Frames.{
  register_type-Leaves, create_entity-Leaves, create_batch-Leaves, register_batch-Leaves,
  register_relation_type-Leaves, create_relation-Leaves, create-Leaves, add_dependency-Leaves,
  declare-Leaves, declare_with_requirements-Leaves, add_requirement-Leaves, declare_policy-Leaves,
  transition-Leaves, declare_start_policy-Leaves, declare_completion_policy-Leaves,
  declare_admission_policy-Leaves, declare_proof_policy-Leaves, record_evidence-Leaves,
  decide-Leaves, promote-Leaves, register-Leaves, validate-Leaves, supersede-Leaves,
  create_capability-Leaves, declare_contract-Leaves, declare_capability_policy-Leaves,
  run_noop-Leaves, record_observed_process-Leaves, run_evidence-Leaves,
}
use vera_mmu.Calls.Sound.{
  IsSound-hide_registry, IsSound, IsSound-hide_items, IsSound-hide_history, IsSound-hide_graph,
  IsSound-hide_gates, IsSound-hide_policies, IsSound-hide_chain, IsSound-hide_lines,
  IsSound-hide_checks, IsSound-hide_runs,
}
use vera_mmu.Calls.Founded.{
  is_executed, run_noop-IsFounded, record_observed_process-IsFounded, run_evidence-IsFounded,
  record_evidence-IsFounded, decide-IsFounded, promote-IsFounded, create_capability-IsGranted,
  declare_contract-IsGranted, declare_capability_policy-IsGranted,
}
use vera_mmu.WorkItems.Forest.{create-IsForest}
use vera_mmu.WorkGraph.Order.{add_dependency-IsOrdered}
use vera_mmu.Gates.Thresholds.{
  declare-Keeps, declare_with_requirements-Keeps, add_requirement-Keeps, declare_policy-Keeps,
}
use vera_mmu.Lifecycle.History.{transition-IsRecorded}
use vera_mmu.Chain.Backed.{find_evidence, ProofIsBacked}
use vera_mmu.Chain.Backed.Services.{record_evidence-IsBacked, decide-IsBacked, promote-IsBacked}
use vera_mmu.Supersession.Lines.{supersede-HasLines}
use vera_mmu.Executions.Allowed.{
  Permitted, run_noop-Keeps, record_observed_process-Keeps, run_evidence-Keeps,
}

perform-IsSound :
    (p : Platform) (c : Call) (actor now : String) (s : Store)
    → IsSound p s.tables
    → IsSound p (perform p c actor now s).tables
unfolding perform run_evidence_hash run_evidence_fields
perform-IsSound p (create_item new) actor now s h =
    IsSound-hide_items p s.tables _ (Leaves-tables hide_items _ (create-Leaves p new actor now) s)
      (create-IsForest p new actor now s h.forest) h
perform-IsSound p (add_edge d r) actor now s h =
    IsSound-hide_graph p s.tables _
      (Leaves-tables hide_graph _ (add_dependency-Leaves d r actor now) s)
      (add_dependency-IsOrdered d r actor now s h.ordered) h
perform-IsSound p (declare_gate g w e) actor now s h =
    IsSound-hide_gates p s.tables _ (Leaves-tables hide_gates _ (declare-Leaves g w e actor now) s)
      ((declare-Keeps g w e actor now).at s h.satisfiable) h
perform-IsSound p (declare_gate_with g w e es) actor now s h =
    IsSound-hide_gates p s.tables _
      (Leaves-tables hide_gates _ (declare_with_requirements-Leaves g w e es actor now) s)
      ((declare_with_requirements-Keeps g w e es actor now).at s h.satisfiable) h
perform-IsSound p (require_evidence g e) actor now s h =
    IsSound-hide_gates p s.tables _
      (Leaves-tables hide_gates _ (add_requirement-Leaves g e actor now) s)
      ((add_requirement-Keeps g e actor now).at s h.satisfiable) h
perform-IsSound p (declare_gate_policy g m k) actor now s h =
    IsSound-hide_gates p s.tables _
      (Leaves-tables hide_gates _ (declare_policy-Leaves g m k actor now) s)
      ((declare_policy-Keeps g m k actor now).at s h.satisfiable) h
perform-IsSound p (move_item id w e r) actor now s h =
    IsSound-hide_history p s.tables _
      (Leaves-tables hide_history _ (transition-Leaves id w e r actor now) s)
      (transition-IsRecorded id w e r actor now s h.recorded) h
perform-IsSound p (start_policy m) actor now s h =
    IsSound-hide_policies p s.tables _
      (Leaves-tables hide_policies _ (declare_start_policy-Leaves m actor now) s) h
perform-IsSound p (completion_policy m) actor now s h =
    IsSound-hide_policies p s.tables _
      (Leaves-tables hide_policies _ (declare_completion_policy-Leaves m actor now) s) h
perform-IsSound p (admission_policy m) actor now s h =
    IsSound-hide_policies p s.tables _
      (Leaves-tables hide_policies _ (declare_admission_policy-Leaves m actor now) s) h
perform-IsSound p (proof_policy a b) actor now s h =
    IsSound-hide_policies p s.tables _
      (Leaves-tables hide_policies _ (declare_proof_policy-Leaves a b actor now) s) h
perform-IsSound p (record_proof id x t v c) actor now s h =
    IsSound-hide_chain p s.tables _
      (Leaves-tables hide_chain _ (record_evidence-Leaves p id x t v c actor now) s)
      (record_evidence-IsBacked p id x t v c actor now s h.backed)
      ((record_evidence-IsFounded p id x t v c actor now).at s h.founded) h
perform-IsSound p (decide_on id e d r v) actor now s h =
    IsSound-hide_chain p s.tables _
      (Leaves-tables hide_chain _ (decide-Leaves id e d r v actor now) s)
      (decide-IsBacked p id e d r v actor now s h.backed)
      ((decide-IsFounded id e d r v actor now).at s h.founded) h
perform-IsSound p (promote_with secret id k e a) actor now s h =
    IsSound-hide_chain p s.tables _
      (Leaves-tables hide_chain _ (promote-Leaves p secret id k e a actor now) s)
      (promote-IsBacked p secret id k e a actor now s h.backed)
      ((promote-IsFounded p secret id k e a actor now).at s h.founded) h
perform-IsSound p (register_validator id k ks) actor now s h =
    IsSound-hide_checks p s.tables _
      (Leaves-tables hide_checks _ (register-Leaves p id k ks actor now) s) h
perform-IsSound p (validate_with id v e) actor now s h =
    IsSound-hide_checks p s.tables _
      (Leaves-tables hide_checks _ (validate-Leaves p id v e actor now) s) h
perform-IsSound p (supersede_by a b) actor now s h =
    IsSound-hide_lines p s.tables _ (Leaves-tables hide_lines _ (supersede-Leaves a b actor now) s)
      (supersede-HasLines a b actor now s h.lines) h
perform-IsSound p (declare_capability new) actor now s h =
    IsSound-hide_runs p s.tables _
      (Leaves-tables hide_runs _ (create_capability-Leaves p new actor now) s)
      ((create_capability-IsGranted p new actor now).at s (h.allowed, h.founded)).0
      ((create_capability-IsGranted p new actor now).at s (h.allowed, h.founded)).1 h
perform-IsSound p (contract_capability id r n t c y) actor now s h =
    IsSound-hide_runs p s.tables _
      (Leaves-tables hide_runs _ (declare_contract-Leaves p id r n t c y actor now) s)
      ((declare_contract-IsGranted p id r n t c y actor now).at s (h.allowed, h.founded)).0
      ((declare_contract-IsGranted p id r n t c y actor now).at s (h.allowed, h.founded)).1 h
perform-IsSound p (rule_capability id d r) actor now s h =
    IsSound-hide_runs p s.tables _
      (Leaves-tables hide_runs _ (declare_capability_policy-Leaves id d r actor now) s)
      ((declare_capability_policy-IsGranted id d r actor now).at s (h.allowed, h.founded)).0
      ((declare_capability_policy-IsGranted id d r actor now).at s (h.allowed, h.founded)).1 h
perform-IsSound p (noop_run id c ms) actor now s h =
    IsSound-hide_runs p s.tables _
      (Leaves-tables hide_runs _ (run_noop-Leaves p id c ms actor now) s)
      ((run_noop-Keeps p id c ms actor now).at s h.allowed)
      ((run_noop-IsFounded p id c ms actor now).at s h.founded) h
perform-IsSound p (observed_run id c ms o) actor now s h =
    IsSound-hide_runs p s.tables _
      (Leaves-tables hide_runs _ (record_observed_process-Leaves p id c ms o actor now) s)
      ((record_observed_process-Keeps p id c ms o actor now).at s h.allowed)
      ((record_observed_process-IsFounded p id c ms o actor now).at s h.founded) h
perform-IsSound p (hash_run id c ms v) actor now s h =
    IsSound-hide_runs p s.tables _
      (Leaves-tables hide_runs _ (run_evidence-Leaves p _ _ _ id c ms v actor now) s)
      ((run_evidence-Keeps p _ _ _ id c ms v actor now).at s h.allowed)
      ((run_evidence-IsFounded p _ _ _ id c ms v actor now).at s h.founded) h
perform-IsSound p (fields_run id c ms v) actor now s h =
    IsSound-hide_runs p s.tables _
      (Leaves-tables hide_runs _ (run_evidence-Leaves p _ _ _ id c ms v actor now) s)
      ((run_evidence-Keeps p _ _ _ id c ms v actor now).at s h.allowed)
      ((run_evidence-IsFounded p _ _ _ id c ms v actor now).at s h.founded) h
perform-IsSound p (entity_type x l d ms) actor now s h =
    IsSound-hide_registry p s.tables _
      (Leaves-tables hide_registry _ (register_type-Leaves p x l d ms actor now) s)
      ((register_type-IsTyped p x l d ms actor now).at s h.typed) h
perform-IsSound p (new_entity x new) actor now s h =
    IsSound-hide_registry p s.tables _
      (Leaves-tables hide_registry _ (create_entity-Leaves p x new actor now) s)
      ((create_entity-IsTyped p x new actor now).at s h.typed) h
perform-IsSound p (entity_batch x news) actor now s h =
    IsSound-hide_registry p s.tables _
      (Leaves-tables hide_registry _ (create_batch-Leaves p x news actor now) s)
      ((create_batch-IsTyped p x news actor now).at s h.typed) h
perform-IsSound p (typed_batch x l news d ms) actor now s h =
    IsSound-hide_registry p s.tables _
      (Leaves-tables hide_registry _ (register_batch-Leaves p x l news d ms actor now) s)
      ((register_batch-IsTyped p x l news d ms actor now).at s h.typed) h
perform-IsSound p (relation_type x l d a b) actor now s h =
    IsSound-hide_registry p s.tables _
      (Leaves-tables hide_registry _ (register_relation_type-Leaves p x l d a b actor now) s)
      ((register_relation_type-IsTyped p x l d a b actor now).at s h.typed) h
perform-IsSound p (new_relation id x a b) actor now s h =
    IsSound-hide_registry p s.tables _
      (Leaves-tables hide_registry _ (create_relation-Leaves p id x a b actor now) s)
      ((create_relation-IsTyped p id x a b actor now).at s h.typed) h

-- Whatever is called, in whatever order, a store stays sound: the tables keep all that they promise each
-- other, after accepted and refused calls alike.
pub Reached-IsSound :
    (p : Platform) (s u : Store) → IsSound p s.tables → Reached p s u → IsSound p u.tables
Reached-IsSound p s _ h here = h
Reached-IsSound p s _ h (after c actor now r) =
    perform-IsSound p c actor now _ (Reached-IsSound p s _ h r)

-- what a proof goes back to: an evidence that passed, of an execution that the contract and the policy of
-- its capability allowed
pub record IsTraced (t : Tables) (q : KnowledgeProof) : Type 0 where
  pub evidence : Evidence
  pub recorded : find_evidence t q.evidence_id ≡ some evidence
  pub passed : is_pass evidence.verdict ≡ true
  pub execution : Execution
  pub executed : find (λ x. x.id == evidence.execution_id) t.executions ≡ some execution
  pub permitted : Permitted t.contracts t.capability_policies execution.capability_id

found : {A : Type 0} (o : Option A) → is_some o ≡ true → (a : A) × (o ≡ some a)
found none h = cc
found (some a) h = (a, refl)

IsSound-IsTraced :
    (p : Platform) (t : Tables) (q : KnowledgeProof)
    → IsSound p t
    → ProofIsBacked p t q
    → IsTraced t q
unfolding is_executed
IsSound-IsTraced p t q h b =
    let known =
      All-find (λ (e : Evidence). is_executed t.executions e.execution_id ≡ true) _ t.evidence
        b.evidence h.founded b.recorded in
    let (x, same) =
      found (find (λ (x : Execution). x.id == b.evidence.execution_id) t.executions) known in
    record {
      evidence = b.evidence;
      recorded = b.recorded;
      passed = b.passed;
      execution = x;
      executed = same;
      permitted =
          All-find (λ (y : Execution). Permitted t.contracts t.capability_policies y.capability_id)
            _ t.executions x h.allowed same;
    }

-- In every store that calls reach from a sound one, each proof goes back to an evidence that passed, the
-- evidence to a recorded execution, and the execution to a contract that yields no proof and a policy that
-- says ALLOW.
pub Reached-IsTraced :
    (p : Platform) (s u : Store)
    → IsSound p s.tables
    → Reached p s u
    → All (IsTraced u.tables) u.tables.proofs
Reached-IsTraced p s u h r =
    let sound = Reached-IsSound p s u h r in
    All-map _ _ u.tables.proofs (λ q b. IsSound-IsTraced p u.tables q sound b) sound.backed.proofs
