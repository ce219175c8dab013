-- ===== src/Calls/Founded.antt =====
-- Each evidence names a recorded execution (src/vera_mmu/evidence.py), and what declares the contract or the
-- policy of a capability leaves the recorded executions allowed.
use vera_mmu.Common.{
  ◌≡◌, ℕ, String, Bool, true, false, ◌==◌, text_Eq, Option, none, some, is_some, List, [], ◌∷◌,
  ◌++◌, find, Result, ok, err, pure, All, All-map, All-append, arith,
}
use vera_mmu.Store.{Tables, Rows, Raised, raised, integrity_error, store_error}
use vera_mmu.Store.Rows.{
  Execution, Evidence, Capability, CapabilityContract, CapabilityPolicy, ValidationResult,
  RunnerProfile, ValidatorKind, Verdict, Decision,
}
use vera_mmu.Store.Keeps.{
  Keeps, Keeps-require, Keeps-refuse, Keeps-or_raise, Keeps-bind, Keeps-pure, Keeps-atomic_row,
}
use vera_mmu.Store.Returns.{
  Returns, Returns-gets, Returns-require, Returns-insert, Returns-audit, Returns-ok, settle-Returns,
}
use vera_mmu.Store.Preserves.{
  Preserves, ReadsNoAudit, preserves_rules, Preserves-insert, Preserves-pure, Preserves-raise,
  Leaves-Preserves,
}
use vera_mmu.Chain.Platform.{Platform, Members}
use vera_mmu.Chain.Record.{
  evidence_row, record_evidence, record_evidence_rows, insert_evidence, read_evidence,
}
use vera_mmu.Chain.Decide.{
  decide, decide_rows, insert_admission, check_decision, bind_validation, insert_binding,
}
use vera_mmu.Chain.Promote.{promote, promote_rows, insert_proof}
use vera_mmu.Validators.Rules.{ValidatorError}
use vera_mmu.Validators.Validate.{record_validation, insert_result}
use vera_mmu.Capabilities.{
  create_capability, create_capability_rows, insert_capability, read_capability, decoded, canonical,
  require_capability_id, NewCapability,
}
use vera_mmu.Capabilities.Contracts.{
  declare_contract, declare_contract_rows, insert_contract, read_contract,
}
use vera_mmu.Capabilities.Policies.{
  declare_capability_policy, declare_capability_policy_rows, insert_capability_policy,
}
use vera_mmu.Calls.Frames.{check_decision-Leaves}
use vera_mmu.Executions.{
  admit, validated, insert_execution, run_noop, run_noop_rows, record_observed_process,
  observed_rows, Observation, rethrow,
}
use vera_mmu.Executions.Evidence.{run_evidence, run_evidence_rows}
use vera_mmu.Executions.Allowed.{IsAllowed, Permitted-contracts, Permitted-policies}

unfoldable pub is_executed : List Execution → String → Bool
is_executed xs id = is_some (find (λ x. x.id == id) xs)

abbrev pub IsFounded : Tables → Type 0
IsFounded t = All (λ e. is_executed t.executions e.execution_id ≡ true) t.evidence

is_executed-append :
    (xs : List Execution) (x : Execution) (id : String)
    → is_executed xs id ≡ true
    → is_executed (xs ++ x ∷ []) id ≡ true
unfolding is_executed find
is_executed-append [] x id h = cc
is_executed-append (y ∷ xs) x id h = ground (arith, is_executed-append xs x id)

add_execution-IsFounded :
    (x : Execution) (t : Tables)
    → IsFounded t
    → IsFounded (record t { executions = t.executions ++ x ∷ [] })
add_execution-IsFounded x t h =
    All-map _ _ t.evidence (λ e known. is_executed-append t.executions x e.execution_id known) h

IsFounded-ReadsNoAudit : ReadsNoAudit IsFounded
IsFounded-ReadsNoAudit t audit h = h

rethrow-Preserves :
    {A : Type 0} (m : Rows ValidatorError A)
    → Preserves IsFounded m
    → Preserves IsFounded (λ t. rethrow (m t))
rethrow-Preserves {A = A} m h = record { at = λ t p. go (m t) (h.at t p) }
  where
    go : (r : Result (Raised ValidatorError) A × Tables) → IsFounded r.1 → IsFounded (rethrow r).1
    go (ok a, u) p = p
    go (err (raised e), u) p = p
    go (err integrity_error, u) p = p
    go (err store_error, u) p = p

insert_execution-Preserves :
    {E : Type 0} (platform : Platform) (x : Execution)
    → Preserves {E = E} IsFounded (insert_execution platform x)
unfolding insert_execution
insert_execution-Preserves platform x = search (preserves_rules, add_execution-IsFounded) depth 10

insert_result-Preserves :
    {E : Type 0} (r : ValidationResult) → Preserves {E = E} IsFounded (insert_result r)
unfolding insert_result
insert_result-Preserves r = Preserves-insert _ _ λ t h. h

pub run_noop-IsFounded :
    (p : Platform) (id capability : String) (parameters : Members) (actor now : String)
    → Keeps IsFounded (run_noop p id capability parameters actor now)
unfolding run_noop run_noop_rows admit validated
run_noop-IsFounded p id capability parameters actor now =
    search (preserves_rules, insert_execution-Preserves, IsFounded-ReadsNoAudit) depth 60

pub record_observed_process-IsFounded :
    (p : Platform) (id capability : String) (parameters : Members) (o : Observation)
    (actor now : String)
    → Keeps IsFounded (record_observed_process p id capability parameters o actor now)
unfolding record_observed_process observed_rows admit validated
record_observed_process-IsFounded p id capability parameters o actor now =
    search (preserves_rules, insert_execution-Preserves, IsFounded-ReadsNoAudit) depth 60

record_validation-Preserves :
    (p : Platform) (required : Option ValidatorKind) (id validator evidence actor now : String)
    → Preserves IsFounded (record_validation p required id validator evidence actor now)
unfolding record_validation
record_validation-Preserves p required id validator evidence actor now =
    search (preserves_rules, insert_result-Preserves) depth 60

pub run_evidence-IsFounded :
    (p : Platform) (runner : RunnerProfile) (kind : ValidatorKind) (profile id capability : String)
    (parameters : Members) (validation actor now : String)
    → Keeps IsFounded
        (run_evidence p runner kind profile id capability parameters validation actor now)
unfolding run_evidence run_evidence_rows admit validated
run_evidence-IsFounded p runner kind profile id capability parameters validation actor now =
    search
      (
        preserves_rules, insert_execution-Preserves, record_validation-Preserves, rethrow-Preserves,
        IsFounded-ReadsNoAudit,
      )
      depth 80

-- recording an evidence asks for its execution first
record_rows-Returns :
    (p : Platform) (e : Evidence) (verdict_text : String) (t : Tables)
    → IsFounded t
    → Returns (λ _ u. IsFounded u) (record_evidence_rows p e verdict_text t)
unfolding record_evidence_rows insert_evidence is_executed pure
record_rows-Returns p e verdict_text t h = Returns-gets _ _ _ (
    Returns-require _ _ _ _ λ known. Returns-insert _ _ _ _ λ fits. Returns-gets _ _ _ (
      Returns-audit _ _ _ _ _
        λ audit. Returns-ok _ _ (All-append _ t.evidence (e ∷ []) h (known, tt))))

pub record_evidence-IsFounded :
    (p : Platform) (id execution type_text verdict_text : String) (content : Members)
    (actor now : String)
    → Keeps IsFounded (record_evidence p id execution type_text verdict_text content actor now)
unfolding record_evidence read_evidence
record_evidence-IsFounded p id execution type_text verdict_text content actor now =
    Keeps-require _ _ _ (
      Keeps-or_raise _ _ _ λ type. Keeps-or_raise _ _ _ λ verdict. Keeps-refuse _ _ _ (
        Keeps-bind _ _
          (Keeps-atomic_row _ _ _ (record {
            at = λ t h.
                settle-Returns IsFounded t _
                  (record_rows-Returns p
                    (evidence_row p id execution type verdict content actor now) verdict_text t h)
                  h (λ a u q. q);
          }))
          (λ row. Keeps-or_raise _ _ _ λ content. Keeps-pure _)))

-- decisions and proofs are no evidence
check_decision-Preserves :
    (decision : Decision) (verdict : Verdict) (evidence : String) (validation : Option String)
    → Preserves IsFounded (check_decision decision verdict evidence validation)
check_decision-Preserves decision verdict evidence validation =
    Leaves-Preserves _ (check_decision-Leaves (λ t. t) decision verdict evidence validation)

bind_validation-Preserves :
    (strict : Bool) (id : String) (validation : Option String) (evidence actor now : String)
    → Preserves IsFounded (bind_validation strict id validation evidence actor now)
unfolding bind_validation insert_binding
bind_validation-Preserves false id validation evidence actor now = Preserves-pure tt
bind_validation-Preserves true id none evidence actor now = Preserves-raise _
bind_validation-Preserves true id (some v) evidence actor now = Preserves-insert _ _ λ t h. h

pub decide-IsFounded :
    (id evidence decision_text reason : String) (validation : Option String) (actor now : String)
    → Keeps IsFounded (decide id evidence decision_text reason validation actor now)
unfolding decide decide_rows insert_admission
decide-IsFounded id evidence decision_text reason validation actor now =
    search
      (preserves_rules, check_decision-Preserves, bind_validation-Preserves, IsFounded-ReadsNoAudit)
      depth 60

pub promote-IsFounded :
    (p : Platform) (secret : Option String) (id knowledge evidence admission actor now : String)
    → Keeps IsFounded (promote p secret id knowledge evidence admission actor now)
unfolding promote promote_rows insert_proof
promote-IsFounded p secret id knowledge evidence admission actor now =
    search (preserves_rules, IsFounded-ReadsNoAudit) depth 60

-- the declarations keep both
abbrev pub IsGranted : Tables → Type 0
IsGranted t = IsAllowed t × IsFounded t

IsGranted-ReadsNoAudit : ReadsNoAudit IsGranted
IsGranted-ReadsNoAudit t audit h = h

add_contract-IsGranted :
    (c : CapabilityContract) (t : Tables)
    → IsGranted t
    → IsGranted (record t { contracts = t.contracts ++ c ∷ [] })
add_contract-IsGranted c t h = (
  All-map _ _ t.executions
      (λ x p. Permitted-contracts t.contracts t.capability_policies c x.capability_id p) h.0,
  h.1,
)

add_policy-IsGranted :
    (q : CapabilityPolicy) (t : Tables)
    → IsGranted t
    → IsGranted (record t { capability_policies = t.capability_policies ++ q ∷ [] })
add_policy-IsGranted q t h = (
  All-map _ _ t.executions
      (λ x p. Permitted-policies t.contracts t.capability_policies q x.capability_id p) h.0,
  h.1,
)

add_capability-IsGranted :
    (c : Capability) (t : Tables)
    → IsGranted t
    → IsGranted (record t { capabilities = t.capabilities ++ c ∷ [] })
add_capability-IsGranted c t h = h

pub create_capability-IsGranted :
    (p : Platform) (new : NewCapability) (actor now : String)
    → Keeps IsGranted (create_capability p new actor now)
unfolding create_capability create_capability_rows insert_capability read_capability decoded
    canonical require_capability_id
create_capability-IsGranted p new actor now =
    search (preserves_rules, add_capability-IsGranted, IsGranted-ReadsNoAudit) depth 60

pub declare_contract-IsGranted :
    (p : Platform) (id runner network : String) (timeout : ℕ) (schema : Members) (yields : Bool)
    (actor now : String)
    → Keeps IsGranted (declare_contract p id runner network timeout schema yields actor now)
unfolding declare_contract declare_contract_rows insert_contract read_contract
declare_contract-IsGranted p id runner network timeout schema yields actor now =
    search (preserves_rules, add_contract-IsGranted, IsGranted-ReadsNoAudit) depth 60

pub declare_capability_policy-IsGranted :
    (id decision reason actor now : String)
    → Keeps IsGranted (declare_capability_policy id decision reason actor now)
unfolding declare_capability_policy declare_capability_policy_rows insert_capability_policy
declare_capability_policy-IsGranted id decision reason actor now =
    search (preserves_rules, add_policy-IsGranted, IsGranted-ReadsNoAudit) depth 60
