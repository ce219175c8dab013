-- ===== src/Calls/Frames/Runs.antt =====
-- What the writes to capabilities and executions of src/vera_mmu leave alone.
use vera_mmu.Common.{ℕ, String, Bool, Option}
use vera_mmu.Store.{Rows}
use vera_mmu.Store.Rows.{RunnerProfile, ValidatorKind}
use vera_mmu.Store.Frame.{Leaves, leaves_rules, on_tables}
use vera_mmu.Chain.Platform.{Platform, Members}
use vera_mmu.Validators.Rules.{ValidatorError}
use vera_mmu.Validators.Validate.{record_validation, insert_result}
use vera_mmu.Capabilities.{
  create_capability, create_capability_rows, insert_capability, read_capability, decoded, canonical,
  require_capability_id, NewCapability,
}
use vera_mmu.Capabilities.Contracts.{
  declare_contract, declare_contract_rows, insert_contract, read_contract,
}
use vera_mmu.Capabilities.Policies.{
  declare_capability_policy, declare_capability_policy_rows, insert_capability_policy,
}
use vera_mmu.Executions.{
  admit, validated, insert_execution, run_noop, run_noop_rows, record_observed_process,
  observed_rows, Observation, rethrow,
}
use vera_mmu.Executions.Evidence.{run_evidence, run_evidence_rows}
use vera_mmu.Executions.Allowed.{rethrow-Leaves}
use vera_mmu.Calls.Views.{hide_runs, hide_runs-HidesAudit}

-- capabilities and their runs
pub create_capability-Leaves :
    (p : Platform) (new : NewCapability) (actor now : String)
    → Leaves (on_tables hide_runs) (create_capability p new actor now)
unfolding create_capability create_capability_rows insert_capability read_capability decoded
    canonical require_capability_id hide_runs
create_capability-Leaves p new actor now = search (leaves_rules, hide_runs-HidesAudit) depth 60

pub declare_contract-Leaves :
    (p : Platform) (id runner network : String) (timeout : ℕ) (schema : Members) (yields : Bool)
    (actor now : String)
    → Leaves
        (on_tables hide_runs)
        (declare_contract p id runner network timeout schema yields actor now)
unfolding declare_contract declare_contract_rows insert_contract read_contract hide_runs
declare_contract-Leaves p id runner network timeout schema yields actor now =
    search (leaves_rules, hide_runs-HidesAudit) depth 60

pub declare_capability_policy-Leaves :
    (id decision reason actor now : String)
    → Leaves (on_tables hide_runs) (declare_capability_policy id decision reason actor now)
unfolding declare_capability_policy declare_capability_policy_rows insert_capability_policy
    hide_runs
declare_capability_policy-Leaves id decision reason actor now =
    search (leaves_rules, hide_runs-HidesAudit) depth 60

pub run_noop-Leaves :
    (p : Platform) (id capability : String) (parameters : Members) (actor now : String)
    → Leaves (on_tables hide_runs) (run_noop p id capability parameters actor now)
unfolding run_noop run_noop_rows admit validated insert_execution hide_runs
run_noop-Leaves p id capability parameters actor now =
    search (leaves_rules, hide_runs-HidesAudit) depth 60

pub record_observed_process-Leaves :
    (p : Platform) (id capability : String) (parameters : Members) (o : Observation)
    (actor now : String)
    → Leaves (on_tables hide_runs) (record_observed_process p id capability parameters o actor now)
unfolding record_observed_process observed_rows admit validated insert_execution hide_runs
record_observed_process-Leaves p id capability parameters o actor now =
    search (leaves_rules, hide_runs-HidesAudit) depth 60

record_validation-Leaves :
    (p : Platform) (required : Option ValidatorKind) (id validator evidence actor now : String)
    → Leaves hide_runs (record_validation p required id validator evidence actor now)
unfolding record_validation insert_result hide_runs
record_validation-Leaves p required id validator evidence actor now = search leaves_rules depth 60

rethrow_runs-Leaves :
    {A : Type 0} (m : Rows ValidatorError A)
    → Leaves hide_runs m
    → Leaves hide_runs (λ t. rethrow (m t))
rethrow_runs-Leaves m h = rethrow-Leaves hide_runs m h

pub run_evidence-Leaves :
    (p : Platform) (runner : RunnerProfile) (kind : ValidatorKind) (profile id capability : String)
    (parameters : Members) (validation actor now : String)
    → Leaves
        (on_tables hide_runs)
        (run_evidence p runner kind profile id capability parameters validation actor now)
unfolding run_evidence run_evidence_rows admit validated insert_execution hide_runs
run_evidence-Leaves p runner kind profile id capability parameters validation actor now =
    search (leaves_rules, record_validation-Leaves, rethrow_runs-Leaves, hide_runs-HidesAudit) depth
      80
