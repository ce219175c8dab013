-- ===== src/Store/Rows.antt =====
-- The rows of the tables in `src/vera_mmu/schema/*.sql`, and the closed catalogues that their CHECK
-- constraints and the services list. A text column that holds JSON is the text.
use vera_mmu.Common.{
  ℕ, String, Bool, true, false, Option, none, some, List, ◌==◌, if◌then◌else◌, text_Eq,
}
use vera_mmu.Common.Int.{ℤ}

pub data WorkItemType : Type 0 where
  goal epic work_item subtask : WorkItemType

-- `WORK_ITEM_TYPES`
unfoldable pub work_item_type : String → Option WorkItemType
work_item_type s =
    if s == "GOAL"
    then some goal
    else if s == "EPIC"
    then some epic
    else if s == "WORK_ITEM"
    then some work_item
    else if s == "SUBTASK"
    then some subtask
    else none

pub record WorkItem : Type 0 where
  pub id : String
  pub item_type : WorkItemType
  pub title : String
  pub description : String
  pub priority : Option ℤ
  pub parent_id : Option String
  pub assignee : Option String
  pub metadata_json : String
  pub created_at : String
  pub created_by : String

-- events of `work_lifecycle_event`
pub data Event : Type 0 where
  start complete cancel : Event

pub data Status : Type 0 where
  planned active completed cancelled : Status

pub record LifecycleEvent : Type 0 where
  pub id : String
  pub work_item_id : String
  pub sequence : ℕ
  pub event : Event
  pub reason : String
  pub created_at : String
  pub created_by : String

pub record Dependency : Type 0 where
  pub dependent_id : String
  pub prerequisite_id : String
  pub created_at : String
  pub created_by : String

pub record Gate : Type 0 where
  pub id : String
  pub work_item_id : String
  pub evidence_id : String
  pub created_at : String
  pub created_by : String

pub record GateRequirement : Type 0 where
  pub gate_id : String
  pub evidence_id : String
  pub created_at : String
  pub created_by : String

-- `mode` and `minimum_admissions`: the CHECK constraint of the table gives `AT_LEAST` a minimum,
-- and the other modes none.
pub data GateMode : Type 0 where
  all_of any_of : GateMode
  at_least : ℕ → GateMode

pub record GatePolicy : Type 0 where
  pub gate_id : String
  pub mode : GateMode
  pub created_at : String
  pub created_by : String

-- `TYPES` of `evidence.py`
pub data EvidenceType : Type 0 where
  command_proof test_proof ci_proof api_proof hash_proof metric_proof file_proof : EvidenceType
  external_attestation human_assertion model_evaluation : EvidenceType

-- `VERDICTS` of `evidence.py`
pub data Verdict : Type 0 where
  pass fail error skipped unknown : Verdict

abbrev pub is_pass : Verdict → Bool
is_pass pass = true
is_pass _ = false

pub record Evidence : Type 0 where
  pub id : String
  pub execution_id : String
  pub evidence_type : EvidenceType
  pub verdict : Verdict
  pub content_json : String
  pub content_hash : String
  pub created_at : String
  pub created_by : String

pub data Decision : Type 0 where
  admitted rejected : Decision

abbrev pub is_admitted : Decision → Bool
is_admitted admitted = true
is_admitted rejected = false

pub record Admission : Type 0 where
  pub id : String
  pub evidence_id : String
  pub decision : Decision
  pub reason : String
  pub created_at : String
  pub created_by : String

pub record ValidationBinding : Type 0 where
  pub admission_id : String
  pub validation_id : String
  pub evidence_id : String
  pub created_at : String
  pub created_by : String

pub data ValidatorKind : Type 0 where
  evidence_hash evidence_fields evidence_asset : ValidatorKind

pub record Validator : Type 0 where
  pub id : String
  pub kind : ValidatorKind
  pub rule_json : String
  pub created_at : String
  pub created_by : String

pub record ValidationResult : Type 0 where
  pub id : String
  pub validator_id : String
  pub evidence_id : String
  pub passed : Bool
  pub expected_hash : String
  pub observed_hash : Option String
  pub created_at : String
  pub created_by : String

pub record KnowledgeProof : Type 0 where
  pub id : String
  pub knowledge_id : String
  pub evidence_id : String
  pub admission_id : String
  pub hmac_required : Bool
  pub hmac_digest : Option String
  pub created_at : String
  pub created_by : String

pub record Supersession : Type 0 where
  pub predecessor_id : String
  pub successor_id : String
  pub created_at : String
  pub created_by : String

-- `CAPABILITY_KINDS`
pub data CapabilityKind : Type 0 where
  action check oracle collector generator query : CapabilityKind

pub record Capability : Type 0 where
  pub id : String
  pub name : String
  pub description : String
  pub kind : CapabilityKind
  pub version : String
  pub input_schema_json : String
  pub parameter_schema_json : String
  pub output_schema_json : String
  pub metadata_json : String
  pub created_at : String
  pub created_by : String

-- `RUNNER_PROFILES`
pub data RunnerProfile : Type 0 where
  noop hash_runner fields_runner observed_process : RunnerProfile

-- `NETWORK_POLICIES`
pub data NetworkPolicy : Type 0 where
  deny_network : NetworkPolicy

pub record CapabilityContract : Type 0 where
  pub capability_id : String
  pub runner_profile : RunnerProfile
  pub network_policy : NetworkPolicy
  pub timeout_seconds : ℕ
  pub parameter_schema_json : String
  pub yields_proof : Bool
  pub created_at : String
  pub created_by : String

-- `POLICY_DECISIONS`
pub data PolicyDecision : Type 0 where
  allow deny confirm : PolicyDecision

pub record CapabilityPolicy : Type 0 where
  pub capability_id : String
  pub decision : PolicyDecision
  pub reason : String
  pub created_at : String
  pub created_by : String

pub record Execution : Type 0 where
  pub id : String
  pub capability_id : String
  pub status : String
  pub exit_code : Option ℤ
  pub parameters_json : String
  pub environment_json : String
  pub started_at : Option String
  pub finished_at : Option String
  pub artifact_hash : Option String
  pub result_json : String
  pub created_by : String

pub record EntityType : Type 0 where
  pub id : String
  pub label : String
  pub description : String
  pub schema_json : String
  pub created_at : String
  pub created_by : String

pub record Entity : Type 0 where
  pub id : String
  pub type_id : String
  pub title : String
  pub description : String
  pub metadata_json : String
  pub created_at : String
  pub created_by : String

pub record RelationType : Type 0 where
  pub id : String
  pub label : String
  pub description : String
  pub from_types_json : String
  pub to_types_json : String
  pub created_at : String
  pub created_by : String

pub record Relation : Type 0 where
  pub id : String
  pub relation_type_id : String
  pub from_entity_id : String
  pub to_entity_id : String
  pub created_at : String
  pub created_by : String

-- the columns of `asset` that the modelled services read
pub record Asset : Type 0 where
  pub id : String
  pub content_hash : String

-- A policy table holds one row at most: its key is checked to be 1.
pub record Policy (M : Type 0) : Type 0 where
  pub mode : M
  pub created_at : String
  pub created_by : String

pub data StartMode : Type 0 where
  open_start require_ready : StartMode

pub data CompletionMode : Type 0 where
  open_completion require_ready_for_complete : CompletionMode

pub data AdmissionMode : Type 0 where
  pass_evidence validated_pass_evidence : AdmissionMode

-- `proof_policy`: the algorithm is checked to be HMAC_SHA256, so the mode is `hmac_required`.
abbrev pub ProofMode : Type 0
ProofMode = Bool

-- A value of an audit payload.
pub data Value : Type 0 where
  text : String → Value
  number : ℕ → Value
  flag : Bool → Value
  null : Value

pub record AuditEvent : Type 0 where
  pub occurred_at : String
  pub action : String
  pub payload : List (String × Value)
