-- ===== src/GateReports.antt =====
-- `report_gate` of src/vera_mmu/gate_reports.py: a declared gate with its requirements, their classes, and
-- what it can found. A sentence of the report is a constructor, with the values that it shows.
pub mod Honest
use vera_mmu.Common.{
  ℕ, String, Bool, true, false, not, ◌==◌, text_Eq, Option, none, some, List, [], ◌∷◌, find, any,
  where_rows, map, Result, ok, err, if◌then◌else◌, gets, require, ◌>>=◌, ◌>>◌,
}
use vera_mmu.Common.Text.{is_plain_identifier}
use vera_mmu.Store.{Tables, Store, Method, Raised, raised}
use vera_mmu.Store.Rows.{
  Evidence, EvidenceType, Verdict, Admission, Decision, admitted, rejected, is_admitted, Gate,
  GatePolicy, Execution,
}
use vera_mmu.WorkGraph.{GateError}
use vera_mmu.Gates.{GateEvaluation, requirements, evaluate, gate_pass, gate_fail}
use vera_mmu.Gates.Declare.{find_gate, find_policy}
use vera_mmu.Readiness.{is_gate_pass}
use vera_mmu.Chain.Classes.{
  EvidenceClass, technical_validation, simple_observation, semantic_appreciation, classify,
  may_create_proof,
}

pub data ReportError : Type 0 where
  invalid_gate_id gate_not_found evidence_not_found : ReportError
  gate_error : GateError → ReportError

pub record RequirementView : Type 0 where
  pub evidence_id : String
  pub evidence_type : EvidenceType
  pub evidence_class : EvidenceClass
  pub verdict : Verdict
  pub admission : Option Decision
  pub primary : Bool
  pub satisfied : Bool
  pub may_create_proof : Bool

abbrev decision_on : Option Admission → Option Decision
decision_on none = none
decision_on (some a) = some a.decision

abbrev admits : Option Admission → Bool
admits none = false
admits (some a) = is_admitted a.decision

abbrev pub view_of_row :
    Tables → String → Bool → Option Evidence → Result ReportError RequirementView
view_of_row t id primary none = err evidence_not_found
view_of_row t id primary (some e) =
    let decided = find (λ a. a.evidence_id == id) t.admissions in
    ok (record {
      evidence_id = id;
      evidence_type = e.evidence_type;
      evidence_class = classify e.evidence_type;
      verdict = e.verdict;
      admission = decision_on decided;
      primary = primary;
      satisfied = admits decided;
      may_create_proof = may_create_proof e.evidence_type;
    })

-- `_requirement`
unfoldable pub requirement_view : Tables → String → Bool → Result ReportError RequirementView
requirement_view t id primary = view_of_row t id primary (find (λ e. e.id == id) t.evidence)

abbrev pub add_view :
    Result ReportError RequirementView
    → Result ReportError (List RequirementView)
    → Result ReportError (List RequirementView)
add_view (err e) rest = err e
add_view (ok v) (err e) = err e
add_view (ok v) (ok vs) = ok (v ∷ vs)

-- the list of the requirements, each told whether it is the primary evidence
unfoldable pub requirement_views :
    Tables → String → List String → Result ReportError (List RequirementView)
unfolding requirement_view
requirement_views t primary [] = ok []
requirement_views t primary (id ∷ ids) =
    add_view (requirement_view t id (id == primary)) (requirement_views t primary ids)

abbrev capability_of : Tables → Option Evidence → Option String
capability_of t none = none
capability_of t (some e) = elim (find (λ (x : Execution). x.id == e.execution_id) t.executions) [
  | none ↦ none
  | some x ↦ some x.capability_id
]

abbrev is_class : EvidenceClass → EvidenceClass → Bool
is_class technical_validation technical_validation = true
is_class technical_validation simple_observation = false
is_class technical_validation semantic_appreciation = false
is_class simple_observation technical_validation = false
is_class simple_observation simple_observation = true
is_class simple_observation semantic_appreciation = false
is_class semantic_appreciation technical_validation = false
is_class semantic_appreciation simple_observation = false
is_class semantic_appreciation semantic_appreciation = true

-- `by_class[name]`
unfoldable pub of_class : EvidenceClass → List RequirementView → List String
of_class c vs = map (λ v. v.evidence_id) (where_rows (λ v. is_class v.evidence_class c) vs)

-- the sentence on the satisfaction of a gate: that its threshold is reached, or how many admissions of
-- how many it has
pub data SatisfactionReason : Type 0 where
  threshold_reached : SatisfactionReason
  admissions_of : ℕ → ℕ → SatisfactionReason

-- the sentence on the proofs of a gate: the evidence they can stand on, or why there is none
pub data ProofReason : Type 0 where
  stands_on : List String → ProofReason
  rests_on_appreciations no_technical_validation : ProofReason

abbrev satisfaction_reason_of : GateEvaluation → SatisfactionReason
satisfaction_reason_of r =
    if is_gate_pass r.status
    then threshold_reached
    else admissions_of r.admitted_count r.minimum_admissions

-- from `proof_capable` and `by_class[SEMANTIC_APPRECIATION]`
abbrev proof_reason_of : List String → List String → ProofReason
proof_reason_of (v ∷ vs) appreciations = stands_on (v ∷ vs)
proof_reason_of [] (a ∷ appreciations) = rests_on_appreciations
proof_reason_of [] [] = no_technical_validation

-- the evidence of `proof_capable`
abbrev proof_capable : List RequirementView → List String
proof_capable vs = map (λ v. v.evidence_id) (where_rows (λ v. v.may_create_proof) vs)

-- `_promotion`
pub record Promotion : Type 0 where
  pub can_satisfy_gate : Bool
  pub can_create_proof : Bool
  pub satisfaction_reason : SatisfactionReason
  pub proof_reason : ProofReason

abbrev pub promotion_of : GateEvaluation → List RequirementView → Promotion
promotion_of r vs = record {
  can_satisfy_gate = is_gate_pass r.status;
  can_create_proof = any (λ v. v.may_create_proof) vs;
  satisfaction_reason = satisfaction_reason_of r;
  proof_reason = proof_reason_of (proof_capable vs) (of_class semantic_appreciation vs);
}

pub record GateReport : Type 0 where
  pub gate_id : String
  pub work_item_id : String
  pub capability : Option String
  pub requirements : List RequirementView
  pub technical : List String
  pub observations : List String
  pub appreciations : List String
  pub policy : Option GatePolicy
  pub evaluation : GateEvaluation
  pub promotion : Promotion

abbrev pub report_of :
    Tables
    → Gate
    → Result ReportError (List RequirementView)
    → Result GateError GateEvaluation
    → Result ReportError GateReport
report_of t g (err e) evaluation = err e
report_of t g (ok vs) (err e) = err (gate_error e)
report_of t g (ok vs) (ok r) = ok (record {
  gate_id = g.id;
  work_item_id = g.work_item_id;
  capability = capability_of t (find (λ e. e.id == g.evidence_id) t.evidence);
  requirements = vs;
  technical = of_class technical_validation vs;
  observations = of_class simple_observation vs;
  appreciations = of_class semantic_appreciation vs;
  policy = find_policy t g.id;
  evaluation = r;
  promotion = promotion_of r vs;
})

abbrev pub report_found : Tables → String → Option Gate → Result ReportError GateReport
report_found t id none = err gate_not_found
report_found t id (some g) =
    report_of t g (requirement_views t g.evidence_id (requirements t id)) (evaluate t id)

-- `report_gate`
unfoldable pub report_gate : Tables → String → Result ReportError GateReport
unfolding find_gate find_policy of_class requirement_views
report_gate t id =
    if is_plain_identifier id then report_found t id (find_gate t id) else err invalid_gate_id
