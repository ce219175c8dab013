-- ===== src/Gates.antt =====
-- `GateService` of src/vera_mmu/gates.py, but for `add_dependency`: gates, their requirements, their
-- policies and their evaluation.
pub mod Declare
pub mod Evaluate
mod Grows
pub mod Thresholds
use vera_mmu.Common.{
  ℕ, String, Bool, true, false, Option, none, some, List, [], ◌∷◌, ◌++◌, ◌==◌, ◌&&◌, text_Eq, map,
  Result, ok, err, find, where_rows, count_if, length, leb, if◌then◌else◌, is_some,
}
use vera_mmu.Store.{Tables}
use vera_mmu.Store.Rows.{Admission, Gate, GateMode, all_of, any_of, at_least, is_admitted}
use vera_mmu.WorkGraph.{GateError, gate_not_found}

-- the statuses `PASS` and `FAIL` of an evaluation
pub data GateStatus : Type 0 where
  gate_pass gate_fail : GateStatus

pub record GateEvaluation : Type 0 where
  pub gate_id : String
  pub status : GateStatus
  pub mode : GateMode
  pub admitted_count : ℕ
  pub required_count : ℕ
  pub minimum_admissions : ℕ

-- `SELECT evidence_id FROM admission_gate … UNION ALL … admission_gate_requirement`
unfoldable pub requirements : Tables → String → List String
requirements t gate_id =
    map (λ g. g.evidence_id) (where_rows (λ g. g.id == gate_id) t.gates)
    ++ map (λ r. r.evidence_id) (where_rows (λ r. r.gate_id == gate_id) t.gate_requirements)

abbrev pub decided_admitted : Option Admission → Bool
decided_admitted none = false
decided_admitted (some a) = is_admitted a.decision

-- the row of `evidence_admission` for the evidence exists and says `ADMITTED`
unfoldable pub evidence_is_admitted : Tables → String → Bool
evidence_is_admitted t id = decided_admitted (find (λ a. a.evidence_id == id) t.admissions)

-- the mode of a gate: `ALL` where no policy is declared
unfoldable pub gate_mode : Tables → String → GateMode
gate_mode t gate_id = elim (find (λ p. p.gate_id == gate_id) t.gate_policies) [
  | none ↦ all_of
  | some p ↦ p.mode
]

abbrev pub minimum_of : GateMode → ℕ → ℕ
minimum_of all_of required = required
minimum_of any_of required = 1
minimum_of (at_least k) required = k

abbrev pub status_of_counts : ℕ → ℕ → GateStatus
status_of_counts admitted minimum = if leb minimum admitted then gate_pass else gate_fail

abbrev pub gate_evaluation : Tables → String → List String → GateEvaluation
gate_evaluation t gate_id required =
    let mode = gate_mode t gate_id in
    let minimum = minimum_of mode (length required) in
    let admitted = count_if (evidence_is_admitted t) required in
    record {
      gate_id = gate_id;
      status = status_of_counts admitted minimum;
      mode = mode;
      admitted_count = admitted;
      required_count = length required;
      minimum_admissions = minimum;
    }

unfoldable pub evaluate : Tables → String → Result GateError GateEvaluation
unfolding requirements
evaluate t gate_id = elim (requirements t gate_id) [
  | [] ↦ err gate_not_found
  | r ∷ rs ↦ ok (gate_evaluation t gate_id (r ∷ rs))
]
