-- ===== src/Examples/Gates.antt =====
-- Gates, their policies and readiness on a small store.
use vera_mmu.Common.{◌≡◌, ◌↔◌, refl, true, String, [], ◌∷◌, some, All, where_rows, ◌==◌, text_Eq}
use vera_mmu.Common.Text.{is_plain_identifier, is_canonical_text, is_stripped, is_canonical_line}
use vera_mmu.Common.Order.{order_by}
use vera_mmu.Store.{Store}
use vera_mmu.Store.Rows.{
  Evidence, Admission, Dependency, Gate, completed, test_proof, pass, admitted,
}
use vera_mmu.WorkGraph.{has_work_item}
use vera_mmu.Gates.{evaluate, requirements, gate_mode, gate_pass, evidence_is_admitted}
use vera_mmu.Gates.Declare.{
  declare_with_requirements, declare_policy, declare, add_requirement, find_gate, find_policy,
  has_evidence, insert_requirements, audit_requirements, mode_name, or_raised, gate_is_valid,
  requirement_is_valid, policy_is_valid, has_duplicates,
}
use vera_mmu.Gates.Evaluate.{Demands, evaluate_pass_iff}
use vera_mmu.Gates.Thresholds.{
  IsSatisfiable, declare_policy-IsSatisfiable, requirements-IsSatisfiable,
}
use vera_mmu.Readiness.{
  evaluate_work_readiness, work_status, events_of, prerequisites, gates_of, readiness_gate_status,
  readiness_evidence, newest,
}
use vera_mmu.Readiness.Agree.{gate_status_agrees, ready_iff}
use vera_mmu.Examples.{three_items, run}

-- opens a run of the gate service on concrete arguments
unfoldable pub run_gates : Unit {0}
unfolding run declare_policy is_plain_identifier is_canonical_text is_stripped
    declare_with_requirements declare add_requirement evaluate_work_readiness readiness_gate_status
    readiness_evidence work_status events_of newest prerequisites gates_of evaluate
    evidence_is_admitted gate_mode has_evidence find_gate find_policy insert_requirements
    audit_requirements gate_is_valid requirement_is_valid policy_is_valid has_duplicates mode_name
    or_raised has_work_item order_by is_canonical_line
run_gates = tt

abbrev proof : String → Evidence
proof id = record {
  id = id;
  execution_id = "run-1";
  evidence_type = test_proof;
  verdict = pass;
  content_json = "{}";
  content_hash = "h";
  created_at = "t0";
  created_by = "system";
}

abbrev admits : String → String → Admission
admits id evidence = record {
  id = id;
  evidence_id = evidence;
  decision = admitted;
  reason = "";
  created_at = "t0";
  created_by = "system";
}

-- two pieces of evidence, one of them admitted
abbrev recorded : Store
recorded = record three_items {
  tables = record three_items.tables {
    evidence = proof "p1" ∷ proof "p2" ∷ [];
    admissions = admits "d1" "p1" ∷ [];
  };
}

-- a gate of item "a" that asks for both
abbrev pub gated : Store
gated = (declare_with_requirements "g1" "a" "p1" ("p2" ∷ []) "system" "t1" recorded).1

-- and one of the two is enough
abbrev pub with_policy : Store
with_policy = (declare_policy "g1" "AT_LEAST" (some 1) "system" "t2" gated).1

recorded-IsSatisfiable : IsSatisfiable recorded.tables
recorded-IsSatisfiable = tt

gated-IsSatisfiable : IsSatisfiable gated.tables
gated-IsSatisfiable =
    (requirements-IsSatisfiable "g1" "a" "p1" ("p2" ∷ []) "system" "t1" recorded
      recorded-IsSatisfiable).0

declare_policy-IsSatisfiable_example : IsSatisfiable with_policy.tables
declare_policy-IsSatisfiable_example =
    declare_policy-IsSatisfiable "g1" "AT_LEAST" (some 1) "system" "t2" gated gated-IsSatisfiable

evaluate_pass_iff_example :
    (gate_pass ≡ gate_pass)
    ↔ Demands
        (gate_mode with_policy.tables "g1")
        (evidence_is_admitted with_policy.tables)
        (requirements with_policy.tables "g1")
unfolding run_gates
evaluate_pass_iff_example = evaluate_pass_iff with_policy.tables "g1" _ refl

gate_status_agrees_example : readiness_gate_status with_policy.tables "g1" ≡ gate_pass
unfolding run_gates
gate_status_agrees_example = gate_status_agrees with_policy.tables "g1" _ refl

ready_iff_example : (true ≡ true) ↔ (
    All
      (λ (d : Dependency). work_status with_policy.tables d.prerequisite_id ≡ completed)
      (where_rows (λ d. d.dependent_id == "a") with_policy.tables.dependencies)
    × All
        (λ (g : Gate).
          Demands
            (gate_mode with_policy.tables g.id)
            (evidence_is_admitted with_policy.tables)
            (requirements with_policy.tables g.id))
        (where_rows (λ g. g.work_item_id == "a") with_policy.tables.gates))
unfolding run_gates
ready_iff_example = ready_iff with_policy.tables "a" _ refl
