-- ===== src/Examples/Chain.antt =====
-- From an evidence to a proof on a small store, with a platform of constant functions.
use vera_mmu.Common.{◌≡◌, ◌≢◌, refl, true, String, [], ◌∷◌, ok, err, none, some, length}
use vera_mmu.Common.Text.{is_plain_identifier, is_canonical_text, is_stripped, is_empty, len, strip}
use vera_mmu.Common.Int.{pos}
use vera_mmu.Store.{Store, raised}
use vera_mmu.Store.Rows.{validated_pass_evidence, rejected, open_start, require_ready, Execution}
use vera_mmu.Gates.{gate_pass}
use vera_mmu.Gates.Declare.{has_evidence}
use vera_mmu.Policies.{declare_in, start_table, already_declared}
use vera_mmu.Policies.Once.{declare_in_once}
use vera_mmu.Chain.Platform.{Platform, json_object, no_members}
use vera_mmu.Chain.Classes.{evidence_type_of}
use vera_mmu.Chain.Record.{record_evidence, verdict_of, evidence_is_valid, read_evidence}
use vera_mmu.Chain.Decide.{
  decide, decision_of, admission_is_valid, check_decision, check_binding, bind_validation,
  validation_passes, binding_is_valid,
}
use vera_mmu.Chain.Promote.{promote, proof_is_valid}
use vera_mmu.Chain.Backed.{IsBacked}
use vera_mmu.Chain.Backed.Services.{record_evidence-IsBacked, decide-IsBacked, promote-IsBacked}
use vera_mmu.Chain.Refusals.{opinion_never_proves, admission_needs_validation}
use vera_mmu.Chain.Final.{decide_keeps_gates, decide_once}
use vera_mmu.Examples.{three_items, run}
use vera_mmu.Examples.Gates.{with_policy, run_gates}

abbrev pub digest : String
digest = "0123456789abcdef0123456789abcdef0123456789abcdef0123456789abcdef"

abbrev pub platform : Platform
platform = record {
  canonical_json = λ j. "{}";
  dumps = λ j. "{}";
  loads = λ s. some (json_object no_members);
  sha256 = λ s. digest;
  hmac_sha256 = λ k s. digest;
}

-- opens a run of the chain on concrete arguments
unfoldable pub run_chain : Unit {0}
unfolding run run_gates is_plain_identifier is_canonical_text is_stripped is_empty len strip
    declare_in evidence_type_of record_evidence verdict_of evidence_is_valid read_evidence decide
    decision_of admission_is_valid check_decision check_binding bind_validation validation_passes
    binding_is_valid promote proof_is_valid has_evidence
run_chain = tt

abbrev past_run : Execution
past_run = record {
  id = "run-1";
  capability_id = "tests";
  status = "COMPLETED";
  exit_code = some (pos 0);
  parameters_json = "{}";
  environment_json = "{}";
  started_at = some "t0";
  finished_at = some "t0";
  artifact_hash = none;
  result_json = "{}";
  created_by = "system";
}

abbrev executed : Store
executed = record three_items {
  tables = record three_items.tables {
    executions = past_run ∷ [];
    knowledge = "k1" ∷ [];
    validation_results =
        record {
          id = "v1";
          validator_id = "hash";
          evidence_id = "p1";
          passed = true;
          expected_hash = digest;
          observed_hash = some digest;
          created_at = "t0";
          created_by = "system";
        }
        ∷ [];
    admission_policy =
        some (record { mode = validated_pass_evidence; created_at = "t0"; created_by = "system" });
    proof_policy = some (record { mode = true; created_at = "t0"; created_by = "system" });
  };
}

executed-IsBacked : IsBacked platform executed.tables
executed-IsBacked = record { decisions = tt; proofs = tt }

abbrev pub evidenced : Store
evidenced =
    (record_evidence platform "p1" "run-1" "TEST_PROOF" "PASS" no_members "system" "t1" executed).1

abbrev decided : Store
decided = (decide "d1" "p1" "ADMITTED" "checked" (some "v1") "system" "t2" evidenced).1

abbrev proven : Store
proven = (promote platform (some "key") "proof" "k1" "p1" "d1" "system" "t3" decided).1

one_proof : length proven.tables.proofs ≡ 1
unfolding run_chain
one_proof = refl

evidenced-IsBacked : IsBacked platform evidenced.tables
evidenced-IsBacked =
    record_evidence-IsBacked platform "p1" "run-1" "TEST_PROOF" "PASS" no_members "system" "t1"
      executed executed-IsBacked

decided-IsBacked : IsBacked platform decided.tables
decided-IsBacked =
    decide-IsBacked platform "d1" "p1" "ADMITTED" "checked" (some "v1") "system" "t2" evidenced
      evidenced-IsBacked

promote-IsBacked_example : IsBacked platform proven.tables
promote-IsBacked_example =
    promote-IsBacked platform (some "key") "proof" "k1" "p1" "d1" "system" "t3" decided
      decided-IsBacked

admission_needs_validation_example :
    (v : String) × (some "v1" ≡ some v) × (validation_passes evidenced.tables "p1" v ≡ true)
unfolding run_chain
admission_needs_validation_example =
    admission_needs_validation "d1" "p1" "checked" (some "v1") "system" "t2" evidenced _ _ refl refl
      refl

-- a judgment that passed
abbrev pub judged : Store
judged =
    (record_evidence platform "p1" "run-1" "HUMAN_ASSERTION" "PASS" no_members "system" "t1"
      executed).1

opinion_never_proves_example :
    (promote platform (some "key") "proof" "k1" "p1" "d1" "system" "t3" judged).0
    ≢ ok (record {
      id = "proof";
      knowledge_id = "k1";
      evidence_id = "p1";
      admission_id = "d1";
      hmac_required = true;
      hmac_digest = some digest;
      created_at = "t3";
      created_by = "system";
    })
unfolding run_chain
opinion_never_proves_example =
    opinion_never_proves platform (some "key") "proof" "k1" "p1" "d1" "system" "t3" judged _ _ refl
      (λ e. cc)

decide_once_example :
    (decide "d2" "p1" "REJECTED" "no" none "system" "t4" decided).0
    ≢ ok (record {
      row = record {
        id = "d2";
        evidence_id = "p1";
        decision = rejected;
        reason = "no";
        created_at = "t4";
        created_by = "system";
      };
      validation_id = none;
    })
unfolding run_chain
decide_once_example = decide_once "d2" "p1" "REJECTED" "no" none "system" "t4" decided _ _ refl

decide_keeps_gates_example : gate_pass ≡ gate_pass
unfolding run_chain
decide_keeps_gates_example =
    decide_keeps_gates "d2" "p2" "REJECTED" "no" none "system" "t4" with_policy "g1" _ _ refl refl
      refl

declare_in_once_example :
    let s = (declare_in start_table [] (some require_ready) "system" "t1" three_items).1 in
    declare_in start_table [] (some open_start) "system" "t2" s ≡ (err (raised already_declared), s)
unfolding run_chain
declare_in_once_example =
    declare_in_once start_table [] open_start "system" "t2"
      (declare_in start_table [] (some require_ready) "system" "t1" three_items).1 _ refl refl
