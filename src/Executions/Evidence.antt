-- ===== src/Executions/Evidence.antt =====
-- The two runners of `ExecutionService` of src/vera_mmu/executions.py that record a run and its validation:
-- `run_evidence_hash` and `run_evidence_fields`.
use vera_mmu.Common.{
  String, text_Eq, none, some, [], ◌∷◌, all, pure, gets, require, or_raise, ◌>>=◌, ◌>>◌,
}
use vera_mmu.Common.Text.{is_plain_identifier}
use vera_mmu.Common.Int.{pos}
use vera_mmu.Store.{Method, Rows, raised, atomic, append_audit}
use vera_mmu.Store.Rows.{
  RunnerProfile, hash_runner, fields_runner, ValidatorKind, evidence_hash, evidence_fields, text,
}
use vera_mmu.Chain.Platform.{Platform, json_object, Members, object_of}
use vera_mmu.Parameters.{is_compatible}
use vera_mmu.Validators.Rules.{get_member}
use vera_mmu.Validators.Validate.{record_validation, verdict_text}
use vera_mmu.Executions.{
  Executed, ExecutionError, admit, binding_error, core_run, incompatible_runner, insert_execution,
  invalid_execution, invalid_execution_id, is_bindable, json_error, key_error, kind_named,
  out_of_contract, recorded_payload, rethrow, text_of, validated, validation_object,
}

module _ (platform : Platform) where
  -- the block that `run_evidence_hash` and `run_evidence_fields` share
  unfoldable pub run_evidence_rows :
      RunnerProfile
      → ValidatorKind
      → String
      → String
      → String
      → Members
      → String
      → String
      → String
      → Rows ExecutionError Members
  unfolding admit validated insert_execution record_validation is_compatible get_member
  run_evidence_rows runner kind profile id capability parameters validation actor now = do
    schema_text ← admit runner capability
    decoded ← or_raise (platform.loads schema_text) (raised json_error)
    schema ← or_raise (object_of (some decoded)) (raised out_of_contract)
    values ← validated platform (some schema) parameters
    validator_value ← or_raise (get_member values "validator_id") (raised key_error)
    evidence_value ← or_raise (get_member values "evidence_id") (raised key_error)
    require (is_bindable validator_value) (raised binding_error)
    named ← gets (λ t. kind_named t validator_value)
    require (is_compatible platform runner named schema) (raised incompatible_runner)
    validator ← or_raise (text_of validator_value) (raised incompatible_runner)
    evidence ← or_raise (text_of evidence_value) (raised binding_error)
    result ← λ t.
        rethrow (record_validation platform (some kind) validation validator evidence actor now t)
    insert_execution platform (
        core_run id capability (platform.dumps (json_object values))
          (platform.dumps (json_object (validation_object platform validation result))) actor now)
    append_audit now "VALIDATION_RECORDED" (
        ("validation_id", text validation)
        ∷ ("validator_id", text validator)
        ∷ ("evidence_id", text evidence)
        ∷ ("verdict", text (verdict_text platform result.passed))
        ∷ ("actor", text actor)
        ∷ ("runner_profile", text profile)
        ∷ [])
    append_audit now "EXECUTION_RECORDED" (recorded_payload id capability profile actor)
    pure values

  unfoldable pub run_evidence :
      RunnerProfile
      → ValidatorKind
      → String
      → String
      → String
      → Members
      → String
      → String
      → String
      → Method ExecutionError Executed
  unfolding run_evidence_rows
  run_evidence runner kind profile id capability parameters validation actor now = do
    require (all is_plain_identifier (id ∷ capability ∷ validation ∷ actor ∷ []))
        (raised invalid_execution_id)
    values ←
        atomic invalid_execution
          (run_evidence_rows runner kind profile id capability parameters validation actor now)
    pure (record {
      id = id;
      capability_id = capability;
      exit_code = some (pos 0);
      parameters = values;
      artifact_hash = none;
    })

  -- `run_evidence_hash`
  unfoldable pub run_evidence_hash :
      String → String → Members → String → String → String → Method ExecutionError Executed
  unfolding run_evidence
  run_evidence_hash = run_evidence hash_runner evidence_hash "EVIDENCE_HASH"

  -- `run_evidence_fields`
  unfoldable pub run_evidence_fields :
      String → String → Members → String → String → String → Method ExecutionError Executed
  unfolding run_evidence
  run_evidence_fields = run_evidence fields_runner evidence_fields "EVIDENCE_FIELDS"
