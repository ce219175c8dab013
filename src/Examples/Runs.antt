-- ===== src/Examples/Runs.antt =====
-- A capability is declared, contracted and allowed, and the hash runner validates an evidence.
use vera_mmu.Common.{
  ◌≡◌, ◌↔◌, refl, String, false, none, some, [], ◌∷◌, ok, err, is_some, if◌then◌else◌, text_Eq,
  ◌==◌, contains, all,
}
use vera_mmu.Common.Int.{pos}
use vera_mmu.Common.Text.{
  is_plain_identifier, is_canonical_text, is_canonical_line, is_stripped, is_empty, len, has_code,
}
use vera_mmu.Store.{Store, raised}
use vera_mmu.Store.Rows.{test_proof, pass, evidence_hash}
use vera_mmu.Gates.Declare.{has_evidence, has_duplicates}
use vera_mmu.Addressing.{is_address_of}
use vera_mmu.WorkItems.{is_optional_line}
use vera_mmu.Chain.Platform.{
  Platform, Json, json_null, json_bool, json_number, json_text, json_list, json_object, Members,
  no_members, member,
}
use vera_mmu.Validators.Rules.{get_member, texts_of}
use vera_mmu.Validators.Register.{same_kind}
use vera_mmu.Validators.Validate.{result_is_valid}
use vera_mmu.Parameters.{
  evidence_validation_schema, schema_of_text, validate_parameters, validate_parameter_schema,
  scalar_type, member_names, check_values, normalize,
}
use vera_mmu.Parameters.Conforms.{Conforms, validate_parameters_iff}
use vera_mmu.Capabilities.{
  create_capability, NewCapability, capability_kind, is_version, capability_is_valid,
  has_capability,
}
use vera_mmu.Capabilities.Contracts.{
  declare_contract, runner_profile, network_policy, contract_is_valid, find_contract,
}
use vera_mmu.Capabilities.Policies.{
  declare_capability_policy, policy_decision, capability_policy_is_valid, find_capability_policy,
}
use vera_mmu.Executions.{
  run_noop, Observation, execution_is_valid, is_digest, not_allowed, record_observed_process,
}
use vera_mmu.Executions.Evidence.{run_evidence_hash, run_evidence_fields}
use vera_mmu.Executions.Allowed.{IsAllowed, runs-IsAllowed}
use vera_mmu.Examples.{store_of, empty_tables, run}
use vera_mmu.Examples.Chain.{digest}

abbrev pub named : Members
named = member "validator_id" (json_text "hash") (member "evidence_id" (json_text "p1") no_members)

-- the texts of the three objects that the runs need
abbrev object_text : Members → String
object_text ms =
    if is_some (get_member ms "validator_id")
    then "P"
    else if is_some (get_member ms "properties")
    then "S"
    else if is_some (get_member ms "type")
    then "T"
    else "{}"

abbrev json_of : String → Members
json_of s =
    if s == "P"
    then named
    else if s == "S"
    then evidence_validation_schema
    else if s == "T"
    then member "type" (json_text "string") no_members
    else no_members

abbrev text_of : Json → String
text_of (json_object ms) = object_text ms
text_of json_null = "null"
text_of (json_bool _) = "true"
text_of (json_number n) = n
text_of (json_text _) = "text"
text_of (json_list _) = "[]"

abbrev pub runs_platform : Platform
runs_platform = record {
  canonical_json = text_of;
  dumps = text_of;
  loads = λ s. some (json_object (json_of s));
  sha256 = λ s. digest;
  hmac_sha256 = λ k s. digest;
}

-- opens a run of the capability services on concrete arguments
unfoldable pub run_capabilities : Unit {0}
unfolding run same_kind is_plain_identifier is_canonical_text is_canonical_line is_stripped is_empty
    len has_code has_evidence has_duplicates is_address_of is_optional_line get_member texts_of
    result_is_valid validate_parameters validate_parameter_schema scalar_type member_names
    check_values normalize create_capability capability_kind is_version capability_is_valid
    has_capability declare_contract runner_profile network_policy contract_is_valid find_contract
    declare_capability_policy policy_decision capability_policy_is_valid find_capability_policy
    run_evidence_hash run_noop execution_is_valid is_digest all contains
run_capabilities = tt

abbrev checked : Store
checked = store_of (record empty_tables {
  evidence =
      record {
        id = "p1";
        execution_id = "run-0";
        evidence_type = test_proof;
        verdict = pass;
        content_json = "{}";
        content_hash = digest;
        created_at = "t0";
        created_by = "system";
      }
      ∷ [];
  validators =
      record {
        id = "hash";
        kind = evidence_hash;
        rule_json = "{}";
        created_at = "t0";
        created_by = "system";
      }
      ∷ [];
})

abbrev pub hash_check : NewCapability
hash_check = record {
  id = "check";
  name = "Check";
  kind = "CHECK";
  version = "1.0";
  description = "";
  input_schema = no_members;
  parameter_schema = no_members;
  output_schema = no_members;
  metadata = no_members;
}

abbrev contracted : Store
contracted =
    (declare_contract runs_platform "check" "EVIDENCE_HASH" "DENY_NETWORK" 60
      evidence_validation_schema false "system" "t2"
      (create_capability runs_platform hash_check "system" "t1" checked).1).1

abbrev pub permitted : Store
permitted = (declare_capability_policy "check" "ALLOW" "safe" "system" "t3" contracted).1

hash_run :
    (run_evidence_hash runs_platform "run-1" "check" named "v1" "system" "t4" permitted).0
    ≡ ok (record {
      id = "run-1";
      capability_id = "check";
      exit_code = some (pos 0);
      parameters = named;
      artifact_hash = none;
    })
unfolding run_capabilities
hash_run = refl

-- without a policy nothing runs
refused_run :
    (run_evidence_hash runs_platform "run-1" "check" named "v1" "system" "t4" contracted).0
    ≡ err (raised not_allowed)
unfolding run_capabilities
refused_run = refl

observation : Observation
observation = record {
  environment = no_members;
  exit_code = some (pos 0);
  artifact_hash = digest;
  result = no_members;
}

runs-IsAllowed_example :
    IsAllowed (run_noop runs_platform "run-1" "check" named "system" "t4" permitted).1.tables
    × IsAllowed
        (record_observed_process runs_platform "run-1" "check" named observation "system" "t4"
          permitted).1.tables
    × IsAllowed
        (run_evidence_hash runs_platform "run-1" "check" named "v1" "system" "t4"
          permitted).1.tables
    × IsAllowed
        (run_evidence_fields runs_platform "run-1" "check" named "v1" "system" "t4"
          permitted).1.tables
runs-IsAllowed_example =
    runs-IsAllowed runs_platform "run-1" "check" named observation "v1" "system" "t4" permitted
      (unfold run_capabilities in tt)

validate_parameters_iff_example :
    (validate_parameters runs_platform evidence_validation_schema named ≡ ok named)
    ↔ Conforms
        (member "validator_id" schema_of_text (member "evidence_id" schema_of_text no_members))
        ("validator_id" ∷ "evidence_id" ∷ [])
        false
        named
unfolding run_capabilities
validate_parameters_iff_example =
    validate_parameters_iff runs_platform evidence_validation_schema named
      evidence_validation_schema named
      (member "validator_id" schema_of_text (member "evidence_id" schema_of_text no_members))
      ("validator_id" ∷ "evidence_id" ∷ []) false refl
      (record { properties_read = refl; required_read = refl; additional_read = refl }) refl
