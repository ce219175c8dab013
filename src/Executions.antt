-- ===== src/Executions.antt =====
-- `ExecutionService` of src/vera_mmu/executions.py: what a runner has done, recorded where the contract of
-- the capability names the runner and its policy is an explicit ALLOW.
pub mod Allowed
pub mod Evidence
use vera_mmu.Common.{
  ℕ, String, Bool, true, false, not, ◌&&◌, ◌||◌, ◌==◌, text_Eq, nat_eq, leb, Option, none, some,
  List, [], ◌∷◌, ◌++◌, find, all, is_some, Result, ok, err, if◌then◌else◌, pure, gets, require,
  or_raise, refuse, lift, ◌>>=◌, ◌>>◌,
}
use vera_mmu.Common.Text.{is_plain_identifier, is_empty, len, codes}
use vera_mmu.Common.Int.{ℤ, pos}
use vera_mmu.Addressing.{is_address_of}
use vera_mmu.Store.{
  Tables, Store, Method, Rows, Raised, raised, integrity_error, store_error, transaction, execute,
  atomic, append_audit, insert, has_length,
}
use vera_mmu.Store.Rows.{
  Execution, CapabilityContract, RunnerProfile, noop, hash_runner, fields_runner, observed_process,
  NetworkPolicy, deny_network, CapabilityPolicy, PolicyDecision, allow, deny, confirm,
  ValidatorKind, evidence_hash, evidence_fields, ValidationResult, Value, text,
}
use vera_mmu.Capabilities.{has_capability}
use vera_mmu.Capabilities.Contracts.{find_contract}
use vera_mmu.Capabilities.Policies.{find_capability_policy}
use vera_mmu.Chain.Platform.{
  Platform, Json, json_null, json_bool, json_number, json_text, json_list, json_object, Members,
  no_members, member, object_of,
}
use vera_mmu.Parameters.{ParameterError, validate_parameters, is_compatible}
use vera_mmu.Validators.Rules.{ValidatorError, get_member, is_hex}
use vera_mmu.Validators.Validate.{record_validation, verdict_text}

-- the messages of `ExecutionError`. The last three are errors of Python that the service lets pass: a
-- KeyError, an error of the database's binding, and a schema that is no JSON.
pub data ExecutionError : Type 0 where
  invalid_execution_id actor_required invalid_artifact_hash inadmissible_contract : ExecutionError
  not_allowed out_of_contract incompatible_runner validation_impossible : ExecutionError
  invalid_execution execution_not_found execution_unreadable : ExecutionError
  key_error binding_error json_error : ExecutionError

-- the record that a runner returns; the status is COMPLETED
pub record Executed : Type 0 where
  pub id : String
  pub capability_id : String
  pub exit_code : Option ℤ
  pub parameters : Members
  pub artifact_hash : Option String

-- the record that `get` returns
pub record ExecutionView : Type 0 where
  pub row : Execution
  pub parameters : Members
  pub environment : Members
  pub result : Members

abbrev pub is_runner : RunnerProfile → RunnerProfile → Bool
is_runner noop noop = true
is_runner noop hash_runner = false
is_runner noop fields_runner = false
is_runner noop observed_process = false
is_runner hash_runner noop = false
is_runner hash_runner hash_runner = true
is_runner hash_runner fields_runner = false
is_runner hash_runner observed_process = false
is_runner fields_runner noop = false
is_runner fields_runner hash_runner = false
is_runner fields_runner fields_runner = true
is_runner fields_runner observed_process = false
is_runner observed_process noop = false
is_runner observed_process hash_runner = false
is_runner observed_process fields_runner = false
is_runner observed_process observed_process = true

abbrev pub denies_network : NetworkPolicy → Bool
denies_network deny_network = true

-- `row['policy_decision'] == 'ALLOW'`, of the LEFT JOIN
abbrev pub is_allow : Option CapabilityPolicy → Bool
is_allow none = false
is_allow (some p) = elim p.decision [ allow ↦ true | deny ↦ false | confirm ↦ false ]

unfoldable pub find_execution : Tables → String → Option Execution
find_execution t id = find (λ x. x.id == id) t.executions

abbrev fits_artifact : Option String → Bool
fits_artifact none = true
fits_artifact (some h) = nat_eq (len h) 64

-- `except ParameterValidationError, TypeError, ValueError`
abbrev pub in_contract : Result ParameterError Members → Result (Raised ExecutionError) Members
in_contract (ok ms) = ok ms
in_contract (err _) = err (raised out_of_contract)

-- `except ValidatorError`
abbrev pub rethrow :
    {A : Type 0}
    → Result (Raised ValidatorError) A × Tables
    → Result (Raised ExecutionError) A × Tables
rethrow (ok a, t) = (ok a, t)
rethrow (err (raised e), t) = (err (raised validation_impossible), t)
rethrow (err integrity_error, t) = (err integrity_error, t)
rethrow (err store_error, t) = (err store_error, t)

-- `re.fullmatch(r'[0-9a-f]{64}', artifact_hash)`
unfoldable pub is_digest : String → Bool
unfolding len is_hex
is_digest h = nat_eq (len h) 64 && all is_hex (codes h)

-- a value that `sqlite3` binds to a parameter
abbrev pub is_bindable : Json → Bool
is_bindable json_null = true
is_bindable (json_bool _) = true
is_bindable (json_number _) = true
is_bindable (json_text _) = true
is_bindable (json_list _) = false
is_bindable (json_object _) = false

-- The kind of the validator that the value names. The test of the schema, which follows, refuses a value
-- that is no text.
abbrev pub kind_named : Tables → Json → Option ValidatorKind
kind_named t (json_text id) = elim (find (λ v. v.id == id) t.validators) [
  | none ↦ none
  | some v ↦ some v.kind
]
kind_named t json_null = none
kind_named t (json_bool _) = none
kind_named t (json_number _) = none
kind_named t (json_list _) = none
kind_named t (json_object _) = none

abbrev pub text_of : Json → Option String
text_of (json_text s) = some s
text_of json_null = none
text_of (json_bool _) = none
text_of (json_number _) = none
text_of (json_list _) = none
text_of (json_object _) = none

-- the tests that every runner makes on the contract and the policy; it returns the text of the schema
unfoldable pub admit : RunnerProfile → String → Rows ExecutionError String
unfolding find_contract find_capability_policy
admit runner capability = do
  found ← gets (λ t. find_contract t capability)
  contract ← or_raise found (raised inadmissible_contract)
  require
      (is_runner contract.runner_profile runner
        && denies_network contract.network_policy
        && not contract.yields_proof)
      (raised inadmissible_contract)
  allowed ← gets (λ t. is_allow (find_capability_policy t capability))
  require allowed (raised not_allowed)
  pure contract.parameter_schema_json

-- the row of a run inside the Core
abbrev pub core_run : String → String → String → String → String → String → Execution
core_run id capability parameters result actor now = record {
  id = id;
  capability_id = capability;
  status = "COMPLETED";
  exit_code = some (pos 0);
  parameters_json = parameters;
  environment_json = "{}";
  started_at = some now;
  finished_at = some now;
  artifact_hash = none;
  result_json = result;
  created_by = actor;
}

abbrev recorded_payload : String → String → String → String → List (String × Value)
recorded_payload id capability profile actor =
    ("execution_id", text id)
    ∷ ("capability_id", text capability)
    ∷ ("runner_profile", text profile)
    ∷ ("actor", text actor)
    ∷ []

-- what an observed process reports
pub record Observation : Type 0 where
  pub environment : Members
  pub exit_code : Option ℤ
  pub artifact_hash : String
  pub result : Members

module _ (platform : Platform) where
  -- the constraints of `execution`
  unfoldable pub execution_is_valid : Tables → Execution → Bool
  unfolding has_length find_execution has_capability
  execution_is_valid t x =
      has_length 1 256 x.id
      && not (is_some (find_execution t x.id))
      && has_capability t x.capability_id
      && has_length 1 64 x.status
      && is_some (platform.loads x.parameters_json)
      && is_some (platform.loads x.environment_json)
      && fits_artifact x.artifact_hash
      && is_some (platform.loads x.result_json)
      && has_length 1 256 x.created_by

  unfoldable pub insert_execution : {E : Type 0} → Execution → Rows E Unit
  unfolding execution_is_valid
  insert_execution x =
      insert (λ t. execution_is_valid t x) (λ t. record t { executions = t.executions ++ x ∷ [] })

  -- `validate_parameters(schema, parameters)`, of a schema that is an object
  unfoldable pub validated : Option Members → Members → Rows ExecutionError Members
  unfolding validate_parameters
  validated schema parameters = do
    s ← or_raise schema (raised out_of_contract)
    lift (in_contract (validate_parameters platform s parameters))

  -- the block of `run_noop`
  unfoldable pub run_noop_rows :
      String → String → Members → String → String → Rows ExecutionError Members
  unfolding admit validated insert_execution
  run_noop_rows id capability parameters actor now = do
    schema ← admit noop capability
    values ← validated (object_of (platform.loads schema)) parameters
    insert_execution (core_run id capability (platform.dumps (json_object values)) "{}" actor now)
    append_audit now "EXECUTION_RECORDED" (recorded_payload id capability "NOOP" actor)
    pure values

  -- `run_noop`, which lets an `sqlite3.IntegrityError` pass
  unfoldable pub run_noop :
      String → String → Members → String → String → Method ExecutionError Executed
  unfolding run_noop_rows
  run_noop id capability parameters actor now = do
    require (is_plain_identifier id) (raised invalid_execution_id)
    refuse (is_empty actor) (raised actor_required)
    values ← transaction (execute (run_noop_rows id capability parameters actor now))
    pure (record {
      id = id;
      capability_id = capability;
      exit_code = some (pos 0);
      parameters = values;
      artifact_hash = none;
    })

  -- the block of `record_observed_process`
  unfoldable pub observed_rows :
      String → String → Members → Observation → String → String → Rows ExecutionError Members
  unfolding admit validated insert_execution
  observed_rows id capability parameters o actor now = do
    schema ← admit observed_process capability
    decoded ← or_raise (platform.loads schema) (raised json_error)
    values ← validated (object_of (some decoded)) parameters
    insert_execution (record {
      id = id;
      capability_id = capability;
      status = "COMPLETED";
      exit_code = o.exit_code;
      parameters_json = platform.canonical_json (json_object values);
      environment_json = platform.canonical_json (json_object o.environment);
      started_at = some now;
      finished_at = some now;
      artifact_hash = some o.artifact_hash;
      result_json = platform.canonical_json (json_object o.result);
      created_by = actor;
    })
    append_audit now "OBSERVED_PROCESS_RECORDED" (
        ("execution_id", text id)
        ∷ ("capability_id", text capability)
        ∷ ("artifact_hash", text o.artifact_hash)
        ∷ ("actor", text actor)
        ∷ [])
    pure values

  -- `record_observed_process`
  unfoldable pub record_observed_process :
      String → String → Members → Observation → String → String → Method ExecutionError Executed
  unfolding observed_rows is_digest
  record_observed_process id capability parameters o actor now = do
    require (all is_plain_identifier (id ∷ capability ∷ actor ∷ [])) (raised invalid_execution_id)
    require (is_digest o.artifact_hash) (raised invalid_artifact_hash)
    values ← atomic invalid_execution (observed_rows id capability parameters o actor now)
    pure (record {
      id = id;
      capability_id = capability;
      exit_code = o.exit_code;
      parameters = values;
      artifact_hash = some o.artifact_hash;
    })

  -- `{'validation_id': …, 'verdict': …}`
  abbrev validation_object : String → ValidationResult → Members
  validation_object id r =
      member "validation_id" (json_text id)
        (member "verdict" (json_text (verdict_text platform r.passed)) no_members)

  -- `ExecutionService.get`
  unfoldable pub get_execution : String → Method ExecutionError ExecutionView
  unfolding find_execution is_address_of
  get_execution id = do
    formed ← gets (λ s. is_address_of s.project_id "execution" id)
    require formed (raised invalid_execution_id)
    found ← gets (λ s. find_execution s.tables id)
    row ← or_raise found (raised execution_not_found)
    parameters ←
        or_raise (object_of (platform.loads row.parameters_json)) (raised execution_unreadable)
    environment ←
        or_raise (object_of (platform.loads row.environment_json)) (raised execution_unreadable)
    result ← or_raise (object_of (platform.loads row.result_json)) (raised execution_unreadable)
    pure (record { row = row; parameters = parameters; environment = environment; result = result })
