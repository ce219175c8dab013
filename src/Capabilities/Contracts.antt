-- ===== src/Capabilities/Contracts.antt =====
-- `CapabilityContractService` of src/vera_mmu/capability_contracts.py: the runner of a capability, its
-- bounds and the schema of its parameters.
use vera_mmu.Common.{
  ℕ, String, Bool, not, ◌&&◌, ◌==◌, text_Eq, leb, Option, none, some, [], ◌∷◌, ◌++◌, find, is_some,
  Result, ok, err, if◌then◌else◌, pure, gets, require, or_raise, lift, ◌>>=◌, ◌>>◌,
}
use vera_mmu.Common.Text.{is_plain_identifier, is_empty, is_stripped}
use vera_mmu.Store.{
  Tables, Method, Rows, Raised, raised, atomic_row, append_audit, insert, has_length,
}
use vera_mmu.Store.Rows.{
  CapabilityContract, RunnerProfile, noop, hash_runner, fields_runner, observed_process,
  NetworkPolicy, deny_network, text,
}
use vera_mmu.Chain.Platform.{Platform, json_object, Members, object_of}
use vera_mmu.Parameters.{ParameterError, unhashable_type, validate_parameter_schema}
use vera_mmu.Capabilities.{has_capability}

-- the messages of `CapabilityContractError`; `type_error` is a TypeError that the service lets pass
pub data ContractError : Type 0 where
  invalid_contract_id unknown_runner timeout_out_of_bounds invalid_contract_actor : ContractError
  schema_not_closed type_error unknown_capability invalid_contract contract_unreadable :
      ContractError
  contract_not_found schema_unreadable : ContractError

-- `RUNNER_PROFILES`
unfoldable pub runner_profile : String → Option RunnerProfile
runner_profile s =
    if s == "NOOP"
    then some noop
    else if s == "EVIDENCE_HASH"
    then some hash_runner
    else if s == "EVIDENCE_FIELDS"
    then some fields_runner
    else if s == "OBSERVED_PROCESS"
    then some observed_process
    else none

-- `NETWORK_POLICIES`
unfoldable pub network_policy : String → Option NetworkPolicy
network_policy s = if s == "DENY_NETWORK" then some deny_network else none

unfoldable pub find_contract : Tables → String → Option CapabilityContract
find_contract t id = find (λ c. c.capability_id == id) t.contracts

-- `except ParameterValidationError`: a TypeError passes
abbrev pub closed_schema : Result ParameterError Members → Result (Raised ContractError) Members
closed_schema (ok ms) = ok ms
closed_schema (err unhashable_type) = err (raised type_error)
closed_schema (err _) = err (raised schema_not_closed)

-- what the service returns: the row, and its schema decoded
pub record ContractView : Type 0 where
  pub row : CapabilityContract
  pub parameter_schema : Members

module _ (platform : Platform) where
  -- the constraints of `capability_contract`
  unfoldable pub contract_is_valid : Tables → CapabilityContract → Bool
  unfolding has_length has_capability find_contract
  contract_is_valid t c =
      not (is_some (find_contract t c.capability_id))
      && has_capability t c.capability_id
      && leb 1 c.timeout_seconds
      && leb c.timeout_seconds 3600
      && is_some (platform.loads c.parameter_schema_json)
      && has_length 1 256 c.created_by

  unfoldable pub insert_contract : {E : Type 0} → CapabilityContract → Rows E Unit
  unfolding contract_is_valid
  insert_contract c =
      insert (λ t. contract_is_valid t c) (λ t. record t { contracts = t.contracts ++ c ∷ [] })

  -- the block of `declare`
  unfoldable pub declare_contract_rows :
      CapabilityContract → String → Rows ContractError (Option CapabilityContract)
  unfolding insert_contract find_contract has_capability
  declare_contract_rows c runner_text = do
    known ← gets (λ t. has_capability t c.capability_id)
    require known (raised unknown_capability)
    insert_contract c
    row ← gets (λ t. find_contract t c.capability_id)
    append_audit c.created_at "CAPABILITY_CONTRACT_DECLARED" (
        ("capability_id", text c.capability_id)
        ∷ ("runner_profile", text runner_text)
        ∷ ("actor", text c.created_by)
        ∷ [])
    pure row

  -- `_contract`
  unfoldable pub read_contract : CapabilityContract → Method ContractError ContractView
  read_contract c = do
    schema ←
        or_raise (object_of (platform.loads c.parameter_schema_json)) (raised schema_unreadable)
    pure (record { row = c; parameter_schema = schema })

  -- `CapabilityContractService.declare`; an absent schema is the empty object
  unfoldable pub declare_contract :
      String
      → String
      → String
      → ℕ
      → Members
      → Bool
      → String
      → String
      → Method ContractError ContractView
  unfolding declare_contract_rows runner_profile network_policy read_contract
      validate_parameter_schema
  declare_contract id runner_text network_text timeout schema yields_proof actor now = do
    require (is_plain_identifier id) (raised invalid_contract_id)
    runner ← or_raise (runner_profile runner_text) (raised unknown_runner)
    network ← or_raise (network_policy network_text) (raised unknown_runner)
    require (leb 1 timeout && leb timeout 3600) (raised timeout_out_of_bounds)
    require (not (is_empty actor) && is_stripped actor) (raised invalid_contract_actor)
    normalized ← lift (closed_schema (validate_parameter_schema platform schema))
    row ← atomic_row invalid_contract contract_unreadable (
        declare_contract_rows
          (record {
            capability_id = id;
            runner_profile = runner;
            network_policy = network;
            timeout_seconds = timeout;
            parameter_schema_json = platform.canonical_json (json_object normalized);
            yields_proof = yields_proof;
            created_at = now;
            created_by = actor;
          })
          runner_text)
    read_contract row

  -- `CapabilityContractService.get`
  unfoldable pub get_contract : String → Method ContractError ContractView
  unfolding find_contract read_contract
  get_contract id = do
    found ← gets (λ s. find_contract s.tables id)
    row ← or_raise found (raised contract_not_found)
    read_contract row
