-- ===== src/Capabilities.antt =====
-- `CapabilityService` of src/vera_mmu/capabilities.py: the registry of what a project can run.
pub mod Contracts
pub mod Policies
use vera_mmu.Common.{
  ℕ, ◌-◌, String, Bool, true, false, not, ◌&&◌, ◌||◌, ◌==◌, text_Eq, nat_eq, leb, Option, none,
  some, List, [], ◌∷◌, ◌++◌, find, any, all, is_some, length, if◌then◌else◌, pure, gets, require,
  or_raise, ◌>>=◌, ◌>>◌,
}
use vera_mmu.Common.Text.{is_canonical_line, is_stripped, has_code, len, codes}
use vera_mmu.Addressing.{is_address_of}
use vera_mmu.Store.{Tables, Store, Method, Rows, raised, atomic, append_audit, insert, has_length}
use vera_mmu.Store.Rows.{
  Capability, CapabilityKind, action, check, oracle, collector, generator, query, Value, text,
}
use vera_mmu.WorkItems.{is_optional_line}
use vera_mmu.Chain.Platform.{Platform, Json, json_object, Members, object_of}

pub data CapabilityError : Type 0 where
  invalid_capability_id invalid_name unknown_kind invalid_version invalid_description :
      CapabilityError
  not_canonical invalid_actor invalid_capability capability_unreadable : CapabilityError
  capability_not_found : CapabilityError

-- `CAPABILITY_KINDS`
unfoldable pub capability_kind : String → Option CapabilityKind
capability_kind s =
    if s == "ACTION"
    then some action
    else if s == "CHECK"
    then some check
    else if s == "ORACLE"
    then some oracle
    else if s == "COLLECTOR"
    then some collector
    else if s == "GENERATOR"
    then some generator
    else if s == "QUERY"
    then some query
    else none

is_digit : ℕ → Bool
is_digit c = leb 48 c && leb c 57

-- `[0-9]+(?:\.[0-9]+){0,k}`, where `digits` says that the current number has a digit
unfoldable is_version_from : ℕ → Bool → List ℕ → Bool
unfolding is_digit
is_version_from k digits [] = digits
is_version_from k digits (c ∷ cs) =
    let number = is_version_from k true cs in
    let dotted = nat_eq c b'.' && digits && leb 1 k && is_version_from (k - 1) false cs in
    if is_digit c then number else dotted

-- `CAPABILITY_VERSION_RE.fullmatch`
unfoldable pub is_version : String → Bool
unfolding is_version_from
is_version s = is_version_from 2 false (codes s)

-- what the service is asked to declare; an absent schema is the empty object
pub record NewCapability : Type 0 where
  pub id : String
  pub name : String
  pub kind : String
  pub version : String
  pub description : String
  pub input_schema : Members
  pub parameter_schema : Members
  pub output_schema : Members
  pub metadata : Members

-- the record that the service returns
pub record CapabilityView : Type 0 where
  pub row : Capability
  pub input_schema : Members
  pub parameter_schema : Members
  pub output_schema : Members
  pub metadata : Members

unfoldable pub find_capability : Tables → String → Option Capability
find_capability t id = find (λ c. c.id == id) t.capabilities

-- `SELECT 1 FROM capability WHERE id = ?` has a row
unfoldable pub has_capability : Tables → String → Bool
unfolding find_capability
has_capability t id = is_some (find_capability t id)

module _ (platform : Platform) where
  -- the constraints of `capability`
  unfoldable pub capability_is_valid : Tables → Capability → Bool
  unfolding has_length has_capability
  capability_is_valid t c =
      has_length 1 256 c.id
      && not (has_capability t c.id)
      && has_length 1 256 c.name
      && has_length 0 4096 c.description
      && has_length 1 64 c.version
      && is_some (platform.loads c.input_schema_json)
      && is_some (platform.loads c.parameter_schema_json)
      && is_some (platform.loads c.output_schema_json)
      && is_some (platform.loads c.metadata_json)
      && has_length 1 256 c.created_by
      && not (any (λ d. d.name == c.name && d.version == c.version) t.capabilities)

  unfoldable pub insert_capability : {E : Type 0} → Capability → Rows E Unit
  unfolding capability_is_valid
  insert_capability c =
      insert (λ t. capability_is_valid t c)
        (λ t. record t { capabilities = t.capabilities ++ c ∷ [] })

  -- the block of `create`
  unfoldable pub create_capability_rows : Capability → String → Rows CapabilityError Capability
  unfolding insert_capability find_capability
  create_capability_rows c kind_text = do
    insert_capability c
    found ← gets (λ t. find_capability t c.id)
    row ← or_raise found (raised capability_unreadable)
    append_audit c.created_at "CAPABILITY_DECLARED" (
        ("capability_id", text c.id) ∷ ("kind", text kind_text) ∷ ("actor", text c.created_by) ∷ [])
    pure row

  -- `_decode_json_object`
  unfoldable pub decoded : String → Method CapabilityError Members
  decoded s = or_raise (object_of (platform.loads s)) (raised not_canonical)

  -- `_capability_from_row`; the identifier of a stored row has an address
  unfoldable pub read_capability : Capability → Method CapabilityError CapabilityView
  unfolding decoded
  read_capability c = do
    input ← decoded c.input_schema_json
    parameter ← decoded c.parameter_schema_json
    output ← decoded c.output_schema_json
    metadata ← decoded c.metadata_json
    pure (record {
      row = c;
      input_schema = input;
      parameter_schema = parameter;
      output_schema = output;
      metadata = metadata;
    })

  -- `_require_json_object`
  unfoldable pub canonical : Members → Method CapabilityError Json
  canonical ms =
      or_raise (platform.loads (platform.canonical_json (json_object ms))) (raised not_canonical)

  -- `_require_identifier`
  unfoldable pub require_capability_id : String → Method CapabilityError Unit
  unfolding is_address_of
  require_capability_id id = do
    formed ← gets (λ s. is_address_of s.project_id "capability" id)
    require formed (raised invalid_capability_id)

  -- `CapabilityService.create`
  unfoldable pub create_capability :
      NewCapability → String → String → Method CapabilityError CapabilityView
  unfolding create_capability_rows read_capability require_capability_id canonical capability_kind
      is_version is_optional_line
  create_capability new actor now = do
    require_capability_id new.id
    require (is_canonical_line 256 new.name) (raised invalid_name)
    kind ← or_raise (capability_kind new.kind) (raised unknown_kind)
    require (is_version new.version) (raised invalid_version)
    require (is_optional_line 4096 new.description) (raised invalid_description)
    input ← canonical new.input_schema
    parameter ← canonical new.parameter_schema
    output ← canonical new.output_schema
    metadata ← canonical new.metadata
    require (is_canonical_line 256 actor) (raised invalid_actor)
    row ← atomic invalid_capability (
        create_capability_rows
          (record {
            id = new.id;
            name = new.name;
            description = new.description;
            kind = kind;
            version = new.version;
            input_schema_json = platform.canonical_json input;
            parameter_schema_json = platform.canonical_json parameter;
            output_schema_json = platform.canonical_json output;
            metadata_json = platform.canonical_json metadata;
            created_at = now;
            created_by = actor;
          })
          new.kind)
    read_capability row

  -- `CapabilityService.get`
  unfoldable pub get_capability : String → Method CapabilityError CapabilityView
  unfolding read_capability find_capability require_capability_id
  get_capability id = do
    require_capability_id id
    found ← gets (λ s. find_capability s.tables id)
    row ← or_raise found (raised capability_not_found)
    read_capability row
