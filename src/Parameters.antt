-- ===== src/Parameters.antt =====
-- src/vera_mmu/parameter_validation.py: the closed subset of JSON schemas that a contract may declare, and
-- the parameters that one accepts; and src/vera_mmu/runner_validator_compatibility.py. A number is its
-- canonical text, which `json.loads` reads as an `int` where it has no fraction and no exponent.

pub mod Conforms
use vera_mmu.Common.{
  ℕ, String, Bool, true, false, not, ◌&&◌, ◌||◌, ◌==◌, text_Eq, contains, Option, none, some, List,
  [], ◌∷◌, Result, ok, err, all, any, is_some, if◌then◌else◌,
}
use vera_mmu.Common.Text.{is_empty, has_code}
use vera_mmu.Store.Rows.{
  RunnerProfile, noop, hash_runner, fields_runner, observed_process, ValidatorKind, evidence_hash,
  evidence_fields, evidence_asset,
}
use vera_mmu.Gates.Declare.{has_duplicates}
use vera_mmu.Chain.Platform.{
  Platform, Json, json_null, json_bool, json_number, json_text, json_list, json_object, Members,
  no_members, member, object_of,
}
use vera_mmu.Validators.Rules.{get_member, texts_of, items_of}

-- the messages of `ParameterValidationError`; a TypeError for a `type` that has no hash is the last
pub data ParameterError : Type 0 where
  not_an_object unknown_key root_not_object properties_not_object unnamed_property : ParameterError
  unsupported_property invalid_required unknown_required invalid_additional : ParameterError
  missing_parameter undeclared_parameter wrong_type unhashable_type : ParameterError

infixl 5 ◌>>=◌ ◌>>◌
abbrev pub ◌>>=◌ : {E A B : Type 0} → Result E A → (A → Result E B) → Result E B
ok a >>= f = f a
err e >>= f = err e

abbrev pub ◌>>◌ : {E B : Type 0} → Result E Unit → Result E B → Result E B
m >> k = m >>= λ _. k

abbrev pub check : {E : Type 0} → Bool → E → Result E Unit
check true e = ok tt
check false e = err e

-- `SCALAR_TYPES`
pub data ScalarType : Type 0 where
  string_type integer_type number_type boolean_type null_type : ScalarType

unfoldable pub scalar_type : String → Option ScalarType
scalar_type s =
    if s == "string"
    then some string_type
    else if s == "integer"
    then some integer_type
    else if s == "number"
    then some number_type
    else if s == "boolean"
    then some boolean_type
    else if s == "null"
    then some null_type
    else none

unfoldable pub member_names : Members → List String
member_names no_members = []
member_names (member n v ms) = n ∷ member_names ms

-- `set(normalized) - ROOT_KEYS` is empty
unfoldable is_root_key : String → Bool
is_root_key n = n == "type" || n == "properties" || n == "required" || n == "additionalProperties"

-- `normalized.get("type", "object") == "object"`
abbrev is_object_type : Option Json → Bool
is_object_type none = true
is_object_type (some (json_text s)) = s == "object"
is_object_type (some json_null) = false
is_object_type (some (json_bool _)) = false
is_object_type (some (json_number _)) = false
is_object_type (some (json_list _)) = false
is_object_type (some (json_object _)) = false

-- `normalized.get("type") not in SCALAR_TYPES`, where a list or an object has no hash
abbrev check_scalar : Option Json → Result ParameterError Unit
check_scalar none = err unsupported_property
check_scalar (some (json_text s)) = check (is_some (scalar_type s)) unsupported_property
check_scalar (some json_null) = err unsupported_property
check_scalar (some (json_bool _)) = err unsupported_property
check_scalar (some (json_number _)) = err unsupported_property
check_scalar (some (json_list _)) = err unhashable_type
check_scalar (some (json_object _)) = err unhashable_type

-- `normalized.get("properties", {})`, where it is an object
abbrev pub properties_of : Option Json → Result ParameterError Members
properties_of none = ok no_members
properties_of (some (json_object ms)) = ok ms
properties_of (some json_null) = err properties_not_object
properties_of (some (json_bool _)) = err properties_not_object
properties_of (some (json_number _)) = err properties_not_object
properties_of (some (json_text _)) = err properties_not_object
properties_of (some (json_list _)) = err properties_not_object

abbrev no_empty_name : Option (List String) → Result ParameterError (List String)
no_empty_name none = err invalid_required
no_empty_name (some ns) = if any is_empty ns then err invalid_required else ok ns

-- `normalized.get("required", [])`, where it is a list of names
abbrev pub required_of : Option Json → Result ParameterError (List String)
unfolding texts_of
required_of none = ok []
required_of (some (json_list js)) = no_empty_name (texts_of js)
required_of (some json_null) = err invalid_required
required_of (some (json_bool _)) = err invalid_required
required_of (some (json_number _)) = err invalid_required
required_of (some (json_text _)) = err invalid_required
required_of (some (json_object _)) = err invalid_required

-- `normalized.get("additionalProperties", True)`
abbrev pub additional_of : Option Json → Result ParameterError Bool
additional_of none = ok true
additional_of (some (json_bool b)) = ok b
additional_of (some json_null) = err invalid_additional
additional_of (some (json_number _)) = err invalid_additional
additional_of (some (json_text _)) = err invalid_additional
additional_of (some (json_list _)) = err invalid_additional
additional_of (some (json_object _)) = err invalid_additional

-- `property_schema["type"]`
abbrev pub declared_type : Json → Option ScalarType
declared_type (json_object ms) = elim (get_member ms "type") [
  | none ↦ none
  | some j ↦ elim j [ json_text s ↦ scalar_type s | _ ↦ none ]
]
declared_type json_null = none
declared_type (json_bool _) = none
declared_type (json_number _) = none
declared_type (json_text _) = none
declared_type (json_list _) = none

-- no fraction and no exponent
unfoldable pub is_integer : String → Bool
unfolding has_code
is_integer s = not (has_code b'.' s) && not (has_code b'e' s) && not (has_code b'E' s)

-- the disjunction of `_validate_scalar`
abbrev pub is_of_type : Json → ScalarType → Bool
is_of_type (json_text _) string_type = true
is_of_type (json_text _) integer_type = false
is_of_type (json_text _) number_type = false
is_of_type (json_text _) boolean_type = false
is_of_type (json_text _) null_type = false
is_of_type (json_number n) integer_type = is_integer n
is_of_type (json_number _) number_type = true
is_of_type (json_number _) string_type = false
is_of_type (json_number _) boolean_type = false
is_of_type (json_number _) null_type = false
is_of_type (json_bool _) boolean_type = true
is_of_type (json_bool _) string_type = false
is_of_type (json_bool _) integer_type = false
is_of_type (json_bool _) number_type = false
is_of_type (json_bool _) null_type = false
is_of_type json_null null_type = true
is_of_type json_null string_type = false
is_of_type json_null integer_type = false
is_of_type json_null number_type = false
is_of_type json_null boolean_type = false
is_of_type (json_list _) _ = false
is_of_type (json_object _) _ = false

abbrev pub validate_scalar : Json → Option ScalarType → Result ParameterError Unit
validate_scalar v none = err wrong_type
validate_scalar v (some τ) = check (is_of_type v τ) wrong_type

abbrev pub check_value : Json → Option Json → Result ParameterError Unit
check_value v none = ok tt
check_value v (some schema) = validate_scalar v (declared_type schema)

-- the last loop of `validate_parameters`
unfoldable pub check_values : Members → Members → Result ParameterError Unit
check_values properties no_members = ok tt
check_values properties (member n v vs) = do
  check_value v (get_member properties n)
  check_values properties vs

abbrev pub schema_of_text : Json
schema_of_text = json_object (member "type" (json_text "string") no_members)

-- `EVIDENCE_VALIDATION_SCHEMA`
abbrev pub evidence_validation_schema : Members
evidence_validation_schema = member "type" (json_text "object") (
    member "properties"
      (json_object
        (member "validator_id" schema_of_text (member "evidence_id" schema_of_text no_members)))
      (member "required" (json_list (items_of ("validator_id" ∷ "evidence_id" ∷ [])))
        (member "additionalProperties" (json_bool false) no_members)))

-- `RUNNER_VALIDATOR_PAIRS`, where there is a validator
abbrev pub is_pair : RunnerProfile → Option ValidatorKind → Bool
is_pair hash_runner (some evidence_hash) = true
is_pair hash_runner (some evidence_fields) = false
is_pair hash_runner (some evidence_asset) = false
is_pair hash_runner none = false
is_pair fields_runner (some evidence_hash) = false
is_pair fields_runner (some evidence_fields) = true
is_pair fields_runner (some evidence_asset) = false
is_pair fields_runner none = false
is_pair noop _ = false
is_pair observed_process _ = false

module _ (platform : Platform) where
  -- `_json_object`
  unfoldable pub normalize : Members → Result ParameterError Members
  normalize ms = elim (object_of (platform.loads (platform.canonical_json (json_object ms)))) [
    | none ↦ err not_an_object
    | some ns ↦ ok ns
  ]

  -- `_validate_property_schema`
  unfoldable validate_property_schema : Json → Result ParameterError Unit
  unfolding member_names
  validate_property_schema (json_object ms) = do
    normalized ← normalize ms
    check (all (λ n. n == "type") (member_names normalized)) unsupported_property
    check_scalar (get_member normalized "type")
  validate_property_schema json_null = err unsupported_property
  validate_property_schema (json_bool _) = err unsupported_property
  validate_property_schema (json_number _) = err unsupported_property
  validate_property_schema (json_text _) = err unsupported_property
  validate_property_schema (json_list _) = err unsupported_property

  unfoldable check_properties : Members → Result ParameterError Unit
  unfolding validate_property_schema
  check_properties no_members = ok tt
  check_properties (member n schema ms) = do
    check (not (is_empty n)) unnamed_property
    validate_property_schema schema
    check_properties ms

  -- `validate_parameter_schema`
  unfoldable pub validate_parameter_schema : Members → Result ParameterError Members
  unfolding normalize check_properties is_root_key member_names has_duplicates get_member
  validate_parameter_schema schema = do
    normalized ← normalize schema
    check (all is_root_key (member_names normalized)) unknown_key
    check (is_object_type (get_member normalized "type")) root_not_object
    properties ← properties_of (get_member normalized "properties")
    check_properties properties
    required ← required_of (get_member normalized "required")
    check (not (has_duplicates required) && all (λ n. is_some (get_member properties n)) required)
        unknown_required
    additional ← additional_of (get_member normalized "additionalProperties")
    ok normalized

  -- `validate_parameters`
  unfoldable pub validate_parameters : Members → Members → Result ParameterError Members
  unfolding validate_parameter_schema normalize check_values member_names get_member
  validate_parameters schema parameters = do
    validated ← validate_parameter_schema schema
    values ← normalize parameters
    properties ← properties_of (get_member validated "properties")
    required ← required_of (get_member validated "required")
    check (all (λ n. is_some (get_member values n)) required) missing_parameter
    additional ← additional_of (get_member validated "additionalProperties")
    check (additional || all (λ n. is_some (get_member properties n)) (member_names values))
        undeclared_parameter
    check_values properties values
    ok values

  -- `ensure_runner_validator_compatibility`
  unfoldable pub is_compatible : RunnerProfile → Option ValidatorKind → Members → Bool
  is_compatible runner kind schema =
      is_pair runner kind
      && platform.canonical_json (json_object schema)
        == platform.canonical_json (json_object evidence_validation_schema)
