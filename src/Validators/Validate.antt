-- ===== src/Validators/Validate.antt =====
-- `validate`, `record_validation` and the reads of src/vera_mmu/validators.py.
use vera_mmu.Common.{
  String, Bool, true, not, ◌&&◌, ◌==◌, text_Eq, nat_eq, lift, Option, none, some, [], ◌∷◌, ◌++◌,
  find, any, all, is_some, if◌then◌else◌, pure, gets, require, or_raise, ◌>>=◌, ◌>>◌,
}
use vera_mmu.Common.Text.{is_plain_identifier, len}
use vera_mmu.Store.{Tables, Method, Rows, raised, atomic, append_audit, insert, has_length}
use vera_mmu.Store.Rows.{Validator, ValidatorKind, ValidationResult, text}
use vera_mmu.Gates.Declare.{has_evidence}
use vera_mmu.Chain.Platform.{Platform, object_of}
use vera_mmu.Validators.Rules.{
  ValidatorError, invalid_validator_id, validator_not_found, result_not_found,
  invalid_validation_id, unknown_validator_or_evidence, not_canonical, invalid_result,
  result_unreadable,
}
use vera_mmu.Validators.Assess.{assess, Assessment}
use vera_mmu.Validators.Register.{is_required}

abbrev fits_hash : Option String → Bool
fits_hash none = true
fits_hash (some h) = nat_eq (len h) 64

-- the constraints of `validation_result`
unfoldable pub result_is_valid : Tables → ValidationResult → Bool
unfolding has_length has_evidence
result_is_valid t r =
    has_length 1 256 r.id
    && not (is_some (find (λ q. q.id == r.id) t.validation_results))
    && is_some (find (λ v. v.id == r.validator_id) t.validators)
    && has_evidence t r.evidence_id
    && nat_eq (len r.expected_hash) 64
    && fits_hash r.observed_hash
    && has_length 1 256 r.created_by
    && not (
        any (λ q. q.validator_id == r.validator_id && q.evidence_id == r.evidence_id)
          t.validation_results)

unfoldable pub insert_result : {E : Type 0} → ValidationResult → Rows E Unit
unfolding result_is_valid
insert_result r =
    insert (λ t. result_is_valid t r)
      (λ t. record t { validation_results = t.validation_results ++ r ∷ [] })

abbrev pub result_row : String → String → String → Assessment → String → String → ValidationResult
result_row id validator evidence a actor now = record {
  id = id;
  validator_id = validator;
  evidence_id = evidence;
  passed = a.passed;
  expected_hash = a.expected;
  observed_hash = a.observed;
  created_at = now;
  created_by = actor;
}

module _ (platform : Platform) where
  -- `record_validation`
  unfoldable pub record_validation :
      Option ValidatorKind
      → String
      → String
      → String
      → String
      → String
      → Rows ValidatorError ValidationResult
  unfolding insert_result
  record_validation required id validator evidence actor now = do
    validators ← gets (λ t. find (λ w. w.id == validator) t.validators)
    v ← or_raise validators (raised unknown_validator_or_evidence)
    recorded ← gets (λ t. find (λ f. f.id == evidence) t.evidence)
    e ← or_raise recorded (raised unknown_validator_or_evidence)
    require (is_required required v.kind) (raised unknown_validator_or_evidence)
    content ← or_raise (object_of (platform.loads e.content_json)) (raised not_canonical)
    assessed ← gets (λ t. assess platform t v v.kind e content)
    a ← lift assessed
    insert_result (result_row id validator evidence a actor now)
    row ← gets (λ t. find (λ q. q.id == id) t.validation_results)
    or_raise row (raised result_unreadable)

  abbrev pub verdict_text : Bool → String
  verdict_text passed = if passed then "PASS" else "FAIL"

  -- the block of `validate`
  unfoldable pub validate_rows :
      String → String → String → String → String → Rows ValidatorError ValidationResult
  unfolding record_validation
  validate_rows id validator evidence actor now = do
    result ← record_validation none id validator evidence actor now
    append_audit now "VALIDATION_RECORDED" (
        ("validation_id", text id)
        ∷ ("validator_id", text validator)
        ∷ ("evidence_id", text evidence)
        ∷ ("verdict", text (verdict_text result.passed))
        ∷ ("actor", text actor)
        ∷ [])
    pure result

  -- `ValidatorService.validate`
  unfoldable pub validate :
      String → String → String → String → String → Method ValidatorError ValidationResult
  unfolding validate_rows
  validate id validator evidence actor now = do
    require (all is_plain_identifier (id ∷ validator ∷ evidence ∷ actor ∷ []))
        (raised invalid_validation_id)
    atomic invalid_result (validate_rows id validator evidence actor now)

-- `ValidatorService.get`, up to the decoding of its rule
unfoldable pub get_validator : String → Method ValidatorError Validator
get_validator id = do
  require (is_plain_identifier id) (raised invalid_validator_id)
  found ← gets (λ s. find (λ v. v.id == id) s.tables.validators)
  or_raise found (raised validator_not_found)

-- `ValidatorService.get_result`
unfoldable pub get_result : String → Method ValidatorError ValidationResult
get_result id = do
  found ← gets (λ s. find (λ r. r.id == id) s.tables.validation_results)
  or_raise found (raised result_not_found)
