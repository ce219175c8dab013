-- ===== src/Chain/Decide.antt =====
-- `AdmissionService` of src/vera_mmu/admission.py.
use vera_mmu.Common.{
  String, Bool, true, false, not, ◌&&◌, ◌==◌, text_Eq, Option, none, some, [], ◌∷◌, ◌++◌, find, any,
  is_some, if◌then◌else◌, pure, raise, gets, require, or_raise, refuse, ◌>>=◌, ◌>>◌,
}
use vera_mmu.Common.Text.{is_empty, is_plain_identifier, strip}
use vera_mmu.Store.{
  Tables, Method, Rows, raised, integrity_error, atomic_row, append_audit, insert, has_length,
}
use vera_mmu.Store.Rows.{
  Admission, Decision, admitted, rejected, is_admitted, Verdict, is_pass, AdmissionMode,
  pass_evidence, validated_pass_evidence, ValidationBinding, ValidationResult, Value, text, null,
}
use vera_mmu.Gates.Declare.{has_evidence}

pub data AdmissionError : Type 0 where
  invalid_decision invalid_binding unknown_evidence evidence_not_pass policy_absent : AdmissionError
  binding_required binding_not_pass binding_forbidden binding_reserved : AdmissionError
  invalid_admission admission_unreadable : AdmissionError

-- the row of the decision joined with its binding
pub record AdmissionView : Type 0 where
  pub row : Admission
  pub validation_id : Option String

unfoldable pub decision_of : String → Option Decision
decision_of s =
    if s == "ADMITTED" then some admitted else if s == "REJECTED" then some rejected else none

-- the constraints of `evidence_admission`
unfoldable pub admission_is_valid : Tables → Admission → Bool
unfolding has_evidence has_length
admission_is_valid t a =
    has_length 1 256 a.id
    && not (is_some (find (λ b. b.id == a.id) t.admissions))
    && not (is_some (find (λ b. b.evidence_id == a.evidence_id) t.admissions))
    && has_evidence t a.evidence_id
    && has_length 1 1024 a.reason
    && has_length 1 256 a.created_by

unfoldable pub insert_admission : {E : Type 0} → Admission → Rows E Unit
insert_admission a =
    insert (λ t. admission_is_valid t a) (λ t. record t { admissions = t.admissions ++ a ∷ [] })

-- `validation is None or …` of the strict policy, negated
abbrev pub passes_for : String → Option ValidationResult → Bool
passes_for evidence none = false
passes_for evidence (some r) = r.evidence_id == evidence && r.passed

unfoldable pub validation_passes : Tables → String → String → Bool
validation_passes t evidence validation =
    passes_for evidence (find (λ r. r.id == validation) t.validation_results)

abbrev admits_same : String → Option Admission → Bool
admits_same evidence none = false
admits_same evidence (some a) = is_admitted a.decision && a.evidence_id == evidence

-- the constraints and the triggers of `admission_validation_binding`
unfoldable pub binding_is_valid : Tables → ValidationBinding → Bool
unfolding has_evidence has_length validation_passes
binding_is_valid t b =
    not (any (λ c. c.admission_id == b.admission_id) t.bindings)
    && not (any (λ c. c.validation_id == b.validation_id) t.bindings)
    && has_evidence t b.evidence_id
    && admits_same b.evidence_id (find (λ a. a.id == b.admission_id) t.admissions)
    && validation_passes t b.evidence_id b.validation_id
    && has_length 1 256 b.created_by

unfoldable pub insert_binding : {E : Type 0} → ValidationBinding → Rows E Unit
insert_binding b =
    insert (λ t. binding_is_valid t b) (λ t. record t { bindings = t.bindings ++ b ∷ [] })

abbrev pub is_strict : AdmissionMode → Bool
is_strict pass_evidence = false
is_strict validated_pass_evidence = true

-- the tests on the validation, by whether the policy is strict
unfoldable pub check_binding : Bool → String → Option String → Rows AdmissionError Unit
unfolding validation_passes
check_binding true evidence none = raise (raised binding_required)
check_binding true evidence (some v) = do
  passes ← gets (λ t. validation_passes t evidence v)
  require passes (raised binding_not_pass)
check_binding false evidence none = pure tt
check_binding false evidence (some v) = raise (raised binding_forbidden)

-- the tests on the decision; the result is `strict`
unfoldable pub check_decision :
    Decision → Verdict → String → Option String → Rows AdmissionError Bool
unfolding check_binding
check_decision admitted verdict evidence validation = do
  require (is_pass verdict) (raised evidence_not_pass)
  found ← gets (λ t. t.admission_policy)
  policy ← or_raise found (raised policy_absent)
  check_binding (is_strict policy.mode) evidence validation
  pure (is_strict policy.mode)
check_decision rejected verdict evidence none = pure false
check_decision rejected verdict evidence (some v) = raise (raised binding_reserved)

-- `if strict: INSERT INTO admission_validation_binding`; its column `validation_id` is not null
unfoldable pub bind_validation :
    Bool → String → Option String → String → String → String → Rows AdmissionError Unit
unfolding insert_binding
bind_validation false id validation evidence actor now = pure tt
bind_validation true id none evidence actor now = raise integrity_error
bind_validation true id (some v) evidence actor now = insert_binding (record {
  admission_id = id;
  validation_id = v;
  evidence_id = evidence;
  created_at = now;
  created_by = actor;
})

abbrev bound_validation : Option ValidationBinding → Option String
bound_validation none = none
bound_validation (some b) = some b.validation_id

abbrev view_of : Tables → Option Admission → Option AdmissionView
view_of t none = none
view_of t (some a) = some (record {
  row = a;
  validation_id = bound_validation (find (λ b. b.admission_id == a.id) t.bindings);
})

-- the query with `LEFT JOIN`
unfoldable pub read_admission : Tables → String → Option AdmissionView
read_admission t id = view_of t (find (λ a. a.id == id) t.admissions)

abbrev optional_text : Option String → Value
optional_text none = null
optional_text (some s) = text s

abbrev pub admission_row : String → String → Decision → String → String → String → Admission
admission_row id evidence decision reason actor now = record {
  id = id;
  evidence_id = evidence;
  decision = decision;
  reason = strip reason;
  created_at = now;
  created_by = actor;
}

-- the block of `decide`
unfoldable pub decide_rows :
    String
    → String
    → String
    → Decision
    → String
    → Option String
    → String
    → String
    → Rows AdmissionError (Option AdmissionView)
unfolding insert_admission read_admission
decide_rows id evidence decision_text decision reason validation actor now = do
  found ← gets (λ t. find (λ e. e.id == evidence) t.evidence)
  recorded ← or_raise found (raised unknown_evidence)
  strict ← check_decision decision recorded.verdict evidence validation
  insert_admission (admission_row id evidence decision reason actor now)
  bind_validation strict id validation evidence actor now
  result ← gets (λ t. read_admission t id)
  append_audit now "EVIDENCE_ADMISSION_DECIDED" (
      ("admission_id", text id)
      ∷ ("evidence_id", text evidence)
      ∷ ("decision", text decision_text)
      ∷ ("validation_id", optional_text validation)
      ∷ ("actor", text actor)
      ∷ [])
  pure result

abbrev is_valid_binding : Option String → Bool
is_valid_binding none = true
is_valid_binding (some v) = is_plain_identifier v

-- `AdmissionService.decide`
unfoldable pub decide :
    String
    → String
    → String
    → String
    → Option String
    → String
    → String
    → Method AdmissionError AdmissionView
unfolding decide_rows decision_of
decide id evidence decision_text reason validation actor now = do
  require (is_plain_identifier id) (raised invalid_decision)
  require (is_plain_identifier evidence) (raised invalid_decision)
  decision ← or_raise (decision_of decision_text) (raised invalid_decision)
  refuse (is_empty (strip reason)) (raised invalid_decision)
  refuse (is_empty actor) (raised invalid_decision)
  require (is_valid_binding validation) (raised invalid_binding)
  atomic_row invalid_admission admission_unreadable
      (decide_rows id evidence decision_text decision reason validation actor now)
