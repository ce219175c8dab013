-- ===== src/Gates/Declare.antt =====
-- The writes of `GateService`: declaring a gate with its requirements, one more requirement, and the
-- policy that freezes them.
use vera_mmu.Common.{
  ℕ, String, Bool, false, Option, none, some, List, [], ◌∷◌, ◌++◌, ◌==◌, ◌&&◌, ◌||◌, not, text_Eq,
  Result, ok, err, find, any, all, length, leb, contains, if◌then◌else◌, is_some, pure, gets,
  require, refuse, or_raise, ◌>>=◌, ◌>>◌,
}
use vera_mmu.Common.Text.{is_empty, is_stripped, is_plain_identifier, is_canonical_text}
use vera_mmu.Store.{
  Tables, Method, Rows, raised, atomic, atomic_row, append_audit, insert, has_length,
}
use vera_mmu.Store.Rows.{
  Gate, GateRequirement, GatePolicy, GateMode, all_of, any_of, at_least, Value, text, number, null,
}
use vera_mmu.WorkGraph.{
  GateError, has_work_item, unknown_endpoint, invalid_gate, invalid_gate_id, invalid_endpoint,
  invalid_requirements, duplicate_requirements, unknown_work_item, unknown_evidence,
  invalid_structure, unknown_requirement, requirements_frozen, primary_already_required,
  invalid_requirement, unknown_mode, invalid_actor, gate_not_found, threshold_forbidden,
  threshold_out_of_bounds, invalid_policy, policy_unreadable, policy_not_found,
}
use vera_mmu.Gates.{requirements}

-- `SELECT 1 FROM evidence WHERE id = ?` has a row
unfoldable pub has_evidence : Tables → String → Bool
has_evidence t id = is_some (find (λ e. e.id == id) t.evidence)

unfoldable pub find_gate : Tables → String → Option Gate
find_gate t id = find (λ g. g.id == id) t.gates

-- the constraints of `admission_gate`
unfoldable pub gate_is_valid : Tables → Gate → Bool
unfolding has_work_item has_evidence has_length find_gate
gate_is_valid t g =
    has_length 1 256 g.id
    && not (is_some (find_gate t g.id))
    && has_work_item t g.work_item_id
    && has_evidence t g.evidence_id
    && not (any (λ r. r.work_item_id == g.work_item_id && r.evidence_id == g.evidence_id) t.gates)
    && has_length 1 256 g.created_by

unfoldable pub insert_gate : {E : Type 0} → Gate → Rows E Unit
insert_gate g = insert (λ t. gate_is_valid t g) (λ t. record t { gates = t.gates ++ g ∷ [] })

-- the constraints of `admission_gate_requirement`
unfoldable pub requirement_is_valid : Tables → GateRequirement → Bool
unfolding has_evidence has_length find_gate
requirement_is_valid t r =
    is_some (find_gate t r.gate_id)
    && has_evidence t r.evidence_id
    && not (any (λ q. q.gate_id == r.gate_id && q.evidence_id == r.evidence_id) t.gate_requirements)
    && has_length 1 256 r.created_by

unfoldable pub insert_requirement : {E : Type 0} → GateRequirement → Rows E Unit
insert_requirement r =
    insert (λ t. requirement_is_valid t r)
      (λ t. record t { gate_requirements = t.gate_requirements ++ r ∷ [] })

-- the block of `declare`
unfoldable pub declare_rows : String → String → String → String → String → Rows GateError Unit
unfolding insert_gate
declare_rows id work_item evidence actor now = do
  known ← gets (λ t. has_work_item t work_item && has_evidence t evidence)
  require known (raised unknown_endpoint)
  insert_gate (record {
    id = id;
    work_item_id = work_item;
    evidence_id = evidence;
    created_at = now;
    created_by = actor;
  })
  append_audit now "ADMISSION_GATE_DECLARED" (("gate_id", text id) ∷ ("actor", text actor) ∷ [])

unfoldable pub declare : String → String → String → String → String → Method GateError Unit
unfolding declare_rows
declare id work_item evidence actor now =
    atomic invalid_gate (declare_rows id work_item evidence actor now)

abbrev requirement_row : String → String → String → String → GateRequirement
requirement_row gate_id actor now evidence = record {
  gate_id = gate_id;
  evidence_id = evidence;
  created_at = now;
  created_by = actor;
}

-- `executemany` of the requirements
unfoldable pub insert_requirements :
    {E : Type 0} → String → String → String → List String → Rows E Unit
unfolding insert_requirement
insert_requirements gate_id actor now [] = pure tt
insert_requirements gate_id actor now (v ∷ vs) = do
  insert_requirement (requirement_row gate_id actor now v)
  insert_requirements gate_id actor now vs

abbrev requirement_payload : String → String → String → List (String × Value)
requirement_payload gate_id actor evidence =
    ("gate_id", text gate_id) ∷ ("evidence_id", text evidence) ∷ ("actor", text actor) ∷ []

unfoldable pub audit_requirements :
    {E : Type 0} → String → String → String → List String → Rows E Unit
audit_requirements gate_id actor now [] = pure tt
audit_requirements gate_id actor now (v ∷ vs) = do
  append_audit now "ADMISSION_GATE_REQUIREMENT_ADDED" (requirement_payload gate_id actor v)
  audit_requirements gate_id actor now vs

-- `len(values) != len(set(values))`
unfoldable pub has_duplicates : List String → Bool
unfolding contains
has_duplicates [] = false
has_duplicates (v ∷ vs) = contains vs v || has_duplicates vs

-- the block of `declare_with_requirements`
unfoldable pub declare_with_requirements_rows :
    String → String → String → List String → String → String → Rows GateError Unit
unfolding insert_gate insert_requirements audit_requirements
declare_with_requirements_rows id work_item evidence required actor now = do
  known ← gets (λ t. has_work_item t work_item)
  require known (raised unknown_work_item)
  recorded ← gets (λ t. all (has_evidence t) (evidence ∷ required))
  require recorded (raised unknown_evidence)
  insert_gate (record {
    id = id;
    work_item_id = work_item;
    evidence_id = evidence;
    created_at = now;
    created_by = actor;
  })
  insert_requirements id actor now required
  append_audit now "ADMISSION_GATE_DECLARED" (("gate_id", text id) ∷ ("actor", text actor) ∷ [])
  audit_requirements id actor now required

unfoldable pub declare_with_requirements :
    String → String → String → List String → String → String → Method GateError Unit
unfolding declare_with_requirements_rows
declare_with_requirements id work_item evidence required actor now = do
  require (is_plain_identifier id && is_stripped id) (raised invalid_gate_id)
  refuse (is_empty work_item || is_empty evidence) (raised invalid_endpoint)
  refuse (any is_empty required) (raised invalid_requirements)
  refuse (contains required evidence || has_duplicates required) (raised duplicate_requirements)
  atomic invalid_structure (declare_with_requirements_rows id work_item evidence required actor now)

-- the block of `add_requirement`
unfoldable pub add_requirement_rows : String → String → String → String → Rows GateError Unit
unfolding insert_requirement
add_requirement_rows gate_id evidence actor now = do
  found ← gets (λ t. find_gate t gate_id)
  gate ← or_raise found (raised unknown_requirement)
  recorded ← gets (λ t. has_evidence t evidence)
  require recorded (raised unknown_requirement)
  frozen ← gets (λ t. is_some (find (λ p. p.gate_id == gate_id) t.gate_policies))
  refuse frozen (raised requirements_frozen)
  refuse (gate.evidence_id == evidence) (raised primary_already_required)
  insert_requirement (requirement_row gate_id actor now evidence)
  append_audit now "ADMISSION_GATE_REQUIREMENT_ADDED" (requirement_payload gate_id actor evidence)

unfoldable pub add_requirement : String → String → String → String → Method GateError Unit
unfolding add_requirement_rows
add_requirement gate_id evidence actor now =
    atomic invalid_requirement (add_requirement_rows gate_id evidence actor now)

-- `GATE_POLICY_MODES`
pub data ModeName : Type 0 where
  all_mode any_mode at_least_mode : ModeName

unfoldable pub mode_name : String → Option ModeName
mode_name s =
    if s == "ALL"
    then some all_mode
    else if s == "ANY"
    then some any_mode
    else if s == "AT_LEAST"
    then some at_least_mode
    else none

-- the two tests on the threshold, for a gate with so many requirements
unfoldable pub threshold : ModeName → Option ℕ → ℕ → Result GateError GateMode
threshold all_mode none required = ok all_of
threshold all_mode (some k) required = err threshold_forbidden
threshold any_mode none required = ok any_of
threshold any_mode (some k) required = err threshold_forbidden
threshold at_least_mode none required = err threshold_out_of_bounds
threshold at_least_mode (some k) required =
    if leb 1 k && leb k required then ok (at_least k) else err threshold_out_of_bounds

unfoldable pub or_raised : {E A : Type 0} → Result E A → Rows E A
or_raised (ok a) t = (ok a, t)
or_raised (err e) t = (err (raised e), t)

unfoldable pub find_policy : Tables → String → Option GatePolicy
find_policy t gate_id = find (λ p. p.gate_id == gate_id) t.gate_policies

-- the constraints of `admission_gate_policy`
unfoldable pub policy_is_valid : Tables → GatePolicy → Bool
unfolding find_policy find_gate has_length
policy_is_valid t p =
    not (is_some (find_policy t p.gate_id))
    && is_some (find_gate t p.gate_id)
    && has_length 1 256 p.created_by

unfoldable pub insert_policy : {E : Type 0} → GatePolicy → Rows E Unit
insert_policy p =
    insert (λ t. policy_is_valid t p) (λ t. record t { gate_policies = t.gate_policies ++ p ∷ [] })

abbrev minimum_value : GateMode → Value
minimum_value (at_least k) = number k
minimum_value _ = null

-- the block of `declare_policy`; an empty list of requirements means that there is no such gate
unfoldable pub declare_policy_rows :
    String → String → ModeName → Option ℕ → String → String → Rows GateError (Option GatePolicy)
unfolding insert_policy threshold find_policy
declare_policy_rows gate_id mode_text name minimum actor now = do
  required ← gets (λ t. length (requirements t gate_id))
  require (leb 1 required) (raised gate_not_found)
  mode ← or_raised (threshold name minimum required)
  insert_policy (record { gate_id = gate_id; mode = mode; created_at = now; created_by = actor })
  row ← gets (λ t. find_policy t gate_id)
  append_audit now "ADMISSION_GATE_POLICY_DECLARED" (
      ("gate_id", text gate_id)
      ∷ ("mode", text mode_text)
      ∷ ("minimum_admissions", minimum_value mode)
      ∷ ("actor", text actor)
      ∷ [])
  pure row

unfoldable pub declare_policy :
    String → String → Option ℕ → String → String → Method GateError GatePolicy
unfolding declare_policy_rows mode_name
declare_policy gate_id mode_text minimum actor now = do
  require (is_plain_identifier gate_id) (raised invalid_gate_id)
  name ← or_raise (mode_name mode_text) (raised unknown_mode)
  require (is_canonical_text 256 actor) (raised invalid_actor)
  atomic_row invalid_policy policy_unreadable
      (declare_policy_rows gate_id mode_text name minimum actor now)

unfoldable pub get_policy : String → Method GateError GatePolicy
get_policy gate_id = do
  require (is_plain_identifier gate_id) (raised invalid_gate_id)
  row ← gets (λ s. find_policy s.tables gate_id)
  or_raise row (raised policy_not_found)
