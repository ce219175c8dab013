-- ===== src/Readiness.antt =====
-- src/vera_mmu/work_readiness.py: whether an item's direct prerequisites are completed and its gates
-- pass. It computes a gate's status by itself, and does not call `GateService.evaluate`.
pub mod Agree
use vera_mmu.Common.{
  ℕ, String, Bool, true, false, Option, none, some, List, [], ◌∷◌, ◌++◌, ◌==◌, ◌&&◌, text_Eq, map,
  find, Result, ok, err, where_rows, count_if, length, leb, ltb, nat_eq, if◌then◌else◌, require,
  ◌>>◌,
}
use vera_mmu.Common.Text.{is_plain_identifier, len}
use vera_mmu.Common.Order.{order_by}
use vera_mmu.Store.{Tables, Store, Method, query, raised, Raised}
use vera_mmu.Store.Rows.{
  Event, start, complete, cancel, Status, planned, active, completed, cancelled, LifecycleEvent,
  Admission, GatePolicy, is_admitted, all_of, any_of, at_least,
}
use vera_mmu.WorkGraph.{has_work_item}
use vera_mmu.Gates.{GateStatus, gate_pass, gate_fail}

-- `STATE_BY_EVENT`
abbrev pub state_by_event : Event → Status
state_by_event start = active
state_by_event complete = completed
state_by_event cancel = cancelled

-- the later of two events, by `sequence`
abbrev newer : LifecycleEvent → Option LifecycleEvent → Option LifecycleEvent
newer e none = some e
newer e (some f) = if ltb f.sequence e.sequence then some e else some f

-- `ORDER BY sequence DESC LIMIT 1`
unfoldable pub newest : List LifecycleEvent → Option LifecycleEvent
newest [] = none
newest (e ∷ es) = newer e (newest es)

unfoldable pub events_of : Tables → String → List LifecycleEvent
events_of t id = where_rows (λ e. e.work_item_id == id) t.lifecycle_events

abbrev pub status_after : Option LifecycleEvent → Status
status_after none = planned
status_after (some e) = state_by_event e.event

-- `_work_status`
unfoldable pub work_status : Tables → String → Status
unfolding newest events_of
work_status t id = status_after (newest (events_of t id))

abbrev pub is_completed : Status → Bool
is_completed completed = true
is_completed _ = false

-- the prerequisites of an item, in the order of `ORDER BY prerequisite_id`
unfoldable pub prerequisites : Tables → String → List String
prerequisites t id =
    order_by (map (λ d. d.prerequisite_id) (where_rows (λ d. d.dependent_id == id) t.dependencies))

-- the gates of an item, in the order of `ORDER BY id`
unfoldable pub gates_of : Tables → String → List String
gates_of t id = order_by (map (λ g. g.id) (where_rows (λ g. g.work_item_id == id) t.gates))

-- `row is not None and row["decision"] == "ADMITTED"`
abbrev pub row_is_admitted : Option Admission → Bool
row_is_admitted (some a) = is_admitted a.decision
row_is_admitted none = false

-- `mode` and `minimum`, of the row of the policy if there is one, and of the number of evidence
abbrev pub minimum_under : Option GatePolicy → ℕ → ℕ
minimum_under none total = total
minimum_under (some p) total = elim p.mode [
  | all_of ↦ total
  | any_of ↦ 1
  | at_least minimum_admissions ↦ minimum_admissions
]

-- `evidence_ids`
unfoldable pub readiness_evidence : Tables → String → List String
readiness_evidence t gate_id =
    map (λ g. g.evidence_id) (where_rows (λ g. g.id == gate_id) t.gates)
    ++ map (λ r. r.evidence_id) (where_rows (λ r. r.gate_id == gate_id) t.gate_requirements)

-- `_gate_status`
unfoldable pub readiness_gate_status : Tables → String → GateStatus
unfolding readiness_evidence
readiness_gate_status t gate_id =
    let evidence_ids = readiness_evidence t gate_id in
    let policy = find (λ (p : GatePolicy). p.gate_id == gate_id) t.gate_policies in
    let minimum = minimum_under policy (length evidence_ids) in
    let admitted =
      count_if
        (λ identifier. row_is_admitted (find (λ a. a.evidence_id == identifier) t.admissions))
        evidence_ids in
    if leb minimum admitted then gate_pass else gate_fail

abbrev pub is_gate_pass : GateStatus → Bool
is_gate_pass gate_pass = true
is_gate_pass gate_fail = false

pub data ReadinessError : Type 0 where
  unknown_item invalid_identifier : ReadinessError

pub record Readiness : Type 0 where
  pub work_item_id : String
  pub ready : Bool
  pub prerequisites_completed : ℕ
  pub prerequisites_total : ℕ
  pub gates_passed : ℕ
  pub gates_total : ℕ

-- `evaluate_work_readiness`
unfoldable pub evaluate_work_readiness : Tables → String → Result ReadinessError Readiness
unfolding has_work_item prerequisites gates_of
evaluate_work_readiness t id =
    let prerequisite_ids = prerequisites t id in
    let done = count_if (λ p. is_completed (work_status t p)) prerequisite_ids in
    let gate_ids = gates_of t id in
    let passed = count_if (λ g. is_gate_pass (readiness_gate_status t g)) gate_ids in
    if has_work_item t id
    then ok (record {
      work_item_id = id;
      ready = nat_eq done (length prerequisite_ids) && nat_eq passed (length gate_ids);
      prerequisites_completed = done;
      prerequisites_total = length prerequisite_ids;
      gates_passed = passed;
      gates_total = length gate_ids;
    })
    else err unknown_item

abbrev raise_with : {E A : Type 0} → Result E A → Result (Raised E) A
raise_with (ok a) = ok a
raise_with (err e) = err (raised e)

-- `WorkReadinessService.evaluate`
unfoldable pub evaluate_readiness : String → Method ReadinessError Readiness
unfolding evaluate_work_readiness
evaluate_readiness id = do
  require (is_plain_identifier id && leb (len id) 256) (raised invalid_identifier)
  query (λ t. raise_with (evaluate_work_readiness t id))
