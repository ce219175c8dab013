-- ===== src/Lifecycle.antt =====
-- src/vera_mmu/work_lifecycle.py: the closed state machine of a work item, as an append-only history of events.
mod Guards
pub mod History
pub mod Policies
pub mod Moves
use vera_mmu.Common.{
  ℕ, suc, ◌+◌, String, Bool, true, false, not, Option, none, some, List, [], ◌∷◌, ◌++◌, ◌==◌, ◌&&◌,
  ◌||◌, text_Eq, Result, ok, err, find, any, leb, ltb, nat_eq, if◌then◌else◌, is_some, pure, gets,
  require, refuse, or_raise, raise, ◌>>=◌, ◌>>◌,
}
use vera_mmu.Common.Text.{is_plain_identifier, is_canonical_line, len}
use vera_mmu.Store.{
  Tables, Store, Method, Rows, raised, atomic_row, append_audit, insert, has_length, query, Raised,
}
use vera_mmu.Store.Rows.{
  Event, start, complete, cancel, Status, planned, active, completed, cancelled, LifecycleEvent,
  Policy, StartMode, open_start, require_ready, CompletionMode, open_completion,
  require_ready_for_complete, Value, text,
}
use vera_mmu.WorkGraph.{has_work_item}
use vera_mmu.Readiness.{
  events_of, newest, status_after, evaluate_work_readiness, Readiness, ReadinessError,
}

pub data LifecycleError : Type 0 where
  invalid_event_id invalid_item_id unknown_event invalid_reason invalid_actor : LifecycleError
  unknown_item forbidden_transition not_ready_to_start not_ready_to_complete : LifecycleError
  readiness_unreadable invalid_event event_unreadable : LifecycleError

-- the keys of `STATE_BY_EVENT`
unfoldable pub event_of : String → Option Event
event_of s =
    if s == "START"
    then some start
    else if s == "COMPLETE"
    then some complete
    else if s == "CANCEL"
    then some cancel
    else none

-- `event in ALLOWED_EVENTS.get(status, frozenset())`
abbrev pub is_allowed : Status → Event → Bool
is_allowed planned start = true
is_allowed planned complete = false
is_allowed planned cancel = true
is_allowed active start = false
is_allowed active complete = true
is_allowed active cancel = true
is_allowed completed _ = false
is_allowed cancelled _ = false

-- `event == "START" and policy is not None and policy["mode"] == "REQUIRE_READY"`
abbrev pub start_is_guarded : Event → Option (Policy StartMode) → Bool
start_is_guarded start none = false
start_is_guarded start (some p) = elim p.mode [ open_start ↦ false | require_ready ↦ true ]
start_is_guarded complete _ = false
start_is_guarded cancel _ = false

abbrev pub completion_is_guarded : Event → Option (Policy CompletionMode) → Bool
completion_is_guarded complete none = false
completion_is_guarded complete (some p) = elim p.mode [
  | open_completion ↦ false
  | require_ready_for_complete ↦ true
]
completion_is_guarded start _ = false
completion_is_guarded cancel _ = false

-- the readiness test behind each policy
unfoldable pub demand_ready :
    LifecycleError → Result ReadinessError Readiness → Rows LifecycleError Unit
demand_ready e (ok r) = require r.ready (raised e)
demand_ready e (err _) = raise (raised readiness_unreadable)

unfoldable pub when : {E : Type 0} → Bool → Rows E Unit → Rows E Unit
when true m = m
when false m = pure tt

abbrev pub next_sequence : Option LifecycleEvent → ℕ
next_sequence none = 1
next_sequence (some e) = e.sequence + 1

-- the constraints of `work_lifecycle_event`
unfoldable pub event_is_valid : Tables → LifecycleEvent → Bool
unfolding has_work_item has_length
event_is_valid t e =
    has_length 1 256 e.id
    && not (is_some (find (λ f. f.id == e.id) t.lifecycle_events))
    && has_work_item t e.work_item_id
    && leb 1 e.sequence
    && has_length 1 4096 e.reason
    && has_length 1 256 e.created_by
    && not (
        any (λ f. f.work_item_id == e.work_item_id && nat_eq f.sequence e.sequence)
          t.lifecycle_events)

unfoldable pub insert_event : {E : Type 0} → LifecycleEvent → Rows E Unit
insert_event e =
    insert (λ t. event_is_valid t e)
      (λ t. record t { lifecycle_events = t.lifecycle_events ++ e ∷ [] })

-- the block of `transition`
unfoldable pub transition_rows :
    String
    → String
    → String
    → Event
    → String
    → String
    → String
    → Rows LifecycleError (Option LifecycleEvent)
unfolding insert_event demand_ready when
transition_rows id item event_text event reason actor now = do
  known ← gets (λ t. has_work_item t item)
  require known (raised unknown_item)
  last ← gets (λ t. newest (events_of t item))
  require (is_allowed (status_after last) event) (raised forbidden_transition)
  policy ← gets (λ t. t.start_policy)
  readiness ← gets (λ t. evaluate_work_readiness t item)
  when (start_is_guarded event policy) (demand_ready not_ready_to_start readiness)
  completion_policy ← gets (λ t. t.completion_policy)
  when (completion_is_guarded event completion_policy)
      (demand_ready not_ready_to_complete readiness)
  insert_event (record {
    id = id;
    work_item_id = item;
    sequence = next_sequence last;
    event = event;
    reason = reason;
    created_at = now;
    created_by = actor;
  })
  row ← gets (λ t. find (λ e. e.id == id) t.lifecycle_events)
  append_audit now "WORK_LIFECYCLE_EVENT_RECORDED" (
      ("event_id", text id)
      ∷ ("work_item_id", text item)
      ∷ ("event", text event_text)
      ∷ ("actor", text actor)
      ∷ [])
  pure row

-- `_require_identifier`
unfoldable pub is_identifier : String → Bool
unfolding is_plain_identifier
is_identifier s = is_plain_identifier s && leb (len s) 256

unfoldable pub transition :
    String → String → String → String → String → String → Method LifecycleError LifecycleEvent
unfolding transition_rows event_of is_identifier
transition id item event_text reason actor now = do
  require (is_identifier id) (raised invalid_event_id)
  require (is_identifier item) (raised invalid_item_id)
  event ← or_raise (event_of event_text) (raised unknown_event)
  require (is_canonical_line 4096 reason) (raised invalid_reason)
  require (is_canonical_line 256 actor) (raised invalid_actor)
  atomic_row invalid_event event_unreadable
      (transition_rows id item event_text event reason actor now)

pub record LifecycleState : Type 0 where
  pub work_item_id : String
  pub status : Status
  pub last_event_id : Option String

abbrev event_id : Option LifecycleEvent → Option String
event_id none = none
event_id (some e) = some e.id

unfoldable pub get_state : String → Method LifecycleError LifecycleState
unfolding events_of newest is_identifier
get_state item = do
  require (is_identifier item) (raised invalid_item_id)
  known ← gets (λ s. has_work_item s.tables item)
  require known (raised unknown_item)
  last ← gets (λ s. newest (events_of s.tables item))
  pure (record { work_item_id = item; status = status_after last; last_event_id = event_id last })

-- `ORDER BY sequence`
unfoldable pub insert_by_sequence : LifecycleEvent → List LifecycleEvent → List LifecycleEvent
insert_by_sequence e [] = e ∷ []
insert_by_sequence e (f ∷ fs) =
    let rest = insert_by_sequence e fs in if leb e.sequence f.sequence then e ∷ f ∷ fs else f ∷ rest

unfoldable pub order_by_sequence : List LifecycleEvent → List LifecycleEvent
unfolding insert_by_sequence
order_by_sequence [] = []
order_by_sequence (e ∷ es) = insert_by_sequence e (order_by_sequence es)

unfoldable pub history : String → Method LifecycleError (List LifecycleEvent)
unfolding events_of order_by_sequence is_identifier
history item = do
  require (is_identifier item) (raised invalid_item_id)
  known ← gets (λ s. has_work_item s.tables item)
  require known (raised unknown_item)
  gets (λ s. order_by_sequence (events_of s.tables item))
