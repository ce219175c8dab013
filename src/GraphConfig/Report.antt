-- ===== src/GraphConfig/Report.antt =====
-- `read_work_graph_configuration`: the closed lifecycle as it is shown, and the transition policies.
use vera_mmu.Common.{
  String, Bool, ◌&&◌, ◌==◌, text_Eq, List, [], ◌∷◌, ◌++◌, Result, ok, err, map, where_rows, any,
}
use vera_mmu.Store.{Store, Raised}
use vera_mmu.Store.Rows.{
  Status, planned, active, completed, cancelled, Event, start, complete, cancel, Policy, StartMode,
  open_start, require_ready, CompletionMode, open_completion, require_ready_for_complete,
}
use vera_mmu.Readiness.{state_by_event}
use vera_mmu.Policies.{PolicyError, get_in, start_table, completion_table}
use vera_mmu.Lifecycle.{is_allowed}

abbrev pub state_name : Status → String
state_name planned = "PLANNED"
state_name active = "ACTIVE"
state_name completed = "COMPLETED"
state_name cancelled = "CANCELLED"

abbrev pub event_name : Event → String
event_name start = "START"
event_name complete = "COMPLETE"
event_name cancel = "CANCEL"

abbrev start_mode_name : StartMode → String
start_mode_name open_start = "OPEN"
start_mode_name require_ready = "REQUIRE_READY"

abbrev completion_mode_name : CompletionMode → String
completion_mode_name open_completion = "OPEN"
completion_mode_name require_ready_for_complete = "REQUIRE_READY_FOR_COMPLETE"

pub record Move : Type 0 where
  pub from_state : String
  pub event : String
  pub to_state : String

-- a policy that is declared, or the fact that there is none
pub data PolicyState : Type 0 where
  not_declared : List String → PolicyState
  declared : String → String → String → List String → PolicyState

pub record GraphReport : Type 0 where
  pub enabled : Bool
  pub states : List String
  pub initial_state : String
  pub transitions : List Move
  pub start_policy : PolicyState
  pub completion_policy : PolicyState

-- `_policy_state`
abbrev policy_state :
    {M : Type 0} → (M → String) → List String → Result (Raised PolicyError) (Policy M) → PolicyState
policy_state name modes (ok p) = declared (name p.mode) p.created_at p.created_by modes
policy_state name modes (err e) = not_declared modes

abbrev move_of : Status → Event → Move
move_of s e = record {
  from_state = state_name s;
  event = event_name e;
  to_state = state_name (state_by_event e);
}

-- the moves from one state, by the names of their events
abbrev moves_from : Status → List Move
moves_from s = map (move_of s) (where_rows (is_allowed s) (cancel ∷ complete ∷ start ∷ []))

-- by the names of their first states, then of their events
abbrev pub sorted_moves : List Move
sorted_moves =
    moves_from active ++ moves_from cancelled ++ moves_from completed ++ moves_from planned

-- Whether the profile enables the work graph is the argument `enabled`.
unfoldable pub read_configuration : Bool → Store → GraphReport
unfolding get_in where_rows
read_configuration enabled s = record {
  enabled = enabled;
  states = map state_name (active ∷ cancelled ∷ completed ∷ planned ∷ []);
  initial_state = state_name planned;
  transitions = sorted_moves;
  start_policy =
      policy_state start_mode_name ("OPEN" ∷ "REQUIRE_READY" ∷ []) (get_in start_table s).0;
  completion_policy =
      policy_state completion_mode_name ("OPEN" ∷ "REQUIRE_READY_FOR_COMPLETE" ∷ [])
        (get_in completion_table s).0;
}

unfoldable pub shows : GraphReport → Status → Event → Status → Bool
unfolding any
shows r from event to =
    any
      (λ (m : Move).
        m.from_state == state_name from
        && m.event == event_name event
        && m.to_state == state_name to)
      r.transitions
