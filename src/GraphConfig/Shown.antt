-- ===== src/GraphConfig/Shown.antt =====
-- The transitions that the report of src/vera_mmu/work_graph_config.py shows are those that `transition` of
-- src/vera_mmu/work_lifecycle.py makes.
use mathlib.Core.Option.{some-injective}
use vera_mmu.Common.{
  ◌≡◌, ◌↔◌, ◌∙◌, refl, sym, subst, String, Bool, true, some, ok, any, where_rows, text_Eq,
}
use vera_mmu.Common.Text.{is_canonical_line}
use vera_mmu.Common.Order.{order_by}
use vera_mmu.Store.{Store}
use vera_mmu.Store.Rows.{
  Status, planned, active, completed, cancelled, Event, start, complete, cancel, LifecycleEvent,
}
use vera_mmu.WorkGraph.{has_work_item}
use vera_mmu.Readiness.{state_by_event, work_status, events_of, newest, evaluate_work_readiness}
use vera_mmu.Lifecycle.{is_allowed, transition, event_of, is_identifier, event_is_valid}
use vera_mmu.Lifecycle.History.{IsRecorded, transition-IsRecorded}
use vera_mmu.Lifecycle.Policies.{transition-Answers}
use vera_mmu.Lifecycle.Moves.{transition_moves}
use vera_mmu.GraphConfig.Report.{shows, read_configuration}
use vera_mmu.Examples.{three_items, run}

-- In some store with well-formed histories, some accepted call of `transition` moves its item from one
-- state to the other by the event.
pub record Makes (from : Status) (event : Event) (to : Status) : Type 0 where
  id : String
  item : String
  event_text : String
  reason : String
  actor : String
  now : String
  before : Store
  row : LifecycleEvent
  recorded : IsRecorded before.tables
  names : event_of event_text ≡ some event
  accepted : (transition id item event_text reason actor now before).0 ≡ ok row
  starts : work_status before.tables item ≡ from
  ends : work_status (transition id item event_text reason actor now before).1.tables item ≡ to

-- opens a run of `transition` on concrete arguments
run_moves : Unit {0}
unfolding run transition event_of is_identifier event_is_valid is_canonical_line order_by events_of
    newest evaluate_work_readiness has_work_item work_status
run_moves = tt

planned-IsRecorded : IsRecorded three_items.tables
unfolding run events_of
planned-IsRecorded item = tt

-- the store once the item "a" is started
abbrev started : Store
started = (transition "e1" "a" "START" "go" "system" "t1" three_items).1

started-IsRecorded : IsRecorded started.tables
started-IsRecorded =
    transition-IsRecorded "e1" "a" "START" "go" "system" "t1" three_items planned-IsRecorded

-- the first two events of the item "a"
abbrev first_row : Event → LifecycleEvent
first_row event = record {
  id = "e1";
  work_item_id = "a";
  sequence = 1;
  event = event;
  reason = "go";
  created_at = "t1";
  created_by = "system";
}

abbrev second_row : Event → LifecycleEvent
second_row event = record {
  id = "e2";
  work_item_id = "a";
  sequence = 2;
  event = event;
  reason = "go";
  created_at = "t2";
  created_by = "system";
}

Makes-first :
    (event_text : String) (event : Event)
    → event_of event_text ≡ some event
    → (transition "e1" "a" event_text "go" "system" "t1" three_items).0 ≡ ok (first_row event)
    → Makes planned event (state_by_event event)
unfolding run_moves
Makes-first event_text event named returned = record {
  id = "e1";
  item = "a";
  event_text = event_text;
  reason = "go";
  actor = "system";
  now = "t1";
  before = three_items;
  row = first_row event;
  recorded = planned-IsRecorded;
  names = named;
  accepted = returned;
  starts = refl;
  ends =
      (transition_moves "e1" "a" event_text "go" "system" "t1" event three_items (first_row event)
        planned-IsRecorded named returned).0;
}

Makes-second :
    (event_text : String) (event : Event)
    → event_of event_text ≡ some event
    → (transition "e2" "a" event_text "go" "system" "t2" started).0 ≡ ok (second_row event)
    → Makes active event (state_by_event event)
unfolding run_moves
Makes-second event_text event named returned = record {
  id = "e2";
  item = "a";
  event_text = event_text;
  reason = "go";
  actor = "system";
  now = "t2";
  before = started;
  row = second_row event;
  recorded = started-IsRecorded;
  names = named;
  accepted = returned;
  starts = refl;
  ends =
      (transition_moves "e2" "a" event_text "go" "system" "t2" event started (second_row event)
        started-IsRecorded named returned).0;
}

shown-Makes :
    (enabled : Bool) (s : Store) (from : Status) (event : Event) (to : Status)
    → shows (read_configuration enabled s) from event to ≡ true
    → Makes from event to
unfolding shows read_configuration any where_rows run_moves
shown-Makes enabled s planned start active h = Makes-first "START" start refl refl
shown-Makes enabled s planned cancel cancelled h = Makes-first "CANCEL" cancel refl refl
shown-Makes enabled s active complete completed h = Makes-second "COMPLETE" complete refl refl
shown-Makes enabled s active cancel cancelled h = Makes-second "CANCEL" cancel refl refl
shown-Makes enabled s _ _ _ h = cc

allowed-shown :
    (enabled : Bool) (s : Store) (from : Status) (event : Event)
    → is_allowed from event ≡ true
    → shows (read_configuration enabled s) from event (state_by_event event) ≡ true
unfolding shows read_configuration any where_rows
allowed-shown enabled s planned start h = refl
allowed-shown enabled s planned cancel h = refl
allowed-shown enabled s active complete h = refl
allowed-shown enabled s active cancel h = refl
allowed-shown enabled s _ _ h = cc

-- The report shows a transition exactly when the engine makes it: when, in some store with well-formed
-- histories, an accepted call of `transition` moves its item from the one state to the other by that
-- event. Whether the profile enables the work graph, and the store that is read, do not matter.
pub transition_is_shown :
    (enabled : Bool) (s : Store) (from : Status) (event : Event) (to : Status)
    → (shows (read_configuration enabled s) from event to ≡ true) ↔ Makes from event to
unfolding work_status
transition_is_shown enabled s from event to = (
  shown-Makes enabled s from event to,
  λ m.
      let (event', known, adds) =
        (transition-Answers m.id m.item m.event_text m.reason m.actor m.now m.before).at m.row
          m.accepted in
      let moved =
        (transition_moves m.id m.item m.event_text m.reason m.actor m.now event m.before m.row
          m.recorded m.names m.accepted).0 in
      let same = some-injective _ _ (sym known ∙ m.names) in
      let allowed : is_allowed (work_status m.before.tables m.item) event ≡ true =
        subst (λ e. is_allowed (work_status m.before.tables m.item) e ≡ true) same adds.allowed in
      subst (λ q. shows (read_configuration enabled s) from event q ≡ true) (sym moved ∙ m.ends)
        (allowed-shown enabled s from event
          (subst (λ q. is_allowed q event ≡ true) m.starts allowed)),
)
