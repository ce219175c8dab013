-- ===== src/Examples/Work.antt =====
-- Lifecycles and transactions on a small store.
use vera_mmu.Common.{◌≡◌, ◌≢◌, ◌↔◌, refl, true, String, [], ok, text_Eq, some, raise, ◌>>◌}
use vera_mmu.Common.Text.{is_canonical_line}
use vera_mmu.Common.Order.{order_by}
use vera_mmu.Store.{Store, Rows, raised, execute, begin, transaction, append_audit}
use vera_mmu.Store.Rows.{
  start, planned, active, completed, require_ready, require_ready_for_complete,
}
use vera_mmu.Store.Transaction.{transaction_atomic, settle}
use vera_mmu.WorkGraph.{has_work_item}
use vera_mmu.Readiness.{work_status, events_of, newest, evaluate_work_readiness, Readiness}
use vera_mmu.Lifecycle.{
  LifecycleError, invalid_event, transition, event_of, is_identifier, event_is_valid,
}
use vera_mmu.Lifecycle.History.{IsRecorded, transition-IsRecorded}
use vera_mmu.Lifecycle.Policies.{start_needs_ready, complete_needs_ready}
use vera_mmu.Lifecycle.Moves.{transition_moves}
use vera_mmu.GraphConfig.Report.{shows, read_configuration}
use vera_mmu.GraphConfig.Shown.{Makes, transition_is_shown}
use vera_mmu.Examples.{three_items, run}

-- opens a run of `transition` on concrete arguments
run_transition : Unit {0}
unfolding run transition event_of is_identifier event_is_valid is_canonical_line order_by events_of
    newest evaluate_work_readiness has_work_item
run_transition = tt

three_items-IsRecorded : IsRecorded three_items.tables
unfolding run events_of
three_items-IsRecorded item = tt

abbrev started : Store
started = (transition "e1" "a" "START" "go" "system" "t1" three_items).1

abbrev finished : Store
finished = (transition "e2" "a" "COMPLETE" "done" "system" "t2" started).1

started_status : work_status started.tables "a" ≡ active
unfolding run_transition work_status
started_status = refl

finished_status : work_status finished.tables "a" ≡ completed
unfolding run_transition work_status
finished_status = refl

transition-IsRecorded_example : IsRecorded started.tables
transition-IsRecorded_example =
    transition-IsRecorded "e1" "a" "START" "go" "system" "t1" three_items three_items-IsRecorded

transition_moves_example :
    (work_status started.tables "a" ≡ active)
    × ((j : String) → j ≢ "a" → work_status started.tables j ≡ work_status three_items.tables j)
unfolding run_transition
transition_moves_example =
    transition_moves "e1" "a" "START" "go" "system" "t1" start three_items
      (record {
        id = "e1";
        work_item_id = "a";
        sequence = 1;
        event = start;
        reason = "go";
        created_at = "t1";
        created_by = "system";
      })
      three_items-IsRecorded refl refl

-- a planned item is started
transition_is_shown_example :
    (shows (read_configuration true three_items) planned start active ≡ true)
    ↔ Makes planned start active
transition_is_shown_example = transition_is_shown true three_items planned start active

-- the same items under both readiness policies
abbrev strict : Store
strict = record three_items {
  tables = record three_items.tables {
    start_policy = some (record { mode = require_ready; created_at = "t0"; created_by = "system" });
    completion_policy =
        some
          (record { mode = require_ready_for_complete; created_at = "t0"; created_by = "system" });
  };
}

start_needs_ready_example :
    (r : Readiness) × (evaluate_work_readiness strict.tables "a" ≡ ok r) × (r.ready ≡ true)
unfolding run_transition
start_needs_ready_example = start_needs_ready "e1" "a" "go" "system" "t1" strict _ _ refl refl refl

complete_needs_ready_example :
    let s = (transition "e1" "a" "START" "go" "system" "t1" strict).1 in
    (r : Readiness) × (evaluate_work_readiness s.tables "a" ≡ ok r) × (r.ready ≡ true)
unfolding run_transition
complete_needs_ready_example =
    complete_needs_ready "e2" "a" "done" "system" "t2"
      (transition "e1" "a" "START" "go" "system" "t1" strict).1 _ _ refl refl refl

-- a block that raises after it has written
abbrev failing_block : Rows LifecycleError Unit
failing_block = append_audit "t1" "WRITTEN" [] >> raise (raised invalid_event)

transaction_atomic_example :
    let body = execute failing_block in
    let (r, s') = transaction body three_items in
    (r ≡ (body (begin three_items)).0)
    × (s'.saved ≡ three_items.saved)
    × (s'.tables
        ≡ settle three_items.tables
            (body (begin three_items)).0
            (body (begin three_items)).1.tables)
transaction_atomic_example = transaction_atomic (execute failing_block) three_items (λ s. refl)
