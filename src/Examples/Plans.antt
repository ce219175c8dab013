-- ===== src/Examples/Plans.antt =====
-- Successions, work items and blockers on small stores.
use vera_mmu.Common.{◌≡◌, refl, true, [], ◌∷◌, ok, none, some, all, text_Eq}
use vera_mmu.Common.Text.{is_canonical_text, is_plain_identifier}
use vera_mmu.Common.Order.{order_by}
use vera_mmu.Common.Int.{pos}
use vera_mmu.Graph.Acyclic.{nil-IsAcyclic}
use vera_mmu.Graph.{closure}
use vera_mmu.Store.{Store}
use vera_mmu.WorkGraph.{has_work_item}
use vera_mmu.Readiness.{
  Readiness, evaluate_work_readiness, work_status, events_of, newest, prerequisites, gates_of,
}
use vera_mmu.Addressing.{is_address_of}
use vera_mmu.Supersession.{supersede, succession, link_is_valid, read_link, require_knowledge_id}
use vera_mmu.Supersession.Lines.{HasLines, supersede-HasLines}
use vera_mmu.Chain.Platform.{no_members}
use vera_mmu.WorkItems.{create, NewItem}
use vera_mmu.WorkItems.Forest.{IsForest, create-IsForest}
use vera_mmu.Blockers.{report, gate_blockers, transitive_blockers}
use vera_mmu.Blockers.Ready.{ready_report}
use vera_mmu.Blockers.Exact.{identifiers, transitive_blockers_exact}
use vera_mmu.Graph.Reach.{Reach}
use vera_mmu.Readiness.{is_completed, work_status}
use vera_mmu.WorkGraph.{add_dependency, dependency_edges, dependency_is_valid}
use vera_mmu.Graph.{closure}
use vera_mmu.Common.{◌↔◌, contains, false}
use vera_mmu.Examples.{three_items, store_of, empty_tables, run}
use vera_mmu.Examples.Chain.{platform}

abbrev learned : Store
learned = store_of (record empty_tables { knowledge = "k1" ∷ "k2" ∷ [] })

learned-HasLines : HasLines learned.tables
unfolding succession
learned-HasLines = record { acyclic = nil-IsAcyclic; lines = tt }

abbrev replaced : Store
replaced = (supersede "k1" "k2" "system" "t1" learned).1

one_link : succession replaced.tables ≡ ("k1", "k2") ∷ []
unfolding run supersede succession link_is_valid read_link require_knowledge_id is_address_of all
    closure is_canonical_text
one_link = refl

supersede-HasLines_example : HasLines replaced.tables
supersede-HasLines_example = supersede-HasLines "k1" "k2" "system" "t1" learned learned-HasLines

abbrev task : NewItem
task = record {
  id = "task";
  item_type = "WORK_ITEM";
  title = "Task";
  description = "";
  priority = some (pos 3);
  parent_id = none;
  assignee = none;
  metadata = no_members;
}

create-IsForest_example :
    IsForest (create platform task "system" "t1" (store_of empty_tables)).1.tables
create-IsForest_example = create-IsForest platform task "system" "t1" (store_of empty_tables) tt

run_report : Unit {0}
unfolding run report gate_blockers transitive_blockers is_plain_identifier has_work_item
    prerequisites gates_of order_by work_status events_of newest evaluate_work_readiness
run_report = tt

ready_report_example :
    (q : Readiness) × (evaluate_work_readiness three_items.tables "a" ≡ ok q) × (q.ready ≡ true)
unfolding run_report
ready_report_example = ready_report "a" three_items _ refl refl

-- the work graph of three items, the last one open
abbrev planned_items : Store
planned_items =
    (add_dependency "b" "c" "system" "t2" (add_dependency "a" "b" "system" "t1" three_items).1).1

transitive_blockers_exact_example :
    (contains (identifiers (transitive_blockers planned_items.tables "a")) "c" ≡ true) ↔ (
      Reach (dependency_edges planned_items.tables) "a" "c"
      × (is_completed (work_status planned_items.tables "c") ≡ false))
transitive_blockers_exact_example = transitive_blockers_exact planned_items.tables "a" "c"

two_blockers : identifiers (transitive_blockers planned_items.tables "a") ≡ "b" ∷ "c" ∷ []
unfolding run_report add_dependency dependency_edges dependency_is_valid closure
two_blockers = refl
