-- ===== src/Lifecycle/Policies.antt =====
-- What a transition that is accepted has checked, and what it changes.
use vera_mmu.Common.{◌≡◌, String, true, some, text_Eq, arith, ok}
use vera_mmu.Store.{Store}
use vera_mmu.Store.Rows.{
  Event, LifecycleEvent, Policy, StartMode, CompletionMode, require_ready,
  require_ready_for_complete,
}
use vera_mmu.Store.Returns.{Returns-map}
use vera_mmu.Lifecycle.Guards.{ready_result}
use vera_mmu.Store.Answers.{Answers, Answers-require, Answers-or_raise, Answers-atomic_row}
use vera_mmu.Readiness.{evaluate_work_readiness, Readiness}
use vera_mmu.Lifecycle.{event_of, transition}
use vera_mmu.Lifecycle.History.{Adds, transition_rows-Returns}

-- a transition that returns was asked for an event of the catalogue, and has recorded it
pub transition-Answers :
    (id item event_text reason actor now : String) (s : Store)
    → Answers
        (λ a u.
          (event : Event) × (event_of event_text ≡ some event)
          × Adds id item event reason actor now s.tables u)
        (transition id item event_text reason actor now s)
unfolding transition
transition-Answers id item event_text reason actor now s = Answers-require _ _ _ _ λ _.
    Answers-require _ _ _ _ λ _. Answers-or_raise _ _ _ _ λ event known.
      Answers-require _ _ _ _ λ _. Answers-require _ _ _ _ λ _. Answers-atomic_row _ _ _ _ (
        Returns-map (transition_rows-Returns id item event_text event reason actor now s.tables)
          (λ o u (read, adds) a found. (event, known, adds)))

-- Under the policy REQUIRE_READY, a START that is accepted found the item ready: its direct
-- prerequisites completed and its gates passed.
pub start_needs_ready :
    (id item reason actor now : String) (s : Store) (p : Policy StartMode) (a : LifecycleEvent)
    → s.tables.start_policy ≡ some p
    → p.mode ≡ require_ready
    → (transition id item "START" reason actor now s).0 ≡ ok a
    → (r : Readiness) × (evaluate_work_readiness s.tables item ≡ ok r) × (r.ready ≡ true)
unfolding event_of
start_needs_ready id item reason actor now s p a declared mode returned =
    let (event, known, adds) =
      (transition-Answers id item "START" reason actor now s).at a returned in
    ready_result (evaluate_work_readiness s.tables item) (adds.ready_to_start (ground arith))

-- Under the policy REQUIRE_READY_FOR_COMPLETE, a COMPLETE that is accepted found the item ready: its
-- direct prerequisites completed and its gates passed.
pub complete_needs_ready :
    (id item reason actor now : String) (s : Store) (p : Policy CompletionMode) (a : LifecycleEvent)
    → s.tables.completion_policy ≡ some p
    → p.mode ≡ require_ready_for_complete
    → (transition id item "COMPLETE" reason actor now s).0 ≡ ok a
    → (r : Readiness) × (evaluate_work_readiness s.tables item ≡ ok r) × (r.ready ≡ true)
unfolding event_of
complete_needs_ready id item reason actor now s p a declared mode returned =
    let (event, known, adds) =
      (transition-Answers id item "COMPLETE" reason actor now s).at a returned in
    ready_result (evaluate_work_readiness s.tables item) (adds.ready_to_complete (ground arith))
