-- ===== src/Lifecycle/Moves.antt =====
-- The status of a work item, before and after a transition.
use mathlib.Core.List.{append-nil}
use mathlib.Core.Option.{some-injective}
use vera_mmu.Common.{
  ◌≡◌, ◌≢◌, refl, String, some, List, [], ◌∷◌, ◌++◌, ◌==◌, text_Eq, ==_ne, ==_refl, where_rows,
  arith, subst, sym, ap, ◌∙◌, ok, if◌then◌else◌,
}
use vera_mmu.Store.{Store}
use vera_mmu.Store.Rows.{Event, Status, planned, LifecycleEvent}
use vera_mmu.Readiness.{events_of, newest, status_after, state_by_event, work_status}
use vera_mmu.Lifecycle.{event_of, transition}
use vera_mmu.Lifecycle.History.{
  Follows, run_events, IsRecorded, transition-IsRecorded, newest-IsNewest, events_of-append,
  event_row,
}
use vera_mmu.Lifecycle.Policies.{transition-Answers}

run_events-append :
    (s : Status) (es : List LifecycleEvent) (e : LifecycleEvent)
    → run_events s (es ++ e ∷ []) ≡ state_by_event e.event
run_events-append s [] e = refl
run_events-append s (f ∷ es) e = run_events-append (state_by_event f.event) es e

-- the event that was added is the newest one
status-Follows :
    (es : List LifecycleEvent)
    → Follows 1 planned es
    → status_after (newest es) ≡ run_events planned es
status-Follows es h = let n = newest-IsNewest 1 planned es h in ground (arith, n.status)

status-append :
    (es : List LifecycleEvent) (e : LifecycleEvent)
    → Follows 1 planned (es ++ e ∷ [])
    → status_after (newest (es ++ e ∷ [])) ≡ state_by_event e.event
status-append es e h = status-Follows (es ++ e ∷ []) h ∙ run_events-append planned es e

-- A transition that is accepted moves its item to the state of the event, and leaves the status of
-- every other item as it was.
pub transition_moves :
    (id item event_text reason actor now : String) (event : Event) (s : Store) (a : LifecycleEvent)
    → IsRecorded s.tables
    → event_of event_text ≡ some event
    → (transition id item event_text reason actor now s).0 ≡ ok a
    → (work_status (transition id item event_text reason actor now s).1.tables item
        ≡ state_by_event event)
      × ((j : String)
          → j ≢ item
          → work_status (transition id item event_text reason actor now s).1.tables j
            ≡ work_status s.tables j)
unfolding work_status events_of
transition_moves id item event_text reason actor now event s a h named returned =
    let (event', known, adds) =
      (transition-Answers id item event_text reason actor now s).at a returned in
    let after = transition-IsRecorded id item event_text reason actor now s h in
    let e = event_row id item event' reason actor now (newest (events_of s.tables item)) in
    let split = λ (j : String).
      ap (where_rows (λ (f : LifecycleEvent). f.work_item_id == j)) adds.recorded
      ∙ events_of-append s.tables.lifecycle_events e j in
    let mine =
      split item ∙ ap (λ b. events_of s.tables item ++ (if b then e ∷ [] else [])) (==_refl item) in
    (
      ap (λ es. status_after (newest es)) mine
          ∙ status-append (events_of s.tables item) e (subst (Follows 1 planned) mine (after item))
          ∙ ap state_by_event (some-injective _ _ (sym known ∙ named)),
      λ j ne.
          ap (λ es. status_after (newest es))
            (split j
              ∙ ap (λ b. events_of s.tables j ++ (if b then e ∷ [] else []))
                  (==_ne item j (λ q. ne (sym q)))
              ∙ append-nil (events_of s.tables j)),
    )
