-- ===== src/Lifecycle/History.antt =====
-- Every item's history follows the state machine, with sequence numbers 1, 2, … without a gap.
use vera_mmu.Common.{
  pure, ℕ, suc, ◌+◌, ◌≡◌, refl, inl, inr, String, true, Option, none, some, List, [], ◌∷◌, ◌++◌,
  ◌==◌, text_Eq, text_iff, length, where_rows, where_rows-append, arith, Bool-cases, subst, sym,
  find, find-append_none, if◌then◌else◌,
}
use mathlib.Core.List.{append-nil}
use vera_mmu.Store.{Tables, Store}
use vera_mmu.Store.Rows.{Event, Status, planned, LifecycleEvent}
use vera_mmu.Store.Returns.{
  Returns, Returns-gets, Returns-require, Returns-insert, Returns-audit, Returns-ok, settle-Returns,
}
use vera_mmu.Lifecycle.Guards.{Returns-guard, IsReady}
use vera_mmu.Store.Keeps.{Commits, Keeps, Keeps-atomic_row, Keeps-require, Keeps-or_raise}
use vera_mmu.Readiness.{evaluate_work_readiness, events_of, newest, status_after, state_by_event}
use vera_mmu.Lifecycle.{
  event_is_valid, start_is_guarded, completion_is_guarded, is_allowed, next_sequence,
  transition_rows, transition,
}

-- The events lead on from a status, and are numbered from `n`.
abbrev pub Follows : ℕ → Status → List LifecycleEvent → Type 0
Follows n s [] = Unit
Follows n s (e ∷ es) =
    (e.sequence ≡ n) × (is_allowed s e.event ≡ true) × Follows (suc n) (state_by_event e.event) es

-- the status after the events, one by one
abbrev pub run_events : Status → List LifecycleEvent → Status
run_events s [] = s
run_events s (e ∷ es) = run_events (state_by_event e.event) es

pub Follows-append :
    (n : ℕ) (s : Status) (es : List LifecycleEvent) (e : LifecycleEvent)
    → Follows n s es
    → e.sequence ≡ n + length es
    → is_allowed (run_events s es) e.event ≡ true
    → Follows n s (es ++ e ∷ [])
Follows-append n s [] e h q a = (omega arith, a, tt)
Follows-append n s (f ∷ es) e h q a =
    (h.0, h.1, Follows-append (suc n) (state_by_event f.event) es e h.2 (omega arith) a)

-- What the query for the last event finds in a history that follows the machine.
pub record IsNewest (n : ℕ) (s : Status) (es : List LifecycleEvent) (o : Option LifecycleEvent)
    : Type 0 where
  pub status : run_events s es ≡ elim o [ none ↦ s | some e ↦ state_by_event e.event ]
  pub sequence : elim o [ none ↦ n | some e ↦ suc e.sequence ] ≡ n + length es

pub newest-IsNewest :
    (n : ℕ) (s : Status) (es : List LifecycleEvent) → Follows n s es → IsNewest n s es (newest es)
unfolding newest
newest-IsNewest n s [] h = record { status = refl; sequence = omega arith }
newest-IsNewest n s (e ∷ es) h =
    let ih = newest-IsNewest (suc n) (state_by_event e.event) es h.2 in
    record {
      status = ground (arith, ih.status, ih.sequence);
      sequence = ground (arith, ih.sequence);
    }

-- Every item's events, in the order in which they were recorded, are a history of the machine.
abbrev pub IsRecorded : Tables → Type 0
IsRecorded t = (item : String) → Follows 1 planned (events_of t item)

abbrev pub event_row :
    String → String → Event → String → String → String → Option LifecycleEvent → LifecycleEvent
event_row id item event reason actor now last = record {
  id = id;
  work_item_id = item;
  sequence = next_sequence last;
  event = event;
  reason = reason;
  created_at = now;
  created_by = actor;
}

-- what a block that returns has done: one more event, which the machine and the policies allow
pub record Adds (id item : String) (event : Event) (reason actor now : String) (t : Tables)
    (u : Tables) : Type 0 where
  pub recorded :
      u.lifecycle_events
      ≡ t.lifecycle_events
        ++ event_row id item event reason actor now (newest (events_of t item)) ∷ []
  pub allowed : is_allowed (status_after (newest (events_of t item))) event ≡ true
  pub ready_to_start :
      start_is_guarded event t.start_policy ≡ true → IsReady (evaluate_work_readiness t item)
  pub ready_to_complete :
      completion_is_guarded event t.completion_policy ≡ true
      → IsReady (evaluate_work_readiness t item)

-- a row that fits the table is read back
pub find-valid :
    (t : Tables) (e : LifecycleEvent)
    → event_is_valid t e ≡ true
    → find (λ f. f.id == e.id) (t.lifecycle_events ++ e ∷ []) ≡ some e
unfolding event_is_valid find
find-valid t e valid = ground (
  arith,
  find-append_none (λ (f : LifecycleEvent). f.id == e.id) t.lifecycle_events (e ∷ []),
  text_iff e.id e.id,
)

pub transition_rows-Returns :
    (id item event_text : String) (event : Event) (reason actor now : String) (t : Tables)
    → let e = event_row id item event reason actor now (newest (events_of t item)) in
      Returns
        (λ o u. (o ≡ some e) × Adds id item event reason actor now t u)
        (transition_rows id item event_text event reason actor now t)
unfolding transition_rows pure
transition_rows-Returns id item event_text event reason actor now t = Returns-gets _ _ _ (
    Returns-require _ _ _ _ λ known. Returns-gets _ _ _ (
      Returns-require _ _ _ _ λ allowed. Returns-gets _ _ _ (
        Returns-gets _ _ _ (
          Returns-guard _ _ _ _ _ λ may_start. Returns-gets _ _ _ (
            Returns-guard _ _ _ _ _ λ may_complete. Returns-insert _ _ _ _ λ valid.
              Returns-gets _ _ _ (
                Returns-audit _ _ _ _ _ λ audit. Returns-ok _ _ (
                  find-valid t _ valid,
                  record {
                    recorded = refl;
                    allowed = allowed;
                    ready_to_start = may_start;
                    ready_to_complete = may_complete;
                  },
                )))))))

pub events_of-append :
    (es : List LifecycleEvent) (e : LifecycleEvent) (j : String)
    → where_rows (λ (f : LifecycleEvent). f.work_item_id == j) (es ++ e ∷ [])
      ≡ where_rows (λ (f : LifecycleEvent). f.work_item_id == j) es
        ++ (if e.work_item_id == j then e ∷ [] else [])
unfolding where_rows
events_of-append es e j =
    where_rows-append (λ (f : LifecycleEvent). f.work_item_id == j) es (e ∷ [])

-- the last event of the query decides what may follow
pub Follows-next :
    (es : List LifecycleEvent) (e : LifecycleEvent)
    → Follows 1 planned es
    → e.sequence ≡ next_sequence (newest es)
    → is_allowed (status_after (newest es)) e.event ≡ true
    → Follows 1 planned (es ++ e ∷ [])
Follows-next es e h q a =
    let n = newest-IsNewest 1 planned es h in
    Follows-append 1 planned es e h (ground (arith, n.sequence)) (ground (arith, n.status))

IsRecorded-append :
    (es : List LifecycleEvent) (e : LifecycleEvent) (j : String)
    → (let mine = where_rows (λ (f : LifecycleEvent). f.work_item_id == e.work_item_id) es in
        (e.sequence ≡ next_sequence (newest mine))
        × (is_allowed (status_after (newest mine)) e.event ≡ true))
    → Follows 1 planned (where_rows (λ (f : LifecycleEvent). f.work_item_id == j) es)
    → Follows 1 planned (where_rows (λ (f : LifecycleEvent). f.work_item_id == j) (es ++ e ∷ []))
IsRecorded-append es e j next h = elim (Bool-cases (e.work_item_id == j)) [
  | inl mine ↦
      rw (events_of-append es e j, mine)
        (Follows-next _ e h
          (subst
            (λ i.
              e.sequence
              ≡ next_sequence
                  (newest (where_rows (λ (f : LifecycleEvent). f.work_item_id == i) es)))
            ((text_iff e.work_item_id j).0 mine) next.0)
          (subst
            (λ i.
              is_allowed
                (status_after
                  (newest (where_rows (λ (f : LifecycleEvent). f.work_item_id == i) es)))
                e.event
              ≡ true)
            ((text_iff e.work_item_id j).0 mine) next.1))
  | inr other ↦ rw (events_of-append es e j, other, append-nil) h
]

transition_rows-IsRecorded :
    (id item event_text : String) (event : Event) (reason actor now : String)
    → Commits IsRecorded (transition_rows id item event_text event reason actor now)
unfolding events_of
transition_rows-IsRecorded id item event_text event reason actor now = record {
  at = λ t h.
      settle-Returns IsRecorded t _
        (transition_rows-Returns id item event_text event reason actor now t) h
        (λ _ u (read, adds) j.
          subst (λ es. Follows 1 planned (where_rows (λ f. f.work_item_id == j) es))
            (sym adds.recorded)
            (IsRecorded-append t.lifecycle_events _ j (refl, adds.allowed) (h j)));
}

pub transition-Keeps :
    (id item event_text reason actor now : String)
    → Keeps IsRecorded (transition id item event_text reason actor now)
unfolding transition
transition-Keeps id item event_text reason actor now = Keeps-require _ _ _ (
    Keeps-require _ _ _ (
      Keeps-or_raise _ _ _ λ event. Keeps-require _ _ _ (
        Keeps-require _ _ _ (
          Keeps-atomic_row _ _ _
            (transition_rows-IsRecorded id item event_text event reason actor now)))))

-- A transition, accepted or refused, keeps every item's history a run of the state machine that
-- starts at PLANNED, with sequence numbers 1, 2, … and no gap.
pub transition-IsRecorded :
    (id item event_text reason actor now : String) (s : Store)
    → IsRecorded s.tables
    → IsRecorded (transition id item event_text reason actor now s).1.tables
transition-IsRecorded id item event_text reason actor now s h =
    (transition-Keeps id item event_text reason actor now).at s h
