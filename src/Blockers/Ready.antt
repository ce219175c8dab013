-- ===== src/Blockers/Ready.antt =====
-- The report of src/vera_mmu/work_blocker_reports.py against src/vera_mmu/work_readiness.py: it looks at
-- prerequisites of prerequisites too, and so is the stricter of the two.
use vera_mmu.Common.{
  suc, String, Bool, true, false, ◌==◌, text_Eq, text_iff, ◌≡◌, refl, ◌∙◌, ap, subst, List, [], ◌∷◌,
  length, contains, Result, ok, err, if◌then◌else◌, arith, Bool-cases, inl, inr, all, All, ◌>>=◌,
}
use vera_mmu.Store.{Tables, Store}
use vera_mmu.WorkGraph.{has_work_item, GateError}
use vera_mmu.Gates.{GateEvaluation, evaluate}
use vera_mmu.Readiness.{
  work_status, is_completed, prerequisites, gates_of, is_gate_pass, readiness_gate_status,
  evaluate_work_readiness, Readiness,
}
use vera_mmu.Readiness.Agree.{gate_status_agrees, ready_counts}
use vera_mmu.Blockers.{
  GateBlocker, visit, visit_each, transitive_blockers, gate_blockers, add_blockers, report,
  require_item, diagnose_transitive, diagnose_gates, WorkBlockerReport,
}
use vera_mmu.Blockers.Visits.{
  Done, contains-cons, contains-head, visit_each-IsVisit, visit-IsVisit, visit_each-seen,
}

module _ (t : Tables) where
  Done-contains :
      (seen : List String) (x : String) → All (Done t) seen → contains seen x ≡ true → Done t x
  unfolding contains
  Done-contains [] x h m = cc
  Done-contains (y ∷ ys) x h m = elim (Bool-cases (y == x)) [
    | inl here ↦ subst (Done t) ((text_iff y x).0 here) h.0
    | inr later ↦ Done-contains ys x h.1 (ground (arith, m, later))
  ]

  all-of_contains :
      (p : String → Bool) (xs : List String)
      → ((x : String) → contains xs x ≡ true → p x ≡ true)
      → all p xs ≡ true
  unfolding all contains
  all-of_contains p [] h = refl
  all-of_contains p (x ∷ xs) h = ground (
    arith,
    h x (contains-head t xs x),
    all-of_contains p xs (λ y m. h y (contains-cons t xs x y m)),
  )

  -- no blocker, direct or not, means that the direct prerequisites are completed
  transitive-completed :
      (id : String)
      → transitive_blockers t id ≡ []
      → all (λ p. is_completed (work_status t p)) (prerequisites t id) ≡ true
  unfolding transitive_blockers visit
  transitive-completed id h =
      let deeper = visit (suc (length t.dependencies)) t in
      let rows = prerequisites t id in
      let whole =
        visit_each-IsVisit t deeper rows (visit-IsVisit t (suc (length t.dependencies))) in
      all-of_contains _ rows (λ x m.
        Done-contains (visit_each deeper t rows ([], [])).0 x (whole.honest ([], []) (λ e. tt) h) (
          visit_each-seen t deeper rows ([], []) x (visit-IsVisit t (suc (length t.dependencies)))
            m))

  add_blockers-nil :
      (r : Result GateError GateEvaluation) (bs : Result GateError (List GateBlocker))
      → add_blockers r bs ≡ ok []
      → (e : GateEvaluation) × (r ≡ ok e) × (is_gate_pass e.status ≡ true) × (bs ≡ ok [])
  add_blockers-nil (err e) bs h = cc
  add_blockers-nil (ok r) (err e) h = cc
  add_blockers-nil (ok r) (ok bs) h = elim (Bool-cases (is_gate_pass r.status)) [
    | inl passes ↦ (r, refl, passes, ground (arith, h, passes))
    | inr fails ↦ ground (arith, h, fails)
  ]

  gate_blockers-pass :
      (gs : List String)
      → gate_blockers t gs ≡ ok []
      → all (λ g. is_gate_pass (readiness_gate_status t g)) gs ≡ true
  unfolding gate_blockers all
  gate_blockers-pass [] h = refl
  gate_blockers-pass (g ∷ gs) h =
      let (e, evaluated, passes, others) = add_blockers-nil (evaluate t g) (gate_blockers t gs) h in
      let here : is_gate_pass (readiness_gate_status t g) ≡ true =
        ap is_gate_pass (gate_status_agrees t g e evaluated) ∙ passes in
      rw here (gate_blockers-pass gs others)

accepted :
    {E A : Type 0} (b : Bool) (a : A) (e : E)
    → b ≡ true
    → (q : A) × ((if b then ok a else err e) ≡ ok q)
accepted true a e h = (a, refl)
accepted false a e h = cc

known-readiness :
    (t : Tables) (id : String)
    → has_work_item t id ≡ true
    → (q : Readiness) × (evaluate_work_readiness t id ≡ ok q)
unfolding evaluate_work_readiness
known-readiness t id h = accepted (has_work_item t id) _ _ h

-- what a report that returns has read
report-read :
    (id : String) (s : Store) (r : WorkBlockerReport)
    → (report id s).0 ≡ ok r
    → r.is_ready ≡ true
    → (has_work_item s.tables id ≡ true)
      × (transitive_blockers s.tables id ≡ [])
      × (gate_blockers s.tables (gates_of s.tables id) ≡ ok [])
unfolding report diagnose_transitive diagnose_gates require_item ◌>>=◌
report-read id s r returned ready = (
  ground (arith, returned, ready),
  ground (arith, returned, ready),
  ground (arith, returned, ready),
)

-- A report that says READY finds the item ready for `evaluate_work_readiness` too: its direct
-- prerequisites are completed and its gates pass.
pub ready_report :
    (id : String) (s : Store) (r : WorkBlockerReport)
    → (report id s).0 ≡ ok r
    → r.is_ready ≡ true
    → (q : Readiness) × (evaluate_work_readiness s.tables id ≡ ok q) × (q.ready ≡ true)
ready_report id s r returned ready =
    let (known, direct, gates) = report-read id s r returned ready in
    let (q, e) = known-readiness s.tables id known in
    (
      q,
      e,
      (ready_counts s.tables id q e).1 (
        transitive-completed s.tables id direct,
        gate_blockers-pass s.tables (gates_of s.tables id) gates,
      ),
    )
