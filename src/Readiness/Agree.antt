-- ===== src/Readiness/Agree.antt =====
-- The gate status of src/vera_mmu/work_readiness.py is the one of src/vera_mmu/gates.py, and readiness says
-- what it counts.
use vera_mmu.Common.{
  ◌≡◌, ◌↔◌, ◌∙◌, refl, ap, sym, String, ℕ, true, ok, all, text_Eq, ◌==◌, Option, none, some, find,
  length, All, where_rows, count_if, count_if-all, count_if-ext, count_if-le, arith,
}
use vera_mmu.Common.Order.{all-query}
use vera_mmu.Store.{Tables}
use vera_mmu.Store.Rows.{
  Dependency, Gate, Admission, GatePolicy, GateMode, all_of, any_of, at_least, Status, planned,
  active, completed, cancelled,
}
use vera_mmu.Gates.{
  GateEvaluation, GateStatus, gate_pass, gate_fail, evaluate, requirements, gate_mode, minimum_of,
  status_of_counts, evidence_is_admitted, decided_admitted,
}
use vera_mmu.Gates.Evaluate.{Demands, counts-Demands, status-pass_iff, evaluate-eq_ok}
use vera_mmu.Readiness.{
  Readiness, work_status, is_completed, readiness_evidence, readiness_gate_status, row_is_admitted,
  minimum_under, is_gate_pass, prerequisites, gates_of, evaluate_work_readiness,
}

row_is_admitted-eq : (o : Option Admission) → row_is_admitted o ≡ decided_admitted o
row_is_admitted-eq none = refl
row_is_admitted-eq (some a) = refl

mode_of : Option GatePolicy → GateMode
mode_of none = all_of
mode_of (some p) = p.mode

minimum_under-eq : (o : Option GatePolicy) (n : ℕ) → minimum_under o n ≡ minimum_of (mode_of o) n
unfolding mode_of
minimum_under-eq none n = refl
minimum_under-eq (some p) n = by_mode p.mode
  where
    by_mode :
        (m : GateMode)
        → (elim m as (λ _. ℕ) [ all_of ↦ n | any_of ↦ 1 | at_least k ↦ k ]) ≡ minimum_of m n
    by_mode all_of = refl
    by_mode any_of = refl
    by_mode (at_least k) = refl

gate_mode-eq :
    (t : Tables) (g : String) → gate_mode t g ≡ mode_of (find (λ p. p.gate_id == g) t.gate_policies)
unfolding gate_mode mode_of
gate_mode-eq t g = go (find (λ p. p.gate_id == g) t.gate_policies)
  where
    go : (o : Option GatePolicy) → (elim o [ none ↦ all_of | some p ↦ p.mode ]) ≡ mode_of o
    go none = refl
    go (some p) = refl

-- the two computations of the status, step by step
readiness_gate_status-eq :
    (t : Tables) (g : String)
    → readiness_gate_status t g
      ≡ status_of_counts
          (count_if (evidence_is_admitted t) (requirements t g))
          (minimum_of (gate_mode t g) (length (requirements t g)))
unfolding readiness_gate_status readiness_evidence requirements evidence_is_admitted
readiness_gate_status-eq t g =
    let rs = requirements t g in
    let policy = find (λ (p : GatePolicy). p.gate_id == g) t.gate_policies in
    ap (λ n. status_of_counts n (minimum_under policy (length rs)))
      (count_if-ext (λ id. row_is_admitted (find (λ a. a.evidence_id == id) t.admissions))
        (evidence_is_admitted t) rs
        (λ id. row_is_admitted-eq (find (λ a. a.evidence_id == id) t.admissions)))
    ∙ ap (status_of_counts (count_if (evidence_is_admitted t) rs)) (
        minimum_under-eq policy (length rs)
        ∙ ap (λ m. minimum_of m (length rs)) (sym (gate_mode-eq t g)))

-- `work_readiness.py` computes a gate's status by itself, from its own query and its own rule for the
-- minimum; for a gate that is there it is the status of `GateService.evaluate`.
pub gate_status_agrees :
    (t : Tables) (g : String) (r : GateEvaluation)
    → evaluate t g ≡ ok r
    → readiness_gate_status t g ≡ r.status
gate_status_agrees t g r h =
    readiness_gate_status-eq t g
    ∙ sym (ap (λ (x : GateEvaluation). x.status) (evaluate-eq_ok t g r h))

is_gate_pass_iff : (s : GateStatus) → (is_gate_pass s ≡ true) ↔ (s ≡ gate_pass)
is_gate_pass_iff gate_pass = (λ h. refl, λ h. refl)
is_gate_pass_iff gate_fail = (λ h. cc, λ h. cc)

is_completed_iff : (s : Status) → (is_completed s ≡ true) ↔ (s ≡ completed)
is_completed_iff completed = (λ h. refl, λ h. refl)
is_completed_iff planned = (λ h. cc, λ h. cc)
is_completed_iff active = (λ h. cc, λ h. cc)
is_completed_iff cancelled = (λ h. cc, λ h. cc)

passes-Demands :
    (t : Tables) (g : String)
    → (is_gate_pass (readiness_gate_status t g) ≡ true)
      ↔ Demands (gate_mode t g) (evidence_is_admitted t) (requirements t g)
passes-Demands t g =
    let e = readiness_gate_status-eq t g in
    let s = is_gate_pass_iff (readiness_gate_status t g) in
    let p = status-pass_iff _ _ in
    let c = counts-Demands (gate_mode t g) (evidence_is_admitted t) (requirements t g) in
    (λ h. c.0 (p.0 (sym e ∙ s.0 h)), λ d. s.1 (e ∙ p.1 (c.1 d)))

-- readiness is that all that was counted was done
pub ready_counts :
    (t : Tables) (item : String) (r : Readiness)
    → evaluate_work_readiness t item ≡ ok r
    → (r.ready ≡ true) ↔ (
        (all (λ p. is_completed (work_status t p)) (prerequisites t item) ≡ true)
        × (all (λ g. is_gate_pass (readiness_gate_status t g)) (gates_of t item) ≡ true))
unfolding evaluate_work_readiness
ready_counts t item r h =
    let p = λ (x : String). is_completed (work_status t x) in
    let q = λ (g : String). is_gate_pass (readiness_gate_status t g) in
    let ps = prerequisites t item in
    let gs = gates_of t item in
    (
      λ e. ((count_if-all p ps).1 (ground (arith, h)), (count_if-all q gs).1 (ground (arith, h))),
      λ e. ground (
        arith,
        h,
        (count_if-all p ps).0 e.0,
        (count_if-all q gs).0 e.1,
        count_if-le p ps,
        count_if-le q gs,
      ),
    )

-- A known item is ready exactly when each row of the dependencies that names it as dependent has a
-- completed prerequisite, and the evidence of each gate of the item meets what the gate's policy demands.
pub ready_iff :
    (t : Tables) (item : String) (r : Readiness)
    → evaluate_work_readiness t item ≡ ok r
    → (r.ready ≡ true) ↔ (
        All
          (λ (d : Dependency). work_status t d.prerequisite_id ≡ completed)
          (where_rows (λ d. d.dependent_id == item) t.dependencies)
        × All
            (λ (g : Gate).
              Demands (gate_mode t g.id) (evidence_is_admitted t) (requirements t g.id))
            (where_rows (λ g. g.work_item_id == item) t.gates))
unfolding prerequisites gates_of
ready_iff t item r h =
    let counted = ready_counts t item r h in
    let first =
      all-query (λ p. is_completed (work_status t p)) (λ (d : Dependency). d.prerequisite_id)
        (λ d. work_status t d.prerequisite_id ≡ completed)
        (where_rows (λ d. d.dependent_id == item) t.dependencies)
        (λ d. is_completed_iff (work_status t d.prerequisite_id)) in
    let second =
      all-query (λ g. is_gate_pass (readiness_gate_status t g)) (λ (g : Gate). g.id)
        (λ g. Demands (gate_mode t g.id) (evidence_is_admitted t) (requirements t g.id))
        (where_rows (λ g. g.work_item_id == item) t.gates) (λ g. passes-Demands t g.id) in
    (
      λ e. (first.0 (counted.0 e).0, second.0 (counted.0 e).1),
      λ e. counted.1 (first.1 e.0, second.1 e.1),
    )
