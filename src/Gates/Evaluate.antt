-- ===== src/Gates/Evaluate.antt =====
-- When a gate passes: the evaluation against a plain reading of each mode.
use vera_mmu.Common.{
  ℕ, ◌≤◌, ◌≡◌, ◌↔◌, ◌∙◌, ap, sym, String, Bool, true, List, [], ◌∷◌, ◌++◌, ◌==◌, text_Eq, Result,
  ok, err, length, all, any, find, count_if, count_if-all, count_if-any, count_if_mono,
  find-append_some, Option-cases, arith, inl, inr,
}
use vera_mmu.Store.{Tables}
use vera_mmu.Store.Rows.{Admission, GateMode, all_of, any_of, at_least}
use vera_mmu.WorkGraph.{GateError, gate_not_found}
use vera_mmu.Gates.{
  GateEvaluation, gate_pass, requirements, gate_mode, minimum_of, status_of_counts,
  evidence_is_admitted, decided_admitted, gate_evaluation, evaluate,
}

-- What the policy of a gate asks of the evidence, mode by mode.
abbrev pub Demands : GateMode → (String → Bool) → List String → Type 0
Demands all_of admitted required = all admitted required ≡ true
Demands any_of admitted required = any admitted required ≡ true
Demands (at_least k) admitted required = k ≤ count_if admitted required

pub status-pass_iff : (a m : ℕ) → (status_of_counts a m ≡ gate_pass) ↔ (m ≤ a)
status-pass_iff a m = (λ h. ground arith, λ h. ground arith)

pub counts-Demands :
    (mode : GateMode) (admitted : String → Bool) (required : List String)
    → (minimum_of mode (length required) ≤ count_if admitted required)
      ↔ Demands mode admitted required
counts-Demands all_of admitted required =
    ((count_if-all admitted required).1, (count_if-all admitted required).0)
counts-Demands any_of admitted required =
    ((count_if-any admitted required).1, (count_if-any admitted required).0)
counts-Demands (at_least k) admitted required = (λ h. h, λ h. h)

pub evaluate-eq_ok :
    (t : Tables) (g : String) (r : GateEvaluation)
    → evaluate t g ≡ ok r
    → r ≡ gate_evaluation t g (requirements t g)
unfolding evaluate
evaluate-eq_ok t g r h = go (requirements t g) h
  where
    go :
        (rs : List String)
        → (elim rs as (λ _. Result GateError GateEvaluation) [
          | [] ↦ err gate_not_found
          | x ∷ xs ↦ ok (gate_evaluation t g (x ∷ xs))
        ])
          ≡ ok r
        → r ≡ gate_evaluation t g rs
    go [] e = cc
    go (x ∷ xs) e = cc

-- An evaluation passes exactly when the admitted evidence meets the policy of the gate: all of it,
-- one of it, or as many as the threshold; without a policy, all of it.
pub evaluate_pass_iff :
    (t : Tables) (g : String) (r : GateEvaluation)
    → evaluate t g ≡ ok r
    → (r.status ≡ gate_pass) ↔ Demands (gate_mode t g) (evidence_is_admitted t) (requirements t g)
evaluate_pass_iff t g r h =
    let e = evaluate-eq_ok t g r h in
    let c = counts-Demands (gate_mode t g) (evidence_is_admitted t) (requirements t g) in
    let s =
      status-pass_iff (count_if (evidence_is_admitted t) (requirements t g))
        (minimum_of (gate_mode t g) (length (requirements t g))) in
    (
      λ p. c.0 (s.0 (sym (ap (λ (x : GateEvaluation). x.status) e) ∙ p)),
      λ d. ap (λ (x : GateEvaluation). x.status) e ∙ s.1 (c.1 d),
    )

admitted-append :
    (admissions more : List Admission) (id : String)
    → decided_admitted (find (λ (a : Admission). a.evidence_id == id) admissions) ≡ true
    → decided_admitted (find (λ (a : Admission). a.evidence_id == id) (admissions ++ more)) ≡ true
admitted-append admissions more id h =
    let p = λ (a : Admission). a.evidence_id == id in
    elim (Option-cases (find p admissions)) [
      | inl missing ↦ ground arith
      | inr (a, found) ↦
          ap decided_admitted (find-append_some p admissions more a found)
          ∙ sym (ap decided_admitted found)
          ∙ h
    ]

Demands-mono :
    (mode : GateMode) (p q : String → Bool) (required : List String)
    → ((x : String) → p x ≡ true → q x ≡ true)
    → Demands mode p required
    → Demands mode q required
Demands-mono all_of p q required h d =
    (count_if-all q required).1
      (omega (arith, (count_if-all p required).0 d, count_if_mono p q required h))
Demands-mono any_of p q required h d =
    (count_if-any q required).1
      (omega (arith, (count_if-any p required).0 d, count_if_mono p q required h))
Demands-mono (at_least k) p q required h d = omega (arith, count_if_mono p q required h)

-- decisions added to the table keep a gate passing
pub pass_is_stable :
    (t u : Tables) (g : String) (more : List Admission) (r r' : GateEvaluation)
    → u.admissions ≡ t.admissions ++ more
    → requirements u g ≡ requirements t g
    → gate_mode u g ≡ gate_mode t g
    → evaluate t g ≡ ok r
    → evaluate u g ≡ ok r'
    → r.status ≡ gate_pass
    → r'.status ≡ gate_pass
unfolding evidence_is_admitted
pass_is_stable t u g more r r' later same_required same_mode e e' pass =
    let before : Demands (gate_mode u g) (evidence_is_admitted t) (requirements u g) =
      rw (same_required, same_mode) ((evaluate_pass_iff t g r e).0 pass) in
    (evaluate_pass_iff u g r' e').1 (
      Demands-mono (gate_mode u g) (evidence_is_admitted t) (evidence_is_admitted u)
        (requirements u g) (λ x h. rw later (admitted-append t.admissions more x h)) before)
