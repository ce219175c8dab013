-- ===== src/Chain/Final.antt =====
-- A decision of src/vera_mmu/admission.py is final, and what it means for the gates.
use mathlib.Core.List.{append-nil, append_assoc}
use vera_mmu.Common.{
  String, Bool, true, false, ◌≡◌, refl, ◌==◌, text_Eq, Option, none, some, List, [], ◌∷◌, ◌++◌,
  find, sym, ◌∙◌, ap, ok, arith, pure, raise, ◌≢◌,
}
use vera_mmu.Store.{Tables, Store}
use vera_mmu.Store.Rows.{Evidence, Admission, Decision}
use vera_mmu.Store.Keeps.{Keeps, Keeps-atomic_row, Keeps-require, Keeps-refuse, Keeps-or_raise}
use vera_mmu.Store.Returns.{
  Returns, Returns-ok, Returns-gets, Returns-or_raise, Returns-insert, Returns-audit, Returns-bind,
  Returns-err, Returns-map, Returns-insert_last, settle-Returns,
}
use vera_mmu.Chain.Decide.{
  decide_rows, decide, insert_admission, admission_row, admission_is_valid, bind_validation,
  insert_binding, AdmissionView,
}
use vera_mmu.Chain.Backed.Steps.{check_decision-Returns}
use vera_mmu.Store.Answers.{
  Answers, Answers-require, Answers-refuse, Answers-or_raise, Answers-atomic_row,
}
use vera_mmu.Gates.{GateEvaluation, evaluate, requirements, gate_mode, gate_pass}
use vera_mmu.Gates.Evaluate.{pass_is_stable}

-- a decided evidence takes no second row
decided-not_valid :
    (t : Tables) (a b : Admission)
    → find (λ c. c.evidence_id == a.evidence_id) t.admissions ≡ some b
    → admission_is_valid t a ≡ true
    → ⊥
unfolding admission_is_valid
decided-not_valid t a b h valid = ground (arith, h, valid)

-- what a block that decides leaves of the rows that the gates read
record Decides (t u : Tables) : Type 0 where
  new : List Admission
  decisions : u.admissions ≡ t.admissions ++ new
  same_gates : u.gates ≡ t.gates
  same_requirements : u.gate_requirements ≡ t.gate_requirements
  same_policies : u.gate_policies ≡ t.gate_policies

bind_validation-gates :
    (strict : Bool) (id : String) (validation : Option String) (evidence actor now : String)
    (t : Tables)
    → Returns
        (λ _ u.
          (u.admissions ≡ t.admissions)
          × (u.gates ≡ t.gates)
          × (u.gate_requirements ≡ t.gate_requirements)
          × (u.gate_policies ≡ t.gate_policies))
        (bind_validation strict id validation evidence actor now t)
unfolding bind_validation pure raise insert_binding
bind_validation-gates false id validation evidence actor now t =
    Returns-ok tt t (refl, refl, refl, refl)
bind_validation-gates true id none evidence actor now t = Returns-err _ t
bind_validation-gates true id (some v) evidence actor now t =
    Returns-insert_last _ _ t (λ valid. (refl, refl, refl, refl))

decide_rows-Decides :
    (id evidence decision_text : String) (d : Decision) (reason : String)
    (validation : Option String) (actor now : String) (t : Tables)
    → Returns
        (λ _ u. Decides t u)
        (decide_rows id evidence decision_text d reason validation actor now t)
unfolding decide_rows insert_admission pure
decide_rows-Decides id evidence decision_text d reason validation actor now t =
    let a = admission_row id evidence d reason actor now in
    Returns-gets _ _ _ (
      Returns-or_raise _ _ _ _ λ (e : Evidence) found.
        Returns-bind _ _ _ (check_decision-Returns d e.verdict evidence validation t)
          λ strict v (same, passed). Returns-insert _ _ _ _ λ valid.
            Returns-bind _ _ _ (bind_validation-gates strict id validation evidence actor now _)
              λ _ u (decisions, gates, required, policies). Returns-gets _ _ _ (
                Returns-audit _ _ _ _ _ λ audit. Returns-ok _ _ (record {
                  new = a ∷ [];
                  decisions = decisions ∙ ap (λ (w : Tables). w.admissions ++ a ∷ []) same;
                  same_gates = gates ∙ ap (λ (w : Tables). w.gates) same;
                  same_requirements = required ∙ ap (λ (w : Tables). w.gate_requirements) same;
                  same_policies = policies ∙ ap (λ (w : Tables). w.gate_policies) same;
                })))

Decides-refl : (t : Tables) → Decides t t
Decides-refl t = record {
  new = [];
  decisions = sym (append-nil t.admissions);
  same_gates = refl;
  same_requirements = refl;
  same_policies = refl;
}

Decides-trans : {t u v : Tables} → Decides t u → Decides u v → Decides t v
Decides-trans {t} {u} {v} x y = record {
  new = x.new ++ y.new;
  decisions =
      y.decisions ∙ ap (λ l. l ++ y.new) x.decisions ∙ append_assoc t.admissions x.new y.new;
  same_gates = y.same_gates ∙ x.same_gates;
  same_requirements = y.same_requirements ∙ x.same_requirements;
  same_policies = y.same_policies ∙ x.same_policies;
}

decide-Keeps :
    (id evidence decision_text reason : String) (validation : Option String) (actor now : String)
    (t : Tables)
    → Keeps (Decides t) (decide id evidence decision_text reason validation actor now)
unfolding decide
decide-Keeps id evidence decision_text reason validation actor now t = Keeps-require _ _ _ (
    Keeps-require _ _ _ (
      Keeps-or_raise _ _ _ λ d. Keeps-refuse _ _ _ (
        Keeps-refuse _ _ _ (
          Keeps-require _ _ _ (
            Keeps-atomic_row _ _ _ (record {
              at = λ u x.
                  settle-Returns (Decides t) u _
                    (decide_rows-Decides id evidence decision_text d reason validation actor now u)
                    x (λ _ v y. Decides-trans x y);
            }))))))

Decides-requirements :
    (t u : Tables) (g : String) → Decides t u → requirements u g ≡ requirements t g
unfolding requirements
Decides-requirements t u g x = rw (x.same_gates, x.same_requirements)

Decides-gate_mode : (t u : Tables) (g : String) → Decides t u → gate_mode u g ≡ gate_mode t g
unfolding gate_mode
Decides-gate_mode t u g x = rw (x.same_policies)

-- A call of `decide`, accepted or refused, on whatever evidence, never makes a passing gate fail.
pub decide_keeps_gates :
    (id evidence decision_text reason : String) (validation : Option String) (actor now : String)
    (s : Store) (g : String) (r r' : GateEvaluation)
    → evaluate s.tables g ≡ ok r
    → evaluate (decide id evidence decision_text reason validation actor now s).1.tables g ≡ ok r'
    → r.status ≡ gate_pass
    → r'.status ≡ gate_pass
decide_keeps_gates id evidence decision_text reason validation actor now s g r r' before after
      pass =
    let u = (decide id evidence decision_text reason validation actor now s).1.tables in
    let x =
      (decide-Keeps id evidence decision_text reason validation actor now s.tables).at s
        (Decides-refl s.tables) in
    pass_is_stable s.tables u g x.new r r' x.decisions (Decides-requirements s.tables u g x)
      (Decides-gate_mode s.tables u g x) before after pass

decide_rows-refused :
    (id evidence decision_text : String) (d : Decision) (reason : String)
    (validation : Option String) (actor now : String) (t : Tables) (b : Admission)
    → find (λ c. c.evidence_id == evidence) t.admissions ≡ some b
    → Returns (λ _ u. ⊥) (decide_rows id evidence decision_text d reason validation actor now t)
unfolding decide_rows insert_admission
decide_rows-refused id evidence decision_text d reason validation actor now t b decided =
    let a = admission_row id evidence d reason actor now in
    Returns-gets _ _ _ (
      Returns-or_raise _ _ _ _ λ (e : Evidence) found.
        Returns-bind _ _ _ (check_decision-Returns d e.verdict evidence validation t)
          λ strict v (same, passed). Returns-insert _ _ _ _ λ valid. absurd (
            decided-not_valid v a b
              (ap (λ (w : Tables). find (λ (c : Admission). c.evidence_id == evidence) w.admissions)
                  same
                ∙ decided)
              valid))

-- An evidence is decided once: where a decision on it is recorded, no call of `decide` on it returns.
pub decide_once :
    (id evidence decision_text reason : String) (validation : Option String) (actor now : String)
    (s : Store) (b : Admission) (a : AdmissionView)
    → find (λ c. c.evidence_id == evidence) s.tables.admissions ≡ some b
    → (decide id evidence decision_text reason validation actor now s).0 ≢ ok a
unfolding decide
decide_once id evidence decision_text reason validation actor now s b a decided returned =
    let never : Answers (λ _ u. ⊥)
        (decide id evidence decision_text reason validation actor now s) =
      Answers-require _ _ _ _ λ _. Answers-require _ _ _ _ λ _. Answers-or_raise _ _ _ _ λ d known.
        Answers-refuse _ _ _ _ λ _. Answers-refuse _ _ _ _ λ _. Answers-require _ _ _ _ λ _.
          Answers-atomic_row _ _ _ _ (
            Returns-map
              (decide_rows-refused id evidence decision_text d reason validation actor now s.tables
                b decided)
              (λ o u no a read. no)) in
    never.at a returned
