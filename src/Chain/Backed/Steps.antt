-- ===== src/Chain/Backed/Steps.antt =====
-- Each service of the chain keeps what stands behind the decisions and the proofs.
use mathlib.Core.List.{append-nil}
use vera_mmu.Common.{
  String, Bool, true, false, ◌≡◌, refl, text_Eq, Option, none, some, [], ◌∷◌, ◌++◌, All, All-map,
  All-append, subst, sym, ◌∙◌, ap, pure, raise,
}
use vera_mmu.Store.{Tables}
use vera_mmu.Store.Rows.{
  Evidence, Verdict, Admission, Decision, admitted, rejected, is_admitted, is_pass,
}
use vera_mmu.Store.Returns.{
  Returns, Returns-ok, Returns-err, Returns-gets, Returns-require, Returns-or_raise, Returns-insert,
  Returns-insert_last, Returns-require_last, Returns-audit, Returns-bind,
}
use vera_mmu.Chain.Platform.{Platform}
use vera_mmu.Chain.Record.{record_evidence_rows, insert_evidence}
use vera_mmu.Chain.Decide.{
  decide_rows, check_decision, check_binding, bind_validation, insert_admission, insert_binding,
  is_strict, admission_row,
}
use vera_mmu.Chain.Backed.{
  DecisionIsBacked, ProofIsBacked, IsBacked, Extends, find_evidence, Extends-DecisionIsBacked,
  Extends-ProofIsBacked,
}

-- the tables that a step of the chain may leave
IsBacked-Extends :
    (platform : Platform) (t u : Tables)
    → Extends t u
    → u.proofs ≡ t.proofs
    → u.admissions ≡ t.admissions
    → IsBacked platform t
    → IsBacked platform u
IsBacked-Extends platform t u x same_proofs same_admissions b = record {
  decisions =
      subst (All (DecisionIsBacked u)) (sym same_admissions)
        (All-map _ _ t.admissions (λ a h. Extends-DecisionIsBacked t u a x h) b.decisions);
  proofs =
      subst (All (ProofIsBacked platform u)) (sym same_proofs)
        (All-map _ _ t.proofs (λ p h. Extends-ProofIsBacked platform t u p x h) b.proofs);
}

pub record_rows-Returns :
    (platform : Platform) (e : Evidence) (verdict_text : String) (t : Tables)
    → IsBacked platform t
    → Returns (λ _ u. IsBacked platform u) (record_evidence_rows platform e verdict_text t)
unfolding record_evidence_rows insert_evidence pure
record_rows-Returns platform e verdict_text t b = Returns-gets _ _ _ (
    Returns-require _ _ _ _ λ known. Returns-insert _ _ _ _ λ valid. Returns-gets _ _ _ (
      Returns-audit _ _ _ _ _ λ audit. Returns-ok _ _ (
        IsBacked-Extends platform t _
          (record {
            more_evidence = e ∷ [];
            more_admissions = [];
            evidence_grows = refl;
            admissions_grow = sym (append-nil t.admissions);
          })
          refl refl b)))

check_binding-Returns :
    (strict : Bool) (evidence : String) (validation : Option String) (t : Tables)
    → Returns (λ _ u. u ≡ t) (check_binding strict evidence validation t)
unfolding check_binding pure raise
check_binding-Returns true evidence none t = Returns-err _ t
check_binding-Returns true evidence (some v) t =
    Returns-gets _ _ _ (Returns-require_last _ _ t (λ passes. refl))
check_binding-Returns false evidence none t = Returns-ok tt t refl
check_binding-Returns false evidence (some v) t = Returns-err _ t

-- what the tests on a decision let through
pub check_decision-Returns :
    (d : Decision) (v : Verdict) (evidence : String) (validation : Option String) (t : Tables)
    → Returns
        (λ strict u. (u ≡ t) × (is_admitted d ≡ true → is_pass v ≡ true))
        (check_decision d v evidence validation t)
unfolding check_decision pure raise
check_decision-Returns admitted v evidence validation t = Returns-require _ _ _ _ λ passed.
    Returns-gets _ _ _ (
      Returns-or_raise _ _ _ _ λ policy declared.
        Returns-bind _ _ _ (check_binding-Returns (is_strict policy.mode) evidence validation t)
          λ _ u same. Returns-ok _ u (same, λ _. passed))
check_decision-Returns rejected v evidence none t = Returns-ok false t (refl, λ e. cc)
check_decision-Returns rejected v evidence (some w) t = Returns-err _ t

-- the tables but for the bindings and the audit
pub record SameRows (t u : Tables) : Type 0 where
  pub same_evidence : u.evidence ≡ t.evidence
  pub same_admissions : u.admissions ≡ t.admissions
  pub same_proofs : u.proofs ≡ t.proofs

pub bind_validation-Returns :
    (strict : Bool) (id : String) (validation : Option String) (evidence actor now : String)
    (t : Tables)
    → Returns (λ _ u. SameRows t u) (bind_validation strict id validation evidence actor now t)
unfolding bind_validation pure raise insert_binding
bind_validation-Returns false id validation evidence actor now t =
    Returns-ok tt t (record { same_evidence = refl; same_admissions = refl; same_proofs = refl })
bind_validation-Returns true id none evidence actor now t = Returns-err _ t
bind_validation-Returns true id (some v) evidence actor now t =
    Returns-insert_last _ _ t
      (λ valid. record { same_evidence = refl; same_admissions = refl; same_proofs = refl })

IsBacked-decide :
    (platform : Platform) (t u : Tables) (a : Admission) (e : Evidence)
    → IsBacked platform t
    → find_evidence t a.evidence_id ≡ some e
    → (is_admitted a.decision ≡ true → is_pass e.verdict ≡ true)
    → u.evidence ≡ t.evidence
    → u.admissions ≡ t.admissions ++ a ∷ []
    → u.proofs ≡ t.proofs
    → IsBacked platform u
IsBacked-decide platform t u a e b found passed same_evidence one_more same_proofs =
    let x : Extends t u = record {
      more_evidence = [];
      more_admissions = a ∷ [];
      evidence_grows = same_evidence ∙ sym (append-nil t.evidence);
      admissions_grow = one_more;
    } in
    let old = All-map _ _ t.admissions (λ c h. Extends-DecisionIsBacked t u c x h) b.decisions in
    let new =
      Extends-DecisionIsBacked t u a x
        (record { evidence = e; recorded = found; passed = passed }) in
    record {
      decisions =
          subst (All (DecisionIsBacked u)) (sym one_more)
            (All-append _ t.admissions (a ∷ []) old (new, tt));
      proofs =
          subst (All (ProofIsBacked platform u)) (sym same_proofs)
            (All-map _ _ t.proofs (λ p h. Extends-ProofIsBacked platform t u p x h) b.proofs);
    }

pub decide_rows-Returns :
    (platform : Platform) (id evidence decision_text : String) (d : Decision) (reason : String)
    (validation : Option String) (actor now : String) (t : Tables)
    → IsBacked platform t
    → Returns
        (λ _ u. IsBacked platform u)
        (decide_rows id evidence decision_text d reason validation actor now t)
unfolding decide_rows insert_admission pure
decide_rows-Returns platform id evidence decision_text d reason validation actor now t b =
    Returns-gets _ _ _ (
      Returns-or_raise _ _ _ _ λ e found.
        Returns-bind _ _ _ (check_decision-Returns d e.verdict evidence validation t)
          λ strict v (same, passed). Returns-insert _ _ _ _ λ valid.
            Returns-bind _ _ _ (bind_validation-Returns strict id validation evidence actor now _)
              λ _ u rows. Returns-gets _ _ _ (
                Returns-audit _ _ _ _ _ λ audit. Returns-ok _ _ (
                  IsBacked-decide platform t _ (admission_row id evidence d reason actor now) e b
                    found passed (rows.same_evidence ∙ ap (λ (w : Tables). w.evidence) same)
                    (rows.same_admissions
                      ∙ ap
                          (λ (w : Tables).
                            w.admissions ++ admission_row id evidence d reason actor now ∷ [])
                          same)
                    (rows.same_proofs ∙ ap (λ (w : Tables). w.proofs) same))))
