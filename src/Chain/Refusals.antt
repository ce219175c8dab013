-- ===== src/Chain/Refusals.antt =====
-- What the chain never does: decide an evidence twice, admit without the validation that the policy
-- asks for, or found a proof on an opinion (src/vera_mmu/admission.py, src/vera_mmu/proofs.py).
use vera_mmu.Common.{
  String, Bool, true, false, ◌≡◌, ◌≢◌, refl, text_Eq, Option, none, some, sym, ◌∙◌, ok, pure, raise,
}
use vera_mmu.Store.{Tables, Store}
use vera_mmu.Store.Rows.{
  Evidence, Decision, admitted, rejected, Verdict, Policy, AdmissionMode, validated_pass_evidence,
  KnowledgeProof,
}
use vera_mmu.Store.Returns.{
  Returns, Returns-ok, Returns-err, Returns-gets, Returns-require, Returns-refuse, Returns-or_raise,
  Returns-map, Returns-bind, Returns-always, Returns-require_last,
}
use vera_mmu.Store.Answers.{
  Answers, Answers-require, Answers-refuse, Answers-or_raise, Answers-atomic_row,
}
use vera_mmu.Chain.Platform.{Platform}
use vera_mmu.Chain.Classes.{classify, technical_validation}
use vera_mmu.Chain.Decide.{
  decide_rows, decide, decision_of, check_decision, check_binding, AdmissionView, is_strict,
  validation_passes,
}
use vera_mmu.Chain.Promote.{promote_rows, promote}
use vera_mmu.Chain.Backed.{find_evidence, find_admission}
use vera_mmu.Chain.Backed.Promotion.{admissible-some, may_create_proof-technical}

-- a block that may still go on to write is refused at the write
promote_rows-opinion :
    (platform : Platform) (secret : Option String)
    (id knowledge evidence admission actor now : String) (t : Tables) (e : Evidence)
    → find_evidence t evidence ≡ some e
    → classify e.evidence_type ≢ technical_validation
    → Returns (λ _ u. ⊥) (promote_rows platform secret id knowledge evidence admission actor now t)
unfolding promote_rows
promote_rows-opinion platform secret id knowledge evidence admission actor now t e found opinion =
    Returns-gets _ _ _ (
      Returns-or_raise _ _ _ _ λ policy declared. Returns-refuse _ _ _ _ λ with_secret.
        Returns-refuse _ _ _ _ λ no_other. Returns-gets _ _ _ (
          Returns-require _ _ _ _ λ known. Returns-gets _ _ _ (
            Returns-or_raise _ _ _ _ λ f passing. Returns-require _ _ _ _ λ technical.
              let (a, recorded, decided, passed, same, accepted) =
                admissible-some evidence (find_evidence t evidence) (find_admission t admission) f
                  passing in
              absurd (
                opinion_is_not e f (sym found ∙ recorded) opinion
                  (may_create_proof-technical f.evidence_type technical)))))
  where
    opinion_is_not :
        (e f : Evidence)
        → some e ≡ some f
        → classify e.evidence_type ≢ technical_validation
        → classify f.evidence_type ≡ technical_validation
        → ⊥
    opinion_is_not e f h o q = o (cc)

-- An evidence that is not a technical validation, whatever its verdict and its admission, founds no
-- proof: a promotion on it never returns one.
pub opinion_never_proves :
    (platform : Platform) (secret : Option String)
    (id knowledge evidence admission actor now : String) (s : Store) (e : Evidence)
    (p : KnowledgeProof)
    → find_evidence s.tables evidence ≡ some e
    → classify e.evidence_type ≢ technical_validation
    → (promote platform secret id knowledge evidence admission actor now s).0 ≢ ok p
unfolding promote
opinion_never_proves platform secret id knowledge evidence admission actor now s e p found opinion
      returned =
    let never : Answers (λ _ u. ⊥)
        (promote platform secret id knowledge evidence admission actor now s) =
      Answers-require _ _ _ _ λ formed. Answers-atomic_row _ _ _ _ (
        Returns-map
          (promote_rows-opinion platform secret id knowledge evidence admission actor now s.tables e
            found opinion)
          (λ o u no a read. no)) in
    never.at p returned

check_binding-strict :
    (strict : Bool) (evidence : String) (validation : Option String) (t : Tables)
    → strict ≡ true
    → Returns
        (λ _ u. (v : String) × (validation ≡ some v) × (validation_passes t evidence v ≡ true))
        (check_binding strict evidence validation t)
unfolding check_binding raise
check_binding-strict false evidence validation t h = cc
check_binding-strict true evidence none t h = Returns-err _ t
check_binding-strict true evidence (some v) t h =
    Returns-gets _ _ _ (Returns-require_last _ _ t λ passes. (v, refl, passes))

-- what a strict policy asks before the decision is written
check_strict-Returns :
    (d : Decision) (verdict : Verdict) (evidence : String) (validation : Option String) (t : Tables)
    (p : Policy AdmissionMode)
    → d ≡ admitted
    → t.admission_policy ≡ some p
    → p.mode ≡ validated_pass_evidence
    → Returns
        (λ _ u. (v : String) × (validation ≡ some v) × (validation_passes t evidence v ≡ true))
        (check_decision d verdict evidence validation t)
unfolding check_decision pure
check_strict-Returns rejected verdict evidence validation t p admits declared mode = cc
check_strict-Returns admitted verdict evidence validation t p admits declared mode =
    Returns-require _ _ _ _ λ passed. Returns-gets _ _ _ (
      Returns-or_raise _ _ _ _ λ policy found.
        Returns-bind _ _ _
          (check_binding-strict (is_strict policy.mode) evidence validation t
            (strict p policy (sym declared ∙ found) mode))
          (λ _ u bound. Returns-ok _ u bound))
  where
    strict :
        (p q : Policy AdmissionMode)
        → some p ≡ some q
        → p.mode ≡ validated_pass_evidence
        → is_strict q.mode ≡ true
    strict p q h m = cc

decide_strict-Returns :
    (id evidence decision_text : String) (d : Decision) (reason : String)
    (validation : Option String) (actor now : String) (t : Tables) (p : Policy AdmissionMode)
    → d ≡ admitted
    → t.admission_policy ≡ some p
    → p.mode ≡ validated_pass_evidence
    → Returns
        (λ _ u. (v : String) × (validation ≡ some v) × (validation_passes t evidence v ≡ true))
        (decide_rows id evidence decision_text d reason validation actor now t)
unfolding decide_rows
decide_strict-Returns id evidence decision_text d reason validation actor now t p admits declared
      mode =
    Returns-gets _ _ _ (
      Returns-or_raise _ _ _ _ λ (e : Evidence) found.
        Returns-bind _ _ _
          (check_strict-Returns d e.verdict evidence validation t p admits declared mode)
          (λ strict u named. Returns-always _ (λ o w. named)))

-- Under the policy VALIDATED_PASS_EVIDENCE, an admission that is accepted named a recorded validation
-- of the same evidence, and the validation passed.
pub admission_needs_validation :
    (id evidence reason : String) (validation : Option String) (actor now : String) (s : Store)
    (p : Policy AdmissionMode) (a : AdmissionView)
    → s.tables.admission_policy ≡ some p
    → p.mode ≡ validated_pass_evidence
    → (decide id evidence "ADMITTED" reason validation actor now s).0 ≡ ok a
    → (v : String) × (validation ≡ some v) × (validation_passes s.tables evidence v ≡ true)
unfolding decide decision_of
admission_needs_validation id evidence reason validation actor now s p a declared mode returned =
    let bound : Answers
        (λ _ u.
          (v : String) × (validation ≡ some v) × (validation_passes s.tables evidence v ≡ true))
        (decide id evidence "ADMITTED" reason validation actor now s) =
      Answers-require _ _ _ _ λ _. Answers-require _ _ _ _ λ _. Answers-or_raise _ _ _ _ λ d known.
        Answers-refuse _ _ _ _ λ _. Answers-refuse _ _ _ _ λ _. Answers-require _ _ _ _ λ _.
          Answers-atomic_row _ _ _ _ (
            Returns-map
              (decide_strict-Returns id evidence "ADMITTED" d reason validation actor now s.tables p
                (cc) declared mode)
              (λ o u named a read. named)) in
    bound.at a returned
