-- ===== src/Chain/Backed/Promotion.antt =====
-- A promotion that returns has found what its proof needs.
use mathlib.Core.List.{append-nil}
use vera_mmu.Common.{
  String, Bool, true, false, ◌≡◌, refl, ◌==◌, text_Eq, text_iff, Option, none, some, List, [], ◌∷◌,
  ◌++◌, is_some, All-map, All-append, subst, sym, ap, arith, inl, inr, Bool-cases, pure, ◌&&◌,
}
use vera_mmu.Store.{Tables}
use vera_mmu.Chain.Classes.{classify, may_create_proof, technical_validation}
use vera_mmu.Store.Rows.{
  EvidenceType, command_proof, test_proof, ci_proof, api_proof, hash_proof, metric_proof,
  file_proof, external_attestation, human_assertion, model_evaluation, Evidence, Admission,
  is_admitted, is_pass, KnowledgeProof, AuditEvent,
}
use vera_mmu.Store.Returns.{
  Returns, Returns-ok, Returns-gets, Returns-require, Returns-refuse, Returns-or_raise,
  Returns-insert, Returns-audit,
}
use vera_mmu.Chain.Platform.{Platform}
use vera_mmu.Chain.Promote.{promote_rows, insert_proof, admissible, digest_of, no_secret, proof_row}
use vera_mmu.Chain.Backed.{
  ProofIsBacked, IsBacked, Extends, find_evidence, find_admission, Extends-DecisionIsBacked,
  Extends-ProofIsBacked,
}

-- the two rows that pass the test of `promote`
pub admissible-some :
    (id : String) (found : Option Evidence) (decided : Option Admission) (e : Evidence)
    → admissible id found decided ≡ some e
    → (a : Admission) × (found ≡ some e)
      × (decided ≡ some a)
      × (is_pass e.verdict ≡ true)
      × (a.evidence_id ≡ id)
      × (is_admitted a.decision ≡ true)
admissible-some id none decided e h = cc
admissible-some id (some f) none e h = cc
admissible-some id (some f) (some a) e h =
    elim (Bool-cases (is_pass f.verdict && a.evidence_id == id && is_admitted a.decision)) [
      | inl pass ↦
          let same : f ≡ e = ground (arith, h, pass) in
          (
            a,
            ap some same,
            refl,
            subst (λ (x : Evidence). is_pass x.verdict ≡ true) same (ground (arith, pass)),
            (text_iff a.evidence_id id).0 (ground (arith, pass)),
            ground (arith, pass),
          )
      | inr bad ↦ ground (arith, h, bad)
    ]

-- only the class of technical validations may found a proof
pub may_create_proof-technical :
    (type : EvidenceType) → may_create_proof type ≡ true → classify type ≡ technical_validation
may_create_proof-technical command_proof h = refl
may_create_proof-technical test_proof h = refl
may_create_proof-technical ci_proof h = refl
may_create_proof-technical api_proof h = refl
may_create_proof-technical hash_proof h = refl
may_create_proof-technical file_proof h = refl
may_create_proof-technical metric_proof h = cc
may_create_proof-technical external_attestation h = cc
may_create_proof-technical human_assertion h = cc
may_create_proof-technical model_evaluation h = cc

digest-signed :
    (platform : Platform) (mode : Bool) (secret : Option String) (payload : String)
    → (mode && no_secret secret) ≡ false
    → mode ≡ true
    → is_some (digest_of platform mode secret payload) ≡ true
digest-signed platform false secret payload h e = cc
digest-signed platform true none payload h e = cc
digest-signed platform true (some s) payload h e = refl

add_proof-IsBacked :
    (platform : Platform) (t : Tables) (p : KnowledgeProof) (audit : List AuditEvent)
    → IsBacked platform t
    → ProofIsBacked platform t p
    → IsBacked platform (record t { proofs = t.proofs ++ p ∷ []; audit = audit })
add_proof-IsBacked platform t p audit b new =
    let u : Tables = record t { proofs = t.proofs ++ p ∷ []; audit = audit } in
    let x : Extends t u = record {
      more_evidence = [];
      more_admissions = [];
      evidence_grows = sym (append-nil t.evidence);
      admissions_grow = sym (append-nil t.admissions);
    } in
    record {
      decisions = All-map _ _ t.admissions (λ a h. Extends-DecisionIsBacked t u a x h) b.decisions;
      proofs =
          All-append _ t.proofs (p ∷ [])
            (All-map _ _ t.proofs (λ q h. Extends-ProofIsBacked platform t u q x h) b.proofs)
            (Extends-ProofIsBacked platform t u p x new, tt);
    }

pub promote_rows-Returns :
    (platform : Platform) (secret : Option String)
    (id knowledge evidence admission actor now : String) (t : Tables)
    → IsBacked platform t
    → Returns
        (λ _ u. IsBacked platform u)
        (promote_rows platform secret id knowledge evidence admission actor now t)
unfolding promote_rows insert_proof pure
promote_rows-Returns platform secret id knowledge evidence admission actor now t b =
    Returns-gets _ _ _ (
      Returns-or_raise _ _ _ _ λ policy declared. Returns-refuse _ _ _ _ λ with_secret.
        Returns-refuse _ _ _ _ λ no_other. Returns-gets _ _ _ (
          Returns-require _ _ _ _ λ known. Returns-gets _ _ _ (
            Returns-or_raise _ _ _ _ λ e found. Returns-require _ _ _ _ λ technical.
              Returns-or_raise _ _ _ _ λ content decoded. Returns-require _ _ _ _ λ intact.
                Returns-insert _ _ _ _ λ valid. Returns-gets _ _ _ (
                  Returns-audit _ _ _ _ _ λ audit.
                    let (a, recorded, decided, passed, same, accepted) =
                      admissible-some evidence (find_evidence t evidence)
                        (find_admission t admission) e found in
                    Returns-ok _ _ (
                      add_proof-IsBacked platform t
                        (proof_row platform policy.mode secret id knowledge evidence admission e
                          content actor now)
                        audit b
                        (record {
                          evidence = e;
                          recorded = recorded;
                          passed = passed;
                          technical = may_create_proof-technical e.evidence_type technical;
                          content = content;
                          decoded = decoded;
                          intact = (text_iff _ e.content_hash).0 intact;
                          admission = a;
                          decided = decided;
                          same = same;
                          admitted = accepted;
                          signed = digest-signed platform policy.mode secret _ with_secret;
                        }))))))
