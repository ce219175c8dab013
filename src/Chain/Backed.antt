-- ===== src/Chain/Backed.antt =====
-- What stands behind a decision and behind a proof, whatever is recorded later (src/vera_mmu/admission.py,
-- src/vera_mmu/proofs.py).
pub mod Steps
pub mod Promotion
pub mod Services
use vera_mmu.Common.{
  String, Bool, true, false, ◌≡◌, ◌==◌, text_Eq, Option, none, some, List, [], ◌∷◌, ◌++◌, find,
  find-append_some, is_some, All, All-map, subst, sym, ◌∙◌, ap,
}
use vera_mmu.Store.{Tables}
use vera_mmu.Store.Rows.{Evidence, Admission, is_admitted, is_pass, KnowledgeProof}
use vera_mmu.Chain.Platform.{Platform, Members, json_object, object_of}
use vera_mmu.Chain.Classes.{classify, technical_validation}

abbrev pub find_evidence : Tables → String → Option Evidence
find_evidence t id = find (λ e. e.id == id) t.evidence

abbrev pub find_admission : Tables → String → Option Admission
find_admission t id = find (λ a. a.id == id) t.admissions

-- An evidence is admitted only if it is recorded with the verdict PASS.
pub record DecisionIsBacked (t : Tables) (a : Admission) : Type 0 where
  pub evidence : Evidence
  pub recorded : find_evidence t a.evidence_id ≡ some evidence
  pub passed : is_admitted a.decision ≡ true → is_pass evidence.verdict ≡ true

-- The evidence of a proof is recorded, passed, of a technical class, still has the hash of its
-- content, and is admitted by the decision that the proof names.
pub record ProofIsBacked (platform : Platform) (t : Tables) (p : KnowledgeProof) : Type 0 where
  pub evidence : Evidence
  pub recorded : find_evidence t p.evidence_id ≡ some evidence
  pub passed : is_pass evidence.verdict ≡ true
  pub technical : classify evidence.evidence_type ≡ technical_validation
  pub content : Members
  pub decoded : object_of (platform.loads evidence.content_json) ≡ some content
  pub intact :
      platform.sha256 (platform.canonical_json (json_object content)) ≡ evidence.content_hash
  pub admission : Admission
  pub decided : find_admission t p.admission_id ≡ some admission
  pub same : admission.evidence_id ≡ p.evidence_id
  pub admitted : is_admitted admission.decision ≡ true
  pub signed : p.hmac_required ≡ true → is_some p.hmac_digest ≡ true

pub record IsBacked (platform : Platform) (t : Tables) : Type 0 where
  pub decisions : All (DecisionIsBacked t) t.admissions
  pub proofs : All (ProofIsBacked platform t) t.proofs

-- more evidence and more decisions, behind those that are there
pub record Extends (t u : Tables) : Type 0 where
  pub more_evidence : List Evidence
  pub more_admissions : List Admission
  pub evidence_grows : u.evidence ≡ t.evidence ++ more_evidence
  pub admissions_grow : u.admissions ≡ t.admissions ++ more_admissions

pub Extends-find_evidence :
    (t u : Tables) (id : String) (e : Evidence)
    → Extends t u
    → find_evidence t id ≡ some e
    → find_evidence u id ≡ some e
Extends-find_evidence t u id e x h =
    ap (find (λ (f : Evidence). f.id == id)) x.evidence_grows
    ∙ find-append_some (λ (f : Evidence). f.id == id) t.evidence x.more_evidence e h

pub Extends-find_admission :
    (t u : Tables) (id : String) (a : Admission)
    → Extends t u
    → find_admission t id ≡ some a
    → find_admission u id ≡ some a
Extends-find_admission t u id a x h =
    ap (find (λ (f : Admission). f.id == id)) x.admissions_grow
    ∙ find-append_some (λ (f : Admission). f.id == id) t.admissions x.more_admissions a h

pub Extends-DecisionIsBacked :
    (t u : Tables) (a : Admission) → Extends t u → DecisionIsBacked t a → DecisionIsBacked u a
Extends-DecisionIsBacked t u a x b = record {
  evidence = b.evidence;
  recorded = Extends-find_evidence t u a.evidence_id b.evidence x b.recorded;
  passed = b.passed;
}

pub Extends-ProofIsBacked :
    (platform : Platform) (t u : Tables) (p : KnowledgeProof)
    → Extends t u
    → ProofIsBacked platform t p
    → ProofIsBacked platform u p
Extends-ProofIsBacked platform t u p x b = record {
  evidence = b.evidence;
  recorded = Extends-find_evidence t u p.evidence_id b.evidence x b.recorded;
  passed = b.passed;
  technical = b.technical;
  content = b.content;
  decoded = b.decoded;
  intact = b.intact;
  admission = b.admission;
  decided = Extends-find_admission t u p.admission_id b.admission x b.decided;
  same = b.same;
  admitted = b.admitted;
  signed = b.signed;
}
