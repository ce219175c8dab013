-- ===== src/Chain/Promote.antt =====
-- `ProofService` of src/vera_mmu/proofs.py.
use vera_mmu.Common.{
  String, Bool, true, false, not, ◌&&◌, ◌==◌, text_Eq, nat_eq, Option, none, some, [], ◌∷◌, ◌++◌,
  find, any, all, is_some, contains, if◌then◌else◌, pure, gets, require, or_raise, refuse, ◌>>=◌,
  ◌>>◌,
}
use vera_mmu.Common.Text.{is_empty, is_plain_identifier, len}
use vera_mmu.Store.{Tables, Method, Rows, raised, atomic_row, append_audit, insert, has_length}
use vera_mmu.Store.Rows.{KnowledgeProof, Evidence, Admission, is_admitted, is_pass, text}
use vera_mmu.Gates.Declare.{has_evidence}
use vera_mmu.Chain.Platform.{
  Platform, json_text, json_object, Members, no_members, member, object_of,
}
use vera_mmu.Chain.Classes.{may_create_proof}

pub data ProofError : Type 0 where
  invalid_proof_id policy_required secret_required secret_forbidden unknown_knowledge : ProofError
  not_admissible class_refused not_canonical hash_mismatch invalid_proof proof_unreadable :
      ProofError

-- `not isinstance(self.hmac_secret, bytes) or not self.hmac_secret`
abbrev pub no_secret : Option String → Bool
no_secret none = true
no_secret (some s) = is_empty s

-- the test on the evidence and on the admission, negated; the result is the evidence
abbrev pub admissible : String → Option Evidence → Option Admission → Option Evidence
admissible id none _ = none
admissible id (some e) none = none
admissible id (some e) (some a) =
    if is_pass e.verdict && a.evidence_id == id && is_admitted a.decision then some e else none

abbrev pub fits_digest : Option String → Bool
fits_digest none = true
fits_digest (some d) = nat_eq (len d) 64

-- the constraints of `knowledge_proof`
unfoldable pub proof_is_valid : Tables → KnowledgeProof → Bool
unfolding has_evidence has_length contains
proof_is_valid t p =
    has_length 1 256 p.id
    && not (is_some (find (λ q. q.id == p.id) t.proofs))
    && contains t.knowledge p.knowledge_id
    && has_evidence t p.evidence_id
    && is_some (find (λ a. a.id == p.admission_id) t.admissions)
    && fits_digest p.hmac_digest
    && has_length 1 256 p.created_by
    && not (any (λ q. q.knowledge_id == p.knowledge_id && q.evidence_id == p.evidence_id) t.proofs)

unfoldable pub insert_proof : {E : Type 0} → KnowledgeProof → Rows E Unit
insert_proof p = insert (λ t. proof_is_valid t p) (λ t. record t { proofs = t.proofs ++ p ∷ [] })

module _ (platform : Platform) where
  -- the signed envelope: the verdict is PASS by then
  abbrev envelope : String → String → String → Evidence → Members → String
  envelope knowledge evidence admission e content = platform.canonical_json (
      json_object (
        member "knowledge_id" (json_text knowledge) (
          member "evidence_id" (json_text evidence) (
            member "admission_id" (json_text admission) (
              member "verdict" (json_text "PASS") (
                member "content_hash" (json_text e.content_hash)
                  (member "content" (json_object content) no_members)))))))

  abbrev pub digest_of : Bool → Option String → String → Option String
  digest_of false secret payload = none
  digest_of true none payload = none
  digest_of true (some s) payload = some (platform.hmac_sha256 s payload)

  abbrev pub proof_row :
      Bool
      → Option String
      → String
      → String
      → String
      → String
      → Evidence
      → Members
      → String
      → String
      → KnowledgeProof
  proof_row hmac_required secret id knowledge evidence admission recorded content actor now =
      record {
        id = id;
        knowledge_id = knowledge;
        evidence_id = evidence;
        admission_id = admission;
        hmac_required = hmac_required;
        hmac_digest =
            digest_of hmac_required secret (envelope knowledge evidence admission recorded content);
        created_at = now;
        created_by = actor;
      }

  -- the block of `promote`
  unfoldable pub promote_rows :
      Option String
      → String
      → String
      → String
      → String
      → String
      → String
      → Rows ProofError (Option KnowledgeProof)
  unfolding insert_proof contains
  promote_rows secret id knowledge evidence admission actor now = do
    declared ← gets (λ t. t.proof_policy)
    policy ← or_raise declared (raised policy_required)
    refuse (policy.mode && no_secret secret) (raised secret_required)
    refuse (not policy.mode && is_some secret) (raised secret_forbidden)
    known ← gets (λ t. contains t.knowledge knowledge)
    require known (raised unknown_knowledge)
    admitted ← gets (λ t.
        admissible evidence (find (λ e. e.id == evidence) t.evidence)
          (find (λ a. a.id == admission) t.admissions))
    recorded ← or_raise admitted (raised not_admissible)
    require (may_create_proof recorded.evidence_type) (raised class_refused)
    content ← or_raise (object_of (platform.loads recorded.content_json)) (raised not_canonical)
    require
        (platform.sha256 (platform.canonical_json (json_object content)) == recorded.content_hash)
        (raised hash_mismatch)
    insert_proof
        (proof_row policy.mode secret id knowledge evidence admission recorded content actor now)
    row ← gets (λ t. find (λ q. q.id == id) t.proofs)
    append_audit now "KNOWLEDGE_PROOF_PROMOTED" (
        ("proof_id", text id)
        ∷ ("knowledge_id", text knowledge)
        ∷ ("evidence_id", text evidence)
        ∷ ("actor", text actor)
        ∷ [])
    pure row

  -- `ProofService.promote`
  unfoldable pub promote :
      Option String
      → String
      → String
      → String
      → String
      → String
      → String
      → Method ProofError KnowledgeProof
  unfolding promote_rows
  promote secret id knowledge evidence admission actor now = do
    require (all is_plain_identifier (id ∷ knowledge ∷ evidence ∷ admission ∷ actor ∷ []))
        (raised invalid_proof_id)
    atomic_row invalid_proof proof_unreadable
        (promote_rows secret id knowledge evidence admission actor now)
