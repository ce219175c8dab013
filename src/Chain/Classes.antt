-- ===== src/Chain/Classes.antt =====
-- src/vera_mmu/evidence_classes.py: the three classes of evidence, and which of them may found a proof.
use vera_mmu.Common.{String, Bool, true, false, ◌==◌, text_Eq, Option, none, some, if◌then◌else◌}
use vera_mmu.Store.Rows.{
  EvidenceType, command_proof, test_proof, ci_proof, api_proof, hash_proof, metric_proof,
  file_proof, external_attestation, human_assertion, model_evaluation,
}

pub data EvidenceClass : Type 0 where
  technical_validation simple_observation semantic_appreciation : EvidenceClass

-- `CLASS_BY_EVIDENCE_TYPE`, on the catalogue `TYPES`: `classify` raises on nothing that is in it.
abbrev pub classify : EvidenceType → EvidenceClass
classify command_proof = technical_validation
classify test_proof = technical_validation
classify ci_proof = technical_validation
classify api_proof = technical_validation
classify hash_proof = technical_validation
classify file_proof = technical_validation
classify metric_proof = simple_observation
classify external_attestation = simple_observation
classify human_assertion = semantic_appreciation
classify model_evaluation = semantic_appreciation

abbrev is_technical : EvidenceClass → Bool
is_technical technical_validation = true
is_technical simple_observation = false
is_technical semantic_appreciation = false

abbrev pub may_create_proof : EvidenceType → Bool
may_create_proof type = is_technical (classify type)

-- `TYPES` of evidence.py
unfoldable pub evidence_type_of : String → Option EvidenceType
evidence_type_of s =
    if s == "COMMAND_PROOF"
    then some command_proof
    else if s == "TEST_PROOF"
    then some test_proof
    else if s == "CI_PROOF"
    then some ci_proof
    else if s == "API_PROOF"
    then some api_proof
    else if s == "HASH_PROOF"
    then some hash_proof
    else if s == "METRIC_PROOF"
    then some metric_proof
    else if s == "FILE_PROOF"
    then some file_proof
    else if s == "EXTERNAL_ATTESTATION"
    then some external_attestation
    else if s == "HUMAN_ASSERTION"
    then some human_assertion
    else if s == "MODEL_EVALUATION"
    then some model_evaluation
    else none

-- `classify` of a text: an evidence type that is not of the catalogue is refused
unfoldable pub classify_text : String → Option EvidenceClass
unfolding evidence_type_of
classify_text s = elim (evidence_type_of s) [ none ↦ none | some type ↦ some (classify type) ]

-- `_REASONS`
abbrev reason_of : EvidenceClass → String
reason_of technical_validation =
    "Le verdict découle d’un contrôle rejouable : il peut fonder une preuve."
reason_of simple_observation =
    "Une observation enregistre ce qui a été vu ; le Core n’en a dérivé aucun verdict, donc elle ne peut pas fonder une preuve."
reason_of semantic_appreciation =
    "Une appréciation est un jugement qu’aucune réexécution ne reproduit ; la ranger comme preuve ferait passer une opinion pour un fait vérifié."

pub record Description : Type 0 where
  pub evidence_type : String
  pub evidence_class : EvidenceClass
  pub may_create_proof : Bool
  pub reason : String

abbrev description : String → Option EvidenceClass → Option Description
description s none = none
description s (some c) = some (record {
  evidence_type = s;
  evidence_class = c;
  may_create_proof = is_technical c;
  reason = reason_of c;
})

-- `describe`
unfoldable pub describe : String → Option Description
unfolding classify_text
describe s = description s (classify_text s)
