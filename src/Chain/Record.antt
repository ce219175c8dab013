-- ===== src/Chain/Record.antt =====
-- `EvidenceService` of src/vera_mmu/evidence.py.
use vera_mmu.Common.{
  String, Bool, not, ◌&&◌, ◌==◌, text_Eq, nat_eq, Option, none, some, [], ◌∷◌, ◌++◌, find, is_some,
  if◌then◌else◌, pure, gets, require, or_raise, refuse, ◌>>=◌, ◌>>◌,
}
use vera_mmu.Common.Text.{is_empty, is_plain_identifier, len}
use vera_mmu.Store.{Tables, Method, Rows, raised, atomic_row, append_audit, insert, has_length}
use vera_mmu.Store.Rows.{Evidence, EvidenceType, Verdict, pass, fail, error, skipped, unknown, text}
use vera_mmu.Chain.Platform.{Platform, Members, json_object, object_of}
use vera_mmu.Chain.Classes.{evidence_type_of}

pub data EvidenceError : Type 0 where
  invalid_identifier invalid_type_or_verdict invalid_actor unknown_execution : EvidenceError
  invalid_evidence evidence_unreadable evidence_not_found content_unreadable : EvidenceError

-- `VERDICTS`
unfoldable pub verdict_of : String → Option Verdict
verdict_of s =
    if s == "PASS"
    then some pass
    else if s == "FAIL"
    then some fail
    else if s == "ERROR"
    then some error
    else if s == "SKIPPED"
    then some skipped
    else if s == "UNKNOWN"
    then some unknown
    else none

-- what the service returns: the row, and its content decoded
pub record EvidenceView : Type 0 where
  pub row : Evidence
  pub content : Members

module _ (platform : Platform) where
  -- the constraints of `evidence`; `json_valid` is read as `json.loads`
  unfoldable pub evidence_is_valid : Tables → Evidence → Bool
  unfolding has_length
  evidence_is_valid t e =
      has_length 1 256 e.id
      && not (is_some (find (λ f. f.id == e.id) t.evidence))
      && is_some (find (λ x. x.id == e.execution_id) t.executions)
      && is_some (platform.loads e.content_json)
      && nat_eq (len e.content_hash) 64
      && has_length 1 256 e.created_by

  unfoldable pub insert_evidence : {E : Type 0} → Evidence → Rows E Unit
  unfolding evidence_is_valid
  insert_evidence e =
      insert (λ t. evidence_is_valid t e) (λ t. record t { evidence = t.evidence ++ e ∷ [] })

  -- the block of `record`
  unfoldable pub record_evidence_rows : Evidence → String → Rows EvidenceError (Option Evidence)
  unfolding insert_evidence
  record_evidence_rows e verdict_text = do
    known ← gets (λ t. is_some (find (λ x. x.id == e.execution_id) t.executions))
    require known (raised unknown_execution)
    insert_evidence e
    row ← gets (λ t. find (λ f. f.id == e.id) t.evidence)
    append_audit e.created_at "EVIDENCE_RECORDED" (
        ("evidence_id", text e.id)
        ∷ ("execution_id", text e.execution_id)
        ∷ ("verdict", text verdict_text)
        ∷ ("actor", text e.created_by)
        ∷ [])
    pure row

  -- `_row`
  unfoldable pub read_evidence : Evidence → Method EvidenceError EvidenceView
  read_evidence e = do
    content ← or_raise (object_of (platform.loads e.content_json)) (raised content_unreadable)
    pure (record { row = e; content = content })

  abbrev pub evidence_row :
      String → String → EvidenceType → Verdict → Members → String → String → Evidence
  evidence_row id execution type verdict content actor now =
      let payload = platform.canonical_json (json_object content) in
      record {
        id = id;
        execution_id = execution;
        evidence_type = type;
        verdict = verdict;
        content_json = payload;
        content_hash = platform.sha256 payload;
        created_at = now;
        created_by = actor;
      }

  -- `EvidenceService.record`
  unfoldable pub record_evidence :
      String
      → String
      → String
      → String
      → Members
      → String
      → String
      → Method EvidenceError EvidenceView
  unfolding record_evidence_rows read_evidence
  record_evidence id execution type_text verdict_text content actor now = do
    require (is_plain_identifier id) (raised invalid_identifier)
    type ← or_raise (evidence_type_of type_text) (raised invalid_type_or_verdict)
    verdict ← or_raise (verdict_of verdict_text) (raised invalid_type_or_verdict)
    refuse (is_empty actor) (raised invalid_actor)
    row ← atomic_row invalid_evidence evidence_unreadable (
        record_evidence_rows (evidence_row id execution type verdict content actor now)
          verdict_text)
    read_evidence row

  -- `EvidenceService.get`
  unfoldable pub get_evidence : String → Method EvidenceError EvidenceView
  unfolding read_evidence
  get_evidence id = do
    found ← gets (λ s. find (λ e. e.id == id) s.tables.evidence)
    row ← or_raise found (raised evidence_not_found)
    read_evidence row
