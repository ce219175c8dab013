-- ===== src/Chain/Backed/Services.antt =====
-- `record` of src/vera_mmu/evidence.py, `decide` of admission.py and `promote` of proofs.py keep every
-- decision and every proof backed.
use vera_mmu.Common.{String, text_Eq, Option}
use vera_mmu.Store.{Tables, Store, Rows}
use vera_mmu.Store.Keeps.{
  Commits, Keeps-atomic_row, Keeps-bind, Keeps-pure, Keeps-require, Keeps-refuse, Keeps-or_raise,
}
use vera_mmu.Store.Returns.{Returns, settle-Returns}
use vera_mmu.Chain.Platform.{Platform, Members}
use vera_mmu.Chain.Record.{record_evidence, read_evidence}
use vera_mmu.Chain.Decide.{decide}
use vera_mmu.Chain.Promote.{promote}
use vera_mmu.Chain.Backed.{IsBacked}
use vera_mmu.Chain.Backed.Steps.{record_rows-Returns, decide_rows-Returns}
use vera_mmu.Chain.Backed.Promotion.{promote_rows-Returns}

commits :
    {E A : Type 0} (platform : Platform) (m : Rows E A)
    → ((t : Tables) → IsBacked platform t → Returns (λ _ u. IsBacked platform u) (m t))
    → Commits (IsBacked platform) m
commits platform m h = record {
  at = λ t b. settle-Returns (IsBacked platform) t _ (h t b) b (λ a u q. q);
}

-- Recording an evidence leaves every decision and every proof backed by the rows that it names.
pub record_evidence-IsBacked :
    (platform : Platform) (id execution type_text verdict_text : String) (content : Members)
    (actor now : String) (s : Store)
    → IsBacked platform s.tables
    → IsBacked platform
        (record_evidence platform id execution type_text verdict_text content actor now s).1.tables
unfolding record_evidence read_evidence
record_evidence-IsBacked platform id execution type_text verdict_text content actor now s h =
    (Keeps-require _ _ _ (
        Keeps-or_raise _ _ _ λ type. Keeps-or_raise _ _ _ λ verdict. Keeps-refuse _ _ _ (
          Keeps-bind _ _
            (Keeps-atomic_row _ _ _
              (commits platform _ (record_rows-Returns platform _ verdict_text)))
            (λ row. Keeps-or_raise _ _ _ λ content. Keeps-pure _)))).at
      s h

-- A decision, accepted or refused, leaves every decision and every proof backed by the rows that it
-- names: an admitted evidence is recorded with the verdict PASS.
pub decide-IsBacked :
    (platform : Platform) (id evidence decision_text reason : String) (validation : Option String)
    (actor now : String) (s : Store)
    → IsBacked platform s.tables
    → IsBacked platform (decide id evidence decision_text reason validation actor now s).1.tables
unfolding decide
decide-IsBacked platform id evidence decision_text reason validation actor now s h =
    (Keeps-require _ _ _ (
        Keeps-require _ _ _ (
          Keeps-or_raise _ _ _ λ d. Keeps-refuse _ _ _ (
            Keeps-refuse _ _ _ (
              Keeps-require _ _ _ (
                Keeps-atomic_row _ _ _ (
                  commits platform _ (
                    decide_rows-Returns platform id evidence decision_text d reason validation actor
                      now)))))))).at
      s h

-- A promotion, accepted or refused, leaves every proof founded on a recorded evidence that passed, is
-- a technical validation, has the hash of its content, and is admitted by the decision it names;
-- where the policy asks for it, with a digest.
pub promote-IsBacked :
    (platform : Platform) (secret : Option String)
    (id knowledge evidence admission actor now : String) (s : Store)
    → IsBacked platform s.tables
    → IsBacked platform
        (promote platform secret id knowledge evidence admission actor now s).1.tables
unfolding promote
promote-IsBacked platform secret id knowledge evidence admission actor now s h =
    (Keeps-require _ _ _ (
        Keeps-atomic_row _ _ _ (
          commits platform _
            (promote_rows-Returns platform secret id knowledge evidence admission actor now)))).at
      s h
