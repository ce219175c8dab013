-- ===== src/Examples/Drafts.antt =====
-- A draft that is applied after the gate has a policy.
use vera_mmu.Common.{ℕ, String, List, Option, none, refl, ◌≡◌, true, err}
use vera_mmu.Store.{Store, raised}
use vera_mmu.Gates.Declare.{declare_policy}
use vera_mmu.GateDraft.{Draft, DraftError, draft_of, apply_draft}
use vera_mmu.GateDraft.Applied.{outdated_draft}
use vera_mmu.Examples.Gates.{gated, run_gates}

-- stand for the digests of canonical texts
abbrev list_digest : List String → String
list_digest _ = "requirements"

abbrev draft_digest : String → String → Option ℕ → String → String
draft_digest gate_id _ _ _ = gate_id

abbrev drafted : Draft
drafted = draft_of list_digest draft_digest gated.tables "g1" "ANY" none

abbrev with_policy : Store
with_policy = (declare_policy "g1" "ALL" none "system" "t2" gated).1

outdated_draft_example :
    (e : DraftError) × (apply_draft list_digest draft_digest drafted true "t3" with_policy
      ≡ (err (raised e), with_policy))
unfolding run_gates
outdated_draft_example = outdated_draft list_digest draft_digest drafted true "t3" with_policy refl
